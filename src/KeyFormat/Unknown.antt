-- ===== src/KeyFormat/Unknown.antt =====
-- Fields that this version does not know.
use git_crypt.Base.{
  ℕ, suc, ◌%◌, ◌^◌, ◌≤◌, ◌<◌, ◌≡◌, refl, ◌≢◌, ◌++◌, Bytes, length, ◌==◌, if◌then◌else◌, arith,
}
use git_crypt.Base.Results.{incompatible, ok, err}
use git_crypt.Util.{store_be32}
use git_crypt.KeyFile.{Entry, max_field_len}
use git_crypt.KeyFormat.{skip_field, load_entry_field, load_entry, load_header_field, load_header}
use git_crypt.KeyFormat.RoundTrip.{need_be32-store_be32, need_bytes-append}

-- The field, with its length and body, in front of what follows.
abbrev pub field : ℕ → Bytes → Bytes → Bytes
field field_id body rest = store_be32 field_id ++ (store_be32 (length body) ++ (body ++ rest))

skip_field-odd :
    (field_id field_len : ℕ) (s : Bytes)
    → field_id % 2 ≡ 1
    → skip_field field_id field_len s ≡ err incompatible
unfolding skip_field
skip_field-odd field_id field_len s h = ground arith

skip_field-even :
    (field_id : ℕ) (body rest : Bytes)
    → field_id % 2 ≡ 0
    → length body ≤ max_field_len
    → skip_field field_id (length body) (body ++ rest) ≡ ok rest
unfolding skip_field
skip_field-even field_id body rest h l =
    ground (arith, need_bytes-append (length body) body rest refl)

module _ (field_id : ℕ) (body rest : Bytes) (word : field_id < 2 ^ 32)
    (small : length body ≤ max_field_len) where
  -- In an entry, a field that is not known, with a 32-bit number and at most 2 ^ 20 bytes, is
  -- passed over if its number is even, and ends the reading with Incompatible if it is odd.
  pub load_entry_unknown :
      (fuel : ℕ) (e : Entry)
      → field_id ≢ 0
      → field_id ≢ 1
      → field_id ≢ 3
      → field_id ≢ 5
      → load_entry (suc fuel) e (field field_id body rest)
        ≡ (if field_id % 2 == 0 then load_entry fuel e rest else err incompatible)
  unfolding load_entry load_entry_field
  load_entry_unknown fuel e n0 n1 n3 n5 = ground (
    arith,
    need_be32-store_be32 field_id (store_be32 (length body) ++ (body ++ rest)) word,
    need_be32-store_be32 (length body) (body ++ rest) (omega arith),
    skip_field-odd field_id (length body) (body ++ rest),
    skip_field-even field_id body rest,
  )

  -- In the header, a field other than the end and the key name, with a 32-bit number and at most
  -- 2 ^ 20 bytes, is passed over if its number is even, and ends the reading with Incompatible if
  -- it is odd.
  pub load_header_unknown :
      (fuel : ℕ) (name : Bytes)
      → field_id ≢ 0
      → field_id ≢ 1
      → load_header (suc fuel) name (field field_id body rest)
        ≡ (if field_id % 2 == 0 then load_header fuel name rest else err incompatible)
  unfolding load_header load_header_field
  load_header_unknown fuel name n0 n1 = ground (
    arith,
    need_be32-store_be32 field_id (store_be32 (length body) ++ (body ++ rest)) word,
    need_be32-store_be32 (length body) (body ++ rest) (omega arith),
    skip_field-odd field_id (length body) (body ++ rest),
    skip_field-even field_id body rest,
  )
