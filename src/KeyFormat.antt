-- ===== src/KeyFormat.antt =====
-- key.cpp: the format of a key file on disk.
-- Streams are the bytes that are left. A short read makes every caller throw, so what a failed
-- stream would do next is never seen.
pub mod RoundTrip
pub mod Reading
pub mod Legacy
pub mod Unknown
use git_crypt.Base.{
  ℕ, zero, suc, ◌+◌, ◌*◌, ◌/◌, ◌%◌, ◌^◌, Bool, true, false, not, ◌&&◌, ◌||◌, Option, none, some,
  List, [], ◌∷◌, ◌++◌, Bytes, codes, length, take, drop, get_or, replicate, equal, ◌==◌, ltb, leb,
  if◌then◌else◌,
}
use git_crypt.Base.Results.{
  Result, ok, err, stuck, ◌>>=◌, ◌>>◌, guard, malformed, incompatible, invalid_argument,
}
use git_crypt.Util.{load_be32, store_be32, read_be32, write_be32, explicit_memset}
use git_crypt.KeyFile.{
  KeyFile, Entry, Entries, new_entry, add, aes_key_len, hmac_key_len, max_field_len,
  key_name_max_len, format_version, validate_key_name, is_valid, c_str, insert,
}

-- `if (!read_be32(in, i)) { throw Malformed(); }`
abbrev pub or_malformed : Option (ℕ × Bytes) → Result (ℕ × Bytes)
or_malformed none = err malformed
or_malformed (some r) = ok r

abbrev pub need_be32 : Bytes → Result (ℕ × Bytes)
need_be32 s = or_malformed (read_be32 s)

-- `in.read(buffer, n); if (in.gcount() != n) { throw Malformed(); }`, and the same with `ignore`.
unfoldable pub need_bytes : ℕ → Bytes → Result (Bytes × Bytes)
need_bytes n s = if length (take n s) == n then ok (take n s, drop n s) else err malformed

-- The unknown fields, of entries and of the header: `field_id & 1` marks the critical ones.
unfoldable pub skip_field : ℕ → ℕ → Bytes → Result Bytes
skip_field field_id field_len s = if not (field_id % 2 == 0) then err incompatible else do
  guard (leb field_len max_field_len) malformed
  (_, rest) ← need_bytes field_len s
  ok rest

-- The body of one field of an entry: KEY_FIELD_VERSION is 1, KEY_FIELD_AES_KEY 3 and
-- KEY_FIELD_HMAC_KEY 5.
unfoldable pub load_entry_field : Entry → ℕ → ℕ → Bytes → Result (Entry × Bytes)
load_entry_field e field_id field_len s =
    if field_id == 1
    then (do
      guard (field_len == 4) malformed
      (v, rest) ← need_be32 s
      ok (record e { version = v }, rest))
    else if field_id == 3
    then (do
      guard (field_len == aes_key_len) malformed
      (k, rest) ← need_bytes aes_key_len s
      ok (record e { aes_key = k }, rest))
    else if field_id == 5
    then (do
      guard (field_len == hmac_key_len) malformed
      (k, rest) ← need_bytes hmac_key_len s
      ok (record e { hmac_key = k }, rest))
    else do rest ← skip_field field_id field_len s; ok (e, rest)

-- `Entry::load`: the `while (true)` on fuel, KEY_FIELD_END is 0.
unfoldable pub load_entry : ℕ → Entry → Bytes → Result (Entry × Bytes)
load_entry zero e s = stuck
load_entry (suc fuel) e s = do
  (field_id, s1) ← need_be32 s
  if field_id == 0 then ok (e, s1) else (do
    (field_len, s2) ← need_be32 s1
    (e', s3) ← load_entry_field e field_id field_len s2
    load_entry fuel e' s3)

-- `Entry::load_legacy`; `in.peek() != -1` asks whether anything is left.
unfoldable pub load_entry_legacy : ℕ → Bytes → Result Entry
load_entry_legacy version s = do
  (aes, s1) ← need_bytes aes_key_len s
  (hmac, s2) ← need_bytes hmac_key_len s1
  guard (length s2 == 0) malformed
  ok (record { version = version; aes_key = aes; hmac_key = hmac })

unfoldable pub store_entry : Entry → Bytes
store_entry e =
    write_be32 1
    ++ write_be32 4
    ++ write_be32 e.version
    ++ write_be32 3
    ++ write_be32 aes_key_len
    ++ e.aes_key
    ++ write_be32 5
    ++ write_be32 hmac_key_len
    ++ e.hmac_key
    ++ write_be32 0

-- HEADER_FIELD_KEY_NAME, which is 1.
unfoldable pub load_key_name : ℕ → Bytes → Result (Bytes × Bytes)
load_key_name field_len s = do
  guard (leb field_len key_name_max_len) malformed
  (name, rest) ← if field_len == 0 then ok ([], s) else need_bytes field_len s
  guard (is_valid (validate_key_name (c_str name))) malformed
  ok (name, rest)

-- One header field, from the key name so far.
unfoldable pub load_header_field : Bytes → ℕ → ℕ → Bytes → Result (Bytes × Bytes)
load_header_field name field_id field_len s =
    if field_id == 1
    then load_key_name field_len s
    else do rest ← skip_field field_id field_len s; ok (name, rest)

-- `load_header`: the key name, and what follows the header. HEADER_FIELD_END is 0.
unfoldable pub load_header : ℕ → Bytes → Bytes → Result (Bytes × Bytes)
load_header zero name s = stuck
load_header (suc fuel) name s = do
  (field_id, s1) ← need_be32 s
  if field_id == 0 then ok (name, s1) else (do
    (field_len, s2) ← need_be32 s1
    (name', s3) ← load_header_field name field_id field_len s2
    load_header fuel name' s3)

-- `while (in.peek() != -1) { Entry entry; entry.load(in); add(entry); }`
unfoldable pub load_entries : ℕ → KeyFile → Bytes → Result KeyFile
load_entries fuel k [] = ok k
load_entries zero k (c ∷ s) = stuck
load_entries (suc fuel) k (c ∷ s) = do
  (e, rest) ← load_entry (suc (length (c ∷ s))) new_entry (c ∷ s)
  load_entries fuel (add k e) rest

abbrev pub magic : Bytes
magic = 0 ∷ codes "GITCRYPTKEY"

-- `Key_file::load` into a fresh object. Each field takes four bytes at least, so the number of
-- bytes is fuel enough.
unfoldable pub load : Bytes → Result KeyFile
load s = do
  (preamble, s1) ← need_bytes 16 s
  guard (equal (take 12 preamble) magic) malformed
  guard (load_be32 (drop 12 preamble) == format_version) incompatible
  (name, s2) ← load_header (suc (length s1)) [] s1
  load_entries (length s2) (record { entries = []; key_name = name }) s2

-- `Key_file::load_legacy` into a fresh object.
unfoldable pub load_legacy : Bytes → Result KeyFile
unfolding load_entry_legacy
load_legacy s = do e ← load_entry_legacy 0 s; ok (record { entries = (0, e) ∷ []; key_name = [] })

unfoldable pub store_name : Bytes → Bytes
store_name [] = []
store_name (c ∷ s) = write_be32 1 ++ write_be32 (length (c ∷ s) % 2 ^ 32) ++ (c ∷ s)

unfoldable pub store_entries : Entries → Bytes
unfolding store_entry
store_entries [] = []
store_entries ((v, e) ∷ m) = store_entry e ++ store_entries m

-- `Key_file::store`, and `store_to_string`.
unfoldable pub store : KeyFile → Bytes
unfolding store_name store_entries
store k =
    magic
    ++ write_be32 format_version
    ++ store_name k.key_name
    ++ write_be32 0
    ++ store_entries k.entries
