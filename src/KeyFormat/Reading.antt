-- ===== src/KeyFormat/Reading.antt =====
-- Loading any stream of bytes ends, with a well-formed key file or one of its two exceptions.
use git_crypt.Base.{
  ℕ, zero, suc, ◌+◌, ◌^◌, ◌≤◌, ◌<◌, ◌≡◌, refl, ◌⊎◌, inl, inr, Bool, true, false, [], ◌∷◌, Bytes,
  IsByte, All, length, take, drop, equal, ◌==◌, leb, if◌then◌else◌, arith, Bool-cases, Option-cases,
  length-take, length-drop,
}
use git_crypt.Base.Results.{
  Exception, incompatible, malformed, Result, ok, err, stuck, ◌>>=◌, ◌>>◌, guard,
}
use git_crypt.Util.{load_be32, read_be32}
use git_crypt.Util.Words.{read_be32_takes, read_be32_bytes}
use git_crypt.KeyFile.{
  KeyFile, Entry, new_entry, add, aes_key_len, hmac_key_len, key_name_max_len, format_version,
  validate_key_name, is_valid, valid, Verdict, invalid, c_str,
}
use git_crypt.KeyFile.Versions.{IsEntry, IsKeyName, IsWellFormed, add-IsWellFormed}
use git_crypt.KeyFormat.{
  need_be32, need_bytes, skip_field, load_entry_field, load_entry, load_key_name, load_header_field,
  load_header, load_entries, magic, load,
}

-- The run returns a value with `P`, or throws Malformed or Incompatible; it does nothing else.
abbrev pub Loads : {A : Type 0} → (A → Type 0) → Result A → Type 0
Loads P (ok a) = P a
Loads P (err malformed) = Unit
Loads P (err incompatible) = Unit
Loads P (err _) = ⊥
Loads P stuck = ⊥

Loads-bind :
    {A B : Type 0} (P : A → Type 0) (Q : B → Type 0) (m : Result A) (f : A → Result B)
    → Loads P m
    → ((a : A) → P a → Loads Q (f a))
    → Loads Q (m >>= f)
Loads-bind P Q (ok a) f h k = k a h
Loads-bind P Q (err malformed) f h k = tt
Loads-bind P Q (err incompatible) f h k = tt
Loads-bind P Q (err _) f h k = absurd h
Loads-bind P Q stuck f h k = absurd h

Loads-mono :
    {A : Type 0} (P Q : A → Type 0) (m : Result A) → Loads P m → ((a : A) → P a → Q a) → Loads Q m
Loads-mono P Q (ok a) h k = k a h
Loads-mono P Q (err malformed) h k = tt
Loads-mono P Q (err incompatible) h k = tt
Loads-mono P Q (err _) h k = absurd h
Loads-mono P Q stuck h k = absurd h

Loads-if :
    {A : Type 0} (P : A → Type 0) (b : Bool) (m n : Result A)
    → (b ≡ true → Loads P m)
    → (b ≡ false → Loads P n)
    → Loads P (if b then m else n)
Loads-if P true m n hm hn = hm refl
Loads-if P false m n hm hn = hn refl

Loads-guard :
    {A : Type 0} (P : A → Type 0) (b : Bool) (e : Exception) (m : Result A)
    → Loads P (err e)
    → Loads P m
    → Loads P (guard b e >> m)
Loads-guard P true e m he hm = hm
Loads-guard P false e m he hm = he

-- What is left is bytes, and at least `n` fewer than there were.
abbrev pub Rest : ℕ → Bytes → Bytes → Type 0
Rest n s rest = All IsByte rest × (length rest + n ≤ length s)

abbrev WordRead : Bytes → ℕ × Bytes → Type 0
WordRead s (v, rest) = (v < 2 ^ 32) × Rest 4 s rest

need_be32-Loads : (s : Bytes) → All IsByte s → Loads (WordRead s) (need_be32 s)
need_be32-Loads s h = elim (Option-cases (read_be32 s)) [
  | inl e ↦ rw e tt
  | inr ((v, rest), e) ↦
      let (small, _, left) = read_be32_bytes s h e in
      rw e (small, (left, omega (arith, read_be32_takes s e)))
]

All-take : (n : ℕ) (s : Bytes) → All IsByte s → All IsByte (take n s) × All IsByte (drop n s)
All-take zero s h = (tt, h)
All-take (suc n) [] h = (tt, tt)
All-take (suc n) (x ∷ s) (hx, h) = let (a, b) = All-take n s h in ((hx, a), b)

abbrev pub BytesRead : ℕ → Bytes → Bytes × Bytes → Type 0
BytesRead n s (b, rest) = (length b ≡ n) × Rest n s rest

pub need_bytes-Loads : (n : ℕ) (s : Bytes) → All IsByte s → Loads (BytesRead n s) (need_bytes n s)
unfolding need_bytes
need_bytes-Loads n s h = ground (arith, All-take n s h, length-take n s, length-drop n s)

skip_field-Loads :
    (field_id field_len : ℕ) (s : Bytes)
    → All IsByte s
    → Loads (Rest 0 s) (skip_field field_id field_len s)
unfolding skip_field
skip_field-Loads field_id field_len s h = ground (arith, need_bytes-Loads field_len s h)

abbrev EntryRead : ℕ → Bytes → Entry × Bytes → Type 0
EntryRead n s (e, rest) = IsEntry e × Rest n s rest

load_entry_field-Loads :
    (e : Entry) (field_id field_len : ℕ) (s : Bytes)
    → IsEntry e
    → All IsByte s
    → Loads (EntryRead 0 s) (load_entry_field e field_id field_len s)
unfolding load_entry_field
load_entry_field-Loads e field_id field_len s he h = ground (
  arith,
  need_be32-Loads s h,
  need_bytes-Loads aes_key_len s h,
  need_bytes-Loads hmac_key_len s h,
  skip_field-Loads field_id field_len s h,
)

load_entry-Loads :
    (fuel : ℕ) (e : Entry) (s : Bytes)
    → IsEntry e
    → All IsByte s
    → length s < fuel
    → Loads (EntryRead 4 s) (load_entry fuel e s)
unfolding load_entry
load_entry-Loads zero e s he h hf = absurd (omega arith)
load_entry-Loads (suc fuel) e s he h hf =
    Loads-bind (WordRead s) (EntryRead 4 s) (need_be32 s) _ (need_be32-Loads s h)
      λ (field_id, s1) (_, (h1, l1)).
        Loads-if (EntryRead 4 s) (field_id == 0) _ _ (λ _. (he, (h1, l1)))
          (λ _.
            Loads-bind (WordRead s1) (EntryRead 4 s) (need_be32 s1) _ (need_be32-Loads s1 h1)
              λ (field_len, s2) (_, (h2, l2)).
                Loads-bind (EntryRead 0 s2) (EntryRead 4 s)
                  (load_entry_field e field_id field_len s2) _
                  (load_entry_field-Loads e field_id field_len s2 he h2)
                  λ (e', s3) (he', (h3, l3)).
                    Loads-mono (EntryRead 4 s3) (EntryRead 4 s) (load_entry fuel e' s3)
                      (load_entry-Loads fuel e' s3 he' h3 (omega arith))
                      (λ (e2, s4) (he2, (h4, l4)). (he2, (h4, omega arith))))

abbrev NameRead : ℕ → Bytes → Bytes × Bytes → Type 0
NameRead n s (name, rest) = IsKeyName name × Rest n s rest

check_name-Loads :
    (name rest s : Bytes)
    → length name ≤ key_name_max_len
    → Rest 0 s rest
    → Loads
        (NameRead 0 s)
        (guard (is_valid (validate_key_name (c_str name))) malformed >> ok (name, rest))
check_name-Loads name rest s hl hr = elim (verdict (validate_key_name (c_str name))) [
  | inl v ↦ rw v (inr (hl, v), hr)
  | inr bad ↦ rw bad tt
]
  where
    verdict : (v : Verdict) → (v ≡ valid) ⊎ (is_valid v ≡ false)
    verdict valid = inl refl
    verdict (invalid reason) = inr refl

load_key_name-Loads :
    (field_len : ℕ) (s : Bytes) → All IsByte s → Loads (NameRead 0 s) (load_key_name field_len s)
unfolding load_key_name
load_key_name-Loads field_len s h = elim (Bool-cases (leb field_len key_name_max_len)) [
  | inr long ↦ rw long tt
  | inl short ↦ rw short (
      Loads-bind (BytesRead field_len s) (NameRead 0 s)
        (if field_len == 0 then ok ([], s) else need_bytes field_len s) _
        (Loads-if (BytesRead field_len s) (field_len == 0) _ _ (λ e. ground arith)
          (λ _. need_bytes-Loads field_len s h))
        λ (name, rest) (hl, hr). check_name-Loads name rest s (ground arith) (hr.0, omega arith))
]

load_header_field-Loads :
    (name : Bytes) (field_id field_len : ℕ) (s : Bytes)
    → IsKeyName name
    → All IsByte s
    → Loads (NameRead 0 s) (load_header_field name field_id field_len s)
unfolding load_header_field
load_header_field-Loads name field_id field_len s hn h =
    ground (arith, load_key_name-Loads field_len s h, skip_field-Loads field_id field_len s h)

load_header-Loads :
    (fuel : ℕ) (name s : Bytes)
    → IsKeyName name
    → All IsByte s
    → length s < fuel
    → Loads (NameRead 0 s) (load_header fuel name s)
unfolding load_header
load_header-Loads zero name s hn h hf = absurd (omega arith)
load_header-Loads (suc fuel) name s hn h hf =
    Loads-bind (WordRead s) (NameRead 0 s) (need_be32 s) _ (need_be32-Loads s h)
      λ (field_id, s1) (_, (h1, l1)).
        Loads-if (NameRead 0 s) (field_id == 0) _ _ (λ _. (hn, (h1, omega arith)))
          (λ _.
            Loads-bind (WordRead s1) (NameRead 0 s) (need_be32 s1) _ (need_be32-Loads s1 h1)
              λ (field_len, s2) (_, (h2, l2)).
                Loads-bind (NameRead 0 s2) (NameRead 0 s)
                  (load_header_field name field_id field_len s2) _
                  (load_header_field-Loads name field_id field_len s2 hn h2)
                  λ (name', s3) (hn', (h3, l3)).
                    Loads-mono (NameRead 0 s3) (NameRead 0 s) (load_header fuel name' s3)
                      (load_header-Loads fuel name' s3 hn' h3 (omega arith))
                      (λ (n2, s4) (hn2, (h4, l4)). (hn2, (h4, omega arith))))

new_entry-IsEntry : IsEntry new_entry
new_entry-IsEntry = omega arith

load_entries-Loads :
    (fuel : ℕ) (k : KeyFile) (s : Bytes)
    → IsWellFormed k
    → All IsByte s
    → length s ≤ fuel
    → Loads IsWellFormed (load_entries fuel k s)
unfolding load_entries
load_entries-Loads fuel k [] w h hf = w
load_entries-Loads zero k (c ∷ s) w h hf = absurd (omega arith)
load_entries-Loads (suc fuel) k (c ∷ s) w h hf =
    Loads-bind (EntryRead 4 (c ∷ s)) IsWellFormed
      (load_entry (suc (length (c ∷ s))) new_entry (c ∷ s)) _
      (load_entry-Loads (suc (length (c ∷ s))) new_entry (c ∷ s) new_entry-IsEntry h (omega arith))
      λ (e, rest) (he, (h', l')).
        load_entries-Loads fuel (add k e) rest (add-IsWellFormed k e w he) h' (omega arith)

-- Loading any stream of bytes ends with a well-formed key file, or by throwing Malformed or
-- Incompatible: no other exception is thrown, and the fuel of the model's loops never runs out.
pub load-Loads : (s : Bytes) → All IsByte s → Loads IsWellFormed (load s)
unfolding load
load-Loads s h =
    Loads-bind (BytesRead 16 s) IsWellFormed (need_bytes 16 s) _ (need_bytes-Loads 16 s h)
      λ (preamble, s1) (_, (h1, _)).
        Loads-guard IsWellFormed (equal (take 12 preamble) magic) malformed _ tt (
          Loads-guard IsWellFormed (load_be32 (drop 12 preamble) == format_version) incompatible _
            tt
            (Loads-bind (NameRead 0 s1) IsWellFormed (load_header (suc (length s1)) [] s1) _
              (load_header-Loads (suc (length s1)) [] s1 (inl refl) h1 (omega arith))
              λ (name, s2) (hn, (h2, _)).
                load_entries-Loads (length s2) (record { entries = []; key_name = name }) s2
                  (record { sorted = tt; named = hn }) h2 (omega arith)))
