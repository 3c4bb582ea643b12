-- ===== src/KeyFile/Versions.antt =====
-- The map from versions to entries, and the latest version.
use git_crypt.Base.{
  ℕ, ◌^◌, ◌<◌, ◌≤◌, ◌≡◌, refl, ◌⊎◌, Option, none, some, [], ◌∷◌, Bytes, length, ◌==◌, if◌then◌else◌,
  arith,
}
use git_crypt.Base.Results.{ok}
use git_crypt.KeyFile.{
  Entry, Entries, KeyFile, insert, find, get, get_latest, add, aes_key_len, hmac_key_len,
  validate_key_name, c_str, key_name_max_len, valid,
}

abbrev pub IsEntry : Entry → Type 0
IsEntry e =
    (e.version < 2 ^ 32) × (length e.aes_key ≡ aes_key_len) × (length e.hmac_key ≡ hmac_key_len)

-- Every version of the map is below `v`.
abbrev pub Below : ℕ → Entries → Type 0
Below v [] = Unit
Below v ((w, f) ∷ m) = (w < v) × Below v m

-- Versions fall strictly, each entry stands under its own version and has keys of the right size.
abbrev pub IsSorted : Entries → Type 0
IsSorted [] = Unit
IsSorted ((v, e) ∷ m) = (v ≡ e.version) × IsEntry e × Below v m × IsSorted m

abbrev pub IsKeyName : Bytes → Type 0
IsKeyName name =
    (name ≡ []) ⊎ ((length name ≤ key_name_max_len) × (validate_key_name (c_str name) ≡ valid))

pub record IsWellFormed (k : KeyFile) : Type 0 where
  pub sorted : IsSorted k.entries
  pub named : IsKeyName k.key_name

pub find-insert :
    (j v : ℕ) (e : Entry) (m : Entries)
    → find j (insert v e m) ≡ (if j == v then some e else find j m)
unfolding find insert
find-insert j v e [] = refl
find-insert j v e ((w, f) ∷ m) = ground (arith, find-insert j v e m)

pub Below-trans : (v w : ℕ) (m : Entries) → v ≤ w → Below v m → Below w m
Below-trans v w [] h b = tt
Below-trans v w ((u, f) ∷ m) h (p, b) = (omega arith, Below-trans v w m h b)

insert-Below : (u v : ℕ) (e : Entry) (m : Entries) → v < u → Below u m → Below u (insert v e m)
unfolding insert
insert-Below u v e [] h b = (h, tt)
insert-Below u v e ((w, f) ∷ m) h (p, b) = ground (arith, insert-Below u v e m h b)

insert-IsSorted :
    (e : Entry) (m : Entries) → IsEntry e → IsSorted m → IsSorted (insert e.version e m)
unfolding insert
insert-IsSorted e [] he s = (refl, he, tt, tt)
insert-IsSorted e ((w, f) ∷ m) he (q, hf, b, s) =
    ground
      (arith, Below-trans w e.version m, insert-Below w e.version e m, insert-IsSorted e m he s)

-- Adding an entry with a 32-bit version and keys of the right sizes keeps a well-formed key file
-- well formed: one entry to a version, the largest version first.
pub add-IsWellFormed :
    (k : KeyFile) (e : Entry) → IsWellFormed k → IsEntry e → IsWellFormed (add k e)
unfolding add
add-IsWellFormed k e w he = record {
  sorted = insert-IsSorted e k.entries he w.sorted;
  named = w.named;
}

-- After `add`, the version of the entry has this entry, and every other version has what it had.
pub get-add :
    (k : KeyFile) (e : Entry) (j : ℕ)
    → get (add k e) j ≡ (if j == e.version then some e else get k j)
unfolding get add
get-add k e j = find-insert j e.version e k.entries

find-Below : (v w : ℕ) (m : Entries) (f : Entry) → Below v m → find w m ≡ some f → w < v
unfolding find
find-Below v w [] f b h = cc
find-Below v w ((u, g) ∷ m) f (p, b) h = ground (arith, find-Below v w m f b)

-- `get_latest` throws on no well-formed key file: it gives null if there is no entry, and
-- otherwise the entry whose version is the largest one present.
pub data IsLatest (k : KeyFile) : Option Entry → Type 0 where
  nothing : ((w : ℕ) → get k w ≡ none) → IsLatest k none
  largest :
      (e : Entry)
      → get k e.version ≡ some e
      → ((w : ℕ) (f : Entry) → get k w ≡ some f → w ≤ e.version)
      → IsLatest k (some e)

IsLatest-entry :
    (m : Entries) (name : Bytes)
    → IsSorted m
    → let k : KeyFile = record { entries = m; key_name = name } in
      (r : Option Entry) × (get_latest k ≡ ok r) × IsLatest k r
unfolding get_latest find
IsLatest-entry [] name s = (none, refl, nothing (λ w. refl))
IsLatest-entry ((v, e) ∷ m) name (q, he, b, s) =
    (some e, ground arith, largest e (ground arith) (λ w f h. ground (arith, find-Below v w m f b)))

-- On a well-formed key file `get_latest` does not throw: it gives null if there is no entry, and
-- otherwise the entry whose version is the largest one present.
pub get_latest_max :
    (k : KeyFile) → IsWellFormed k → (r : Option Entry) × (get_latest k ≡ ok r) × IsLatest k r
get_latest_max k w = IsLatest-entry k.entries k.key_name w.sorted
