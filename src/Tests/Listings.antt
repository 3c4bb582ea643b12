-- ===== src/Tests/Listings.antt =====
-- gpg.cpp: a listing of two keys, one with a subkey.
use git_crypt.Base.{
  ℕ, ◌≡◌, refl, inl, inr, Bool, true, false, List, [], ◌∷◌, Bytes, codes, All, ◌==◌, if◌then◌else◌,
  Bool-cases,
}
use git_crypt.Base.Results.{ok}
use git_crypt.Base.Streams.{lines_of}
use git_crypt.Gpg.{public_fingerprints, secret_fingerprints}
use git_crypt.Gpg.Listing.{
  NoByte, unlines, Key, keyring_lines, IsOther, IsPrinted, primary_fingerprints, all_fingerprints,
  fingerprints-keyring,
}

lacks : ℕ → Bytes → Bool
lacks d [] = true
lacks d (c ∷ s) = if c == d then false else lacks d s

lacks-NoByte : (d : ℕ) (s : Bytes) → lacks d s ≡ true → NoByte d s
unfolding lacks
lacks-NoByte d [] h = tt
lacks-NoByte d (c ∷ s) h = elim (Bool-cases (c == d)) [
  | inl same ↦ absurd (let e : false ≡ true = rw same at h in cc)
  | inr other ↦ (other, lacks-NoByte d s (rw other at h))
]

all_lack : ℕ → List Bytes → Bool
unfolding lacks
all_lack d [] = true
all_lack d (line ∷ lines) = if lacks d line then all_lack d lines else false

all_lack-NoByte : (d : ℕ) (lines : List Bytes) → all_lack d lines ≡ true → All (NoByte d) lines
unfolding all_lack
all_lack-NoByte d [] h = tt
all_lack-NoByte d (line ∷ lines) h = elim (Bool-cases (lacks d line)) [
  | inl fine ↦ (lacks-NoByte d line fine, all_lack-NoByte d lines (rw fine at h))
  | inr found ↦ absurd (let e : false ≡ true = rw found at h in cc)
]

abbrev user_id : Bytes
user_id = codes "uid:u::::1395975462::AB97::Jo <jo@example.com>:"

abbrev first_key : Key
first_key = record {
  primary = record {
    details = codes "u:4096:1:E1D0";
    fingerprint = codes "7A399B2D";
    others = user_id ∷ [];
  };
  subkeys =
      record { details = codes "u:4096:1:0F37"; fingerprint = codes "61489532"; others = [] } ∷ [];
}

abbrev second_key : Key
second_key = record {
  primary = record { details = []; fingerprint = codes "B06D0390"; others = [] };
  subkeys = [];
}

abbrev keyring : List Key
keyring = first_key ∷ (second_key ∷ [])

user_id-IsOther : IsOther user_id
user_id-IsOther = record { not_pub = refl; not_sub = refl; not_fpr = refl }

primary-IsPrinted : IsPrinted first_key.primary
unfolding lacks
primary-IsPrinted = record {
  no_colon = lacks-NoByte b':' (codes "7A399B2D") refl;
  others = (user_id-IsOther, tt);
}

fingerprints-keyring_example :
    (public_fingerprints
        (lines_of (unlines (keyring_lines (codes "pub:") (codes "sub:") keyring)))
        false
        []
      ≡ ok (primary_fingerprints keyring))
    × (secret_fingerprints
          (lines_of (unlines (keyring_lines (codes "sec:") (codes "ssb:") keyring)))
          []
        ≡ ok (all_fingerprints keyring))
unfolding lacks all_lack
fingerprints-keyring_example =
    fingerprints-keyring keyring
      (
        (
          primary-IsPrinted,
          (record { no_colon = lacks-NoByte b':' (codes "61489532") refl; others = tt }, tt),
        ),
        ((record { no_colon = lacks-NoByte b':' (codes "B06D0390") refl; others = tt }, tt), tt),
      )
      (all_lack-NoByte 10 (keyring_lines (codes "pub:") (codes "sub:") keyring) refl)
      (all_lack-NoByte 10 (keyring_lines (codes "sec:") (codes "ssb:") keyring) refl)
