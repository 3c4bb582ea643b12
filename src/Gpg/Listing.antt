-- ===== src/Gpg/Listing.antt =====
-- gpg.cpp: what the program takes from a listing of keys that gpg printed.
use git_crypt.Base.{
  ℕ, ◌≡◌, refl, sym, ap, ◌∙◌, Bool, true, false, List, [], ◌∷◌, ◌++◌, append_assoc, append-nil,
  Bytes, codes, All, map, ◌==◌,
}
use git_crypt.Base.Results.{Result, ok, ◌>>=◌}
use git_crypt.Base.Words.{get_line-append}
use git_crypt.Base.Streams.{lines_of, first_char}
use git_crypt.Gpg.{gpg_nth_column, has_tag, public_fingerprints, secret_fingerprints}

abbrev pub NoByte : ℕ → Bytes → Type 0
NoByte d s = All (λ c. (c == d) ≡ false) s

-- The bytes of lines that each end with a newline.
abbrev pub unlines : List Bytes → Bytes
unlines [] = []
unlines (line ∷ lines) = line ++ (10 ∷ unlines lines)

-- What a line has after its tag, a fingerprint, and the lines that come before the next key.
pub record Subkey : Type 0 where
  pub details : Bytes
  pub fingerprint : Bytes
  pub others : List Bytes

-- A primary key, and the keys that belong to it.
pub record Key : Type 0 where
  pub primary : Subkey
  pub subkeys : List Subkey

-- "fpr:::::::::7A399B2DB06D039020CD1CE1D0F3702D61489532:"
abbrev pub fingerprint_line : Bytes → Bytes
fingerprint_line fingerprint = codes "fpr:::::::::" ++ (fingerprint ++ codes ":")

-- The lines of a key under such a tag.
abbrev pub subkey_lines : Bytes → Subkey → List Bytes
subkey_lines tag k = (tag ++ k.details) ∷ (fingerprint_line k.fingerprint ∷ k.others)

-- The lines of these keys, and what follows them.
abbrev pub subkeys_lines : Bytes → List Subkey → List Bytes → List Bytes
subkeys_lines tag [] rest = rest
subkeys_lines tag (k ∷ ks) rest = subkey_lines tag k ++ subkeys_lines tag ks rest

-- The listing of a key ring, with the tags of its primary keys and of its subkeys.
abbrev pub keyring_lines : Bytes → Bytes → List Key → List Bytes
keyring_lines tag sub_tag [] = []
keyring_lines tag sub_tag (k ∷ ks) =
    subkey_lines tag k.primary ++ subkeys_lines sub_tag k.subkeys (keyring_lines tag sub_tag ks)

-- The other lines of a listing are about user IDs, grips and so on.
pub record IsOther (line : Bytes) : Type 0 where
  pub not_pub : has_tag line (codes "pub:") ≡ false
  pub not_sub : has_tag line (codes "sub:") ≡ false
  pub not_fpr : has_tag line (codes "fpr:") ≡ false

pub record IsPrinted (k : Subkey) : Type 0 where
  pub no_colon : NoByte b':' k.fingerprint
  pub others : All IsOther k.others

abbrev pub primary_fingerprints : List Key → List Bytes
primary_fingerprints keys = map (λ (k : Key). k.primary.fingerprint) keys

abbrev pub subkey_fingerprints : List Subkey → List Bytes
subkey_fingerprints ks = map (λ (k : Subkey). k.fingerprint) ks

abbrev pub all_fingerprints : List Key → List Bytes
all_fingerprints [] = []
all_fingerprints (k ∷ ks) =
    k.primary.fingerprint ∷ (subkey_fingerprints k.subkeys ++ all_fingerprints ks)

abbrev pub IsPrintedKey : Key → Type 0
IsPrintedKey k = IsPrinted k.primary × All IsPrinted k.subkeys

lines_of-cons :
    (line : Bytes) (s : Bytes) → NoByte 10 line → lines_of (line ++ (10 ∷ s)) ≡ line ∷ lines_of s
unfolding lines_of first_char
lines_of-cons [] s h = refl
lines_of-cons (c ∷ line) s (p, h) = rw (p, lines_of-cons line s h) refl

pub lines_of-unlines :
    (lines : List Bytes) → All (NoByte 10) lines → lines_of (unlines lines) ≡ lines
lines_of-unlines [] h = unfold lines_of in refl
lines_of-unlines (line ∷ lines) (p, h) =
    lines_of-cons line (unlines lines) p ∙ ap (◌∷◌ line) (lines_of-unlines lines h)

gpg_nth_column-fingerprint :
    (s : Bytes) → NoByte b':' s → gpg_nth_column (fingerprint_line s) 9 ≡ ok s
unfolding gpg_nth_column
gpg_nth_column-fingerprint s h = rw (get_line-append b':' s [] h) refl

-- The other lines are passed over.
public_fingerprints-others :
    (lines rest : List Bytes) (is_pubkey : Bool) (found : List Bytes)
    → All IsOther lines
    → public_fingerprints (lines ++ rest) is_pubkey found ≡ public_fingerprints rest is_pubkey found
unfolding public_fingerprints
public_fingerprints-others [] rest p found h = refl
public_fingerprints-others (line ∷ lines) rest true found (o, h) =
    rw (o.not_pub, o.not_sub, o.not_fpr) (public_fingerprints-others lines rest true found h)
public_fingerprints-others (line ∷ lines) rest false found (o, h) =
    rw (o.not_pub, o.not_sub) (public_fingerprints-others lines rest false found h)

-- So are the subkeys, with their fingerprints.
public_fingerprints-subkeys :
    (ks : List Subkey) (rest : List Bytes) (is_pubkey : Bool) (found : List Bytes)
    (r : Result (List Bytes))
    → All IsPrinted ks
    → ((p : Bool) → public_fingerprints rest p found ≡ r)
    → public_fingerprints (subkeys_lines (codes "sub:") ks rest) is_pubkey found ≡ r
unfolding public_fingerprints
public_fingerprints-subkeys [] rest p found r h e = e p
public_fingerprints-subkeys (k ∷ ks) rest p found r (printed, h) e =
    public_fingerprints-others k.others (subkeys_lines (codes "sub:") ks rest) false found
      printed.others
    ∙ public_fingerprints-subkeys ks rest false found r h e

public_fingerprints-keyring :
    (keys : List Key) (is_pubkey : Bool) (found : List Bytes)
    → All IsPrintedKey keys
    → public_fingerprints (keyring_lines (codes "pub:") (codes "sub:") keys) is_pubkey found
      ≡ ok (found ++ primary_fingerprints keys)
unfolding public_fingerprints
public_fingerprints-keyring [] p found h = ap ok (sym (append-nil found))
public_fingerprints-keyring (k ∷ keys) p found ((printed, subs), h) =
    let f = k.primary.fingerprint in
    let rest = keyring_lines (codes "pub:") (codes "sub:") keys in
    ap
      (λ r. r >>= λ column.
        public_fingerprints (k.primary.others ++ subkeys_lines (codes "sub:") k.subkeys rest) true
          (found ++ (column ∷ [])))
      (gpg_nth_column-fingerprint f printed.no_colon)
    ∙ public_fingerprints-others k.primary.others (subkeys_lines (codes "sub:") k.subkeys rest) true
        (found ++ (f ∷ [])) printed.others
    ∙ public_fingerprints-subkeys k.subkeys rest true (found ++ (f ∷ [])) _ subs
        (λ q. public_fingerprints-keyring keys q (found ++ (f ∷ [])) h)
    ∙ ap ok (append_assoc found (f ∷ []) (primary_fingerprints keys))

secret_fingerprints-others :
    (lines rest : List Bytes) (found : List Bytes)
    → All IsOther lines
    → secret_fingerprints (lines ++ rest) found ≡ secret_fingerprints rest found
unfolding secret_fingerprints
secret_fingerprints-others [] rest found h = refl
secret_fingerprints-others (line ∷ lines) rest found (o, h) =
    rw o.not_fpr (secret_fingerprints-others lines rest found h)

-- A key of a listing of secret keys, under a tag that is not that of a fingerprint.
secret_fingerprints-subkey :
    (tag : Bytes) (k : Subkey) (rest found : List Bytes)
    → has_tag (tag ++ k.details) (codes "fpr:") ≡ false
    → IsPrinted k
    → secret_fingerprints (subkey_lines tag k ++ rest) found
      ≡ secret_fingerprints rest (found ++ (k.fingerprint ∷ []))
unfolding secret_fingerprints
secret_fingerprints-subkey tag k rest found e printed = rw e (
    ap (λ r. r >>= λ column. secret_fingerprints (k.others ++ rest) (found ++ (column ∷ [])))
      (gpg_nth_column-fingerprint k.fingerprint printed.no_colon)
    ∙ secret_fingerprints-others k.others rest (found ++ (k.fingerprint ∷ [])) printed.others)

secret_fingerprints-subkeys :
    (ks : List Subkey) (rest found : List Bytes)
    → All IsPrinted ks
    → secret_fingerprints (subkeys_lines (codes "ssb:") ks rest) found
      ≡ secret_fingerprints rest (found ++ subkey_fingerprints ks)
secret_fingerprints-subkeys [] rest found h = ap (secret_fingerprints rest) (sym (append-nil found))
secret_fingerprints-subkeys (k ∷ ks) rest found (printed, h) =
    secret_fingerprints-subkey (codes "ssb:") k (subkeys_lines (codes "ssb:") ks rest) found refl
      printed
    ∙ secret_fingerprints-subkeys ks rest (found ++ (k.fingerprint ∷ [])) h
    ∙ ap (secret_fingerprints rest)
        (append_assoc found (k.fingerprint ∷ []) (subkey_fingerprints ks))

secret_fingerprints-keyring :
    (keys : List Key) (found : List Bytes)
    → All IsPrintedKey keys
    → secret_fingerprints (keyring_lines (codes "sec:") (codes "ssb:") keys) found
      ≡ ok (found ++ all_fingerprints keys)
secret_fingerprints-keyring [] found h =
    unfold secret_fingerprints in ap ok (sym (append-nil found))
secret_fingerprints-keyring (k ∷ keys) found ((printed, subs), h) =
    let f = k.primary.fingerprint in
    let fs = subkey_fingerprints k.subkeys in
    let rest = keyring_lines (codes "sec:") (codes "ssb:") keys in
    secret_fingerprints-subkey (codes "sec:") k.primary
      (subkeys_lines (codes "ssb:") k.subkeys rest) found refl printed
    ∙ secret_fingerprints-subkeys k.subkeys rest (found ++ (f ∷ [])) subs
    ∙ secret_fingerprints-keyring keys ((found ++ (f ∷ [])) ++ fs) h
    ∙ ap ok (
        append_assoc (found ++ (f ∷ [])) fs (all_fingerprints keys)
        ∙ append_assoc found (f ∷ []) (fs ++ all_fingerprints keys))

-- From the listing that gpg prints of any keys and their subkeys, the program takes the
-- fingerprints of the primary keys, in their order and none of a subkey, for the public keys, and
-- every fingerprint for the secret keys; a fingerprint holds no ':', no line holds a newline, and
-- the lines between (of user IDs and the like) have none of the tags pub, sub and fpr.
pub fingerprints-keyring :
    (keys : List Key)
    → All IsPrintedKey keys
    → All (NoByte 10) (keyring_lines (codes "pub:") (codes "sub:") keys)
    → All (NoByte 10) (keyring_lines (codes "sec:") (codes "ssb:") keys)
    → (public_fingerprints
          (lines_of (unlines (keyring_lines (codes "pub:") (codes "sub:") keys)))
          false
          []
        ≡ ok (primary_fingerprints keys))
      × (secret_fingerprints
            (lines_of (unlines (keyring_lines (codes "sec:") (codes "ssb:") keys)))
            []
          ≡ ok (all_fingerprints keys))
fingerprints-keyring keys printed public secret =
    let lines = keyring_lines (codes "pub:") (codes "sub:") keys in
    let secret_lines = keyring_lines (codes "sec:") (codes "ssb:") keys in
    (
      rw (lines_of-unlines lines public) (public_fingerprints-keyring keys false [] printed),
      rw (lines_of-unlines secret_lines secret) (secret_fingerprints-keyring keys [] printed),
    )
