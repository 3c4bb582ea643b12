-- ===== src/Smudge/Plain.antt =====
-- commands.cpp, `smudge` and `diff`: files that are not encrypted.
use git_crypt.Base.{
  ◌≡◌, refl, sym, ap, true, [], ◌∷◌, codes, length, take, drop, length-drop, arith, equal_iff, ◌∙◌,
  inl, inr, false, some, ◌++◌, append_assoc, Bytes, Bool-cases, take-append-drop,
}
use git_crypt.Base.Results.{ok}
use git_crypt.Host.{Host}
use git_crypt.Exec.{World}
use git_crypt.KeyFile.{KeyFile}
use git_crypt.Git.Attributes.{encrypted_magic}
use git_crypt.Plumbing.{header_len}
use git_crypt.Smudge.{has_header, smudge_with, diff_with}

-- What `clean` writes begins so: the magic, and a nonce of 12 bytes.
abbrev pub IsEncrypted : Bytes → Type 0
IsEncrypted s =
    (nonce : Bytes) × (rest : Bytes) × (length nonce ≡ 12)
    × (s ≡ (0 ∷ (codes "GITCRYPT" ++ (0 ∷ []))) ++ (nonce ++ rest))

module _ ⦃H : Host⦄ where
  -- The test finds no header where there is none.
  has_header-IsEncrypted : (s : Bytes) → has_header s ≡ true → IsEncrypted s
  unfolding has_header
  has_header-IsEncrypted s h =
      let start = take header_len s in
      let size : length start ≡ header_len = ground arith in
      let magic : take 10 start ≡ encrypted_magic =
        (equal_iff (take 10 start) encrypted_magic).0 (ground arith) in
      (
        drop 10 start,
        drop header_len s,
        omega (arith, length-drop 10 start, size),
        let second : take 10 start ++ drop 10 start ≡ start = take-append-drop 10 start in
            sym (take-append-drop header_len s)
            ∙ ap (λ (t : Bytes). t ++ drop header_len s)
                (sym second ∙ ap (λ (t : Bytes). t ++ drop 10 start) magic)
            ∙ append_assoc encrypted_magic (drop 10 start) (drop header_len s),
      )

  copies_without_header :
      (kf : KeyFile) (w : World)
      → has_header w.cin ≡ false
      → let (r, w') = smudge_with kf w in
        (r ≡ ok 0) × (w'.cout ≡ w.cout ++ w.cin) × (w'.host ≡ w.host)
  unfolding smudge_with
  copies_without_header kf w h =
      rw h (refl, append_assoc w.cout _ _ ∙ rw (take-append-drop header_len w.cin) refl, refl)

  -- Input that is not an encrypted file (the ten bytes that such a file begins with, a nonce of
  -- 12 bytes, and anything) is copied to the standard output unchanged, and `smudge` ends with
  -- status 0 and the system as it was.
  pub smudge_copies_plain :
      (kf : KeyFile) (w : World)
      → ¬ IsEncrypted w.cin
      → let (r, w') = smudge_with kf w in
        (r ≡ ok 0) × (w'.cout ≡ w.cout ++ w.cin) × (w'.host ≡ w.host)
  smudge_copies_plain kf w plain = elim (Bool-cases (has_header w.cin)) [
    | inl there ↦ absurd (plain (has_header-IsEncrypted w.cin there))
    | inr not_there ↦ copies_without_header kf w not_there
  ]

  -- On a file that holds the bytes of the standard input, `diff` ends and writes as `smudge`
  -- does, encrypted or not.
  pub diff-smudge :
      (kf : KeyFile) (filename : Bytes) (w : World)
      → H.open_input filename w.host ≡ some w.cin
      → let (r, w') = diff_with kf filename w in
        let (r2, w2) = smudge_with kf w in (r ≡ r2) × (w'.cout ≡ w2.cout)
  unfolding smudge_with diff_with
  diff-smudge kf filename w h = elim (Bool-cases (has_header w.cin)) [
    | inl there ↦ rw (h, there) (refl, refl)
    | inr not_there ↦ rw (h, not_there) (refl, refl)
  ]
