-- ===== src/KeyFile/Names.antt =====
-- Which key names are accepted.
use git_crypt.Base.{
  ℕ, ◌+◌, ◌≤◌, ◌≡◌, refl, ◌≢◌, ◌⊎◌, ◌↔◌, false, not, ◌&&◌, [], ◌∷◌, Bytes, codes, All, length,
  equal, equal_iff, ◌==◌, arith, Bool-cases, inl, inr,
}
use git_crypt.KeyFile.{isalnum, validate_chars, validate_key_name, valid, key_name_max_len}

-- A-Z, a-z, 0-9, '-' and '_'.
abbrev pub IsNameChar : ℕ → Type 0
IsNameChar c =
    ((b'A' ≤ c) × (c ≤ b'Z'))
    ⊎ ((b'a' ≤ c) × (c ≤ b'z'))
    ⊎ ((b'0' ≤ c) × (c ≤ b'9'))
    ⊎ (c ≡ b'-')
    ⊎ (c ≡ b'_')

IsNameChar-test :
    (c : ℕ) → ((not (isalnum c) && not (c == b'-') && not (c == b'_')) ≡ false) ↔ IsNameChar c
unfolding isalnum
IsNameChar-test c = (λ h. ground arith, λ h. ground arith)

validate_chars→ :
    (s : Bytes) (len : ℕ)
    → len ≤ key_name_max_len
    → validate_chars s len ≡ valid
    → All IsNameChar s × (length s + len ≤ key_name_max_len)
unfolding validate_chars
validate_chars→ [] len h e = (tt, omega arith)
validate_chars→ (c ∷ s) len h e =
    elim (Bool-cases (not (isalnum c) && not (c == b'-') && not (c == b'_'))) [
      | inl bad ↦ cc (rw bad at e)
      | inr good ↦
          let rest = rw good at e in
          let (a, l) = validate_chars→ s (len + 1) (ground arith) (ground arith) in
          (((IsNameChar-test c).0 good, a), omega arith)
    ]

→validate_chars :
    (s : Bytes) (len : ℕ)
    → All IsNameChar s
    → length s + len ≤ key_name_max_len
    → validate_chars s len ≡ valid
unfolding validate_chars
→validate_chars [] len a h = refl
→validate_chars (c ∷ s) len (hc, a) h =
    rw ((IsNameChar-test c).1 hc) (ground (arith, →validate_chars s (len + 1) a (omega arith)))

-- A key name is accepted exactly if it is not empty, is not `default`, has at most 128
-- characters, and each of them is a letter, a digit, '-' or '_'.
pub validate_key_name_iff :
    (name : Bytes)
    → (validate_key_name name ≡ valid) ↔ (
        (name ≢ [])
        × (name ≢ codes "default")
        × (length name ≤ key_name_max_len)
        × All IsNameChar name)
unfolding validate_key_name
validate_key_name_iff [] = (λ e. cc, λ h. absurd (h.0 refl))
validate_key_name_iff (c ∷ s) = elim (Bool-cases (equal (c ∷ s) (codes "default"))) [
  | inl same ↦ rw same (λ e. cc, λ h. absurd (h.1 ((equal_iff _ _).0 same)))
  | inr other ↦ rw other (
    λ e.
        let (a, l) = validate_chars→ (c ∷ s) 0 (omega arith) e in
        (λ p. cc, λ p. cc (other, (equal_iff (c ∷ s) (codes "default")).1 p), omega arith, a),
    λ h. →validate_chars (c ∷ s) 0 h.3 (omega arith),
  )
]
