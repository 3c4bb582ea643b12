-- ===== src/Gpg/Columns.antt =====
-- gpg.cpp, `gpg_nth_column`: the columns of a line of gpg.
use git_crypt.Base.{
  ℕ, zero, suc, ◌≡◌, refl, ap, ◌∙◌, inl, inr, true, false, List, [], ◌∷◌, Bytes, codes, ◌==◌,
  if◌then◌else◌, Bool-cases,
}
use git_crypt.Base.Results.{gpg_error, Result, ok, err}
use git_crypt.Base.Results.{◌>>=◌}
use git_crypt.Gpg.{gpg_nth_column}
use git_crypt.Base.Streams.{first_char}

-- The fields of a line between its ':'.
pub fields : Bytes → List Bytes
unfolding first_char
fields [] = [] ∷ []
fields (c ∷ s) = let rest = fields s in if c == b':' then [] ∷ rest else first_char c rest

pub nth : List Bytes → ℕ → Result Bytes
nth [] n = err (gpg_error (codes "Malformed output from gpg"))
nth (s ∷ ss) zero = ok s
nth (s ∷ ss) (suc n) = nth ss n

fields-cons : (s : Bytes) → (f : Bytes) × (fs : List Bytes) × (fields s ≡ f ∷ fs)
unfolding fields first_char
fields-cons [] = ([], [], refl)
fields-cons (c ∷ s) =
    let (f, fs, e) = fields-cons s in
    elim (Bool-cases (c == b':')) [
      | inl colon ↦ ([], fields s, rw colon refl)
      | inr other ↦ (c ∷ f, fs, rw (other, e) refl)
    ]

ok_cons :
    (c : ℕ) {a b : Bytes}
    → ◌≡◌ {A = Result Bytes} (ok a) (ok b)
    → ◌≡◌ {A = Result Bytes} (ok (c ∷ a)) (ok (c ∷ b))
ok_cons c e = ap (λ r. r >>= λ x. ok (c ∷ x)) e

at_colon :
    (c : ℕ) (s : Bytes)
    → (c == b':') ≡ true
    → ((col : ℕ) → gpg_nth_column s col ≡ nth (fields s) col)
    → (col : ℕ) → gpg_nth_column (c ∷ s) col ≡ nth (fields (c ∷ s)) col
unfolding gpg_nth_column fields nth
at_colon c s colon ih zero = rw colon refl
at_colon c s colon ih (suc col) = rw colon (ih col)

past_char :
    (c : ℕ) (s f : Bytes) (fs : List Bytes)
    → (c == b':') ≡ false
    → fields s ≡ f ∷ fs
    → ((col : ℕ) → gpg_nth_column s col ≡ nth (fields s) col)
    → (col : ℕ) → gpg_nth_column (c ∷ s) col ≡ nth (fields (c ∷ s)) col
unfolding gpg_nth_column fields nth first_char
past_char c s f fs other e ih zero =
    let h : gpg_nth_column s zero ≡ ok f = ih zero ∙ rw e refl in rw (other, e) (ok_cons c h)
past_char c s f fs other e ih (suc col) = rw (other, e) (ih (suc col) ∙ rw e refl)

-- `gpg_nth_column` gives the field of that number, counted from 0, of the line split at every
-- ':', and throws the error of malformed output where the line has too few fields.
pub gpg_nth_column_lem : (line : Bytes) (col : ℕ) → gpg_nth_column line col ≡ nth (fields line) col
unfolding gpg_nth_column fields nth first_char
gpg_nth_column_lem [] zero = refl
gpg_nth_column_lem [] (suc col) = refl
gpg_nth_column_lem (c ∷ s) col = elim (Bool-cases (c == b':')) [
  | inl colon ↦ at_colon c s colon (gpg_nth_column_lem s) col
  | inr other ↦
      let (f, fs, e) = fields-cons s in past_char c s f fs other e (gpg_nth_column_lem s) col
]
