-- ===== src/Windows/Crypto/Calls.antt =====
-- win-build/crypto-win32.cpp: what a sequence of checked calls comes to.
use git_crypt.Base.{ℕ, ◌≡◌, inl, inr, true, Bytes, ◌==◌, Bool-cases}
use git_crypt.Base.Results.{Result, ok, err, stuck}
use git_crypt.Windows.Crypto.{Cng, Run, ◌>>=◌, nt_success, check_nt, call, resize, go_on}

module _ ⦃C : Cng⦄ where
  -- The run returned, with such a value in such a state.
  abbrev pub Returns : {A : Type 0} → (A → C.State → Type 0) → Result A × C.State → Type 0
  Returns P (ok a, h) = P a h
  Returns P (err e, h) = ⊥
  Returns P (stuck, h) = ⊥

  -- The call gave a status of success, and such a value in such a state.
  pub record Succeeds {A : Type 0} (P : A → C.State → Type 0) (r : (ℕ × A) × C.State) : Type 0 where
    pub success : nt_success r.0.0 ≡ true
    pub gives : P r.0.1 r.1

  pub call-Returns :
      {A : Type 0} (P Q : A → C.State → Type 0) (f : C.State → (ℕ × A) × C.State) (place : Bytes)
      (h : C.State)
      → Succeeds P (f h)
      → ((a : A) (h1 : C.State) → P a h1 → Q a h1)
      → Returns Q (call f place h)
  unfolding call check_nt
  call-Returns P Q f place h s weaken = rw s.success (weaken (f h).0.1 (f h).1 s.gives)

  go_on-Returns :
      {A B : Type 0} (P : A → C.State → Type 0) (Q : B → C.State → Type 0) (r : Result A)
      (f : A → Run B) (h : C.State)
      → Returns P (r, h)
      → ((a : A) → P a h → Returns Q (f a h))
      → Returns Q (go_on r f h)
  go_on-Returns P Q (ok a) f h p next = next a p
  go_on-Returns P Q (err x) f h p next = absurd p
  go_on-Returns P Q stuck f h p next = absurd p

  pub bind-Returns :
      {A B : Type 0} (P : A → C.State → Type 0) (Q : B → C.State → Type 0) (m : Run A)
      (f : A → Run B) (h : C.State)
      → Returns P (m h)
      → ((a : A) (h1 : C.State) → P a h1 → Returns Q (f a h1))
      → Returns Q ((m >>= f) h)
  bind-Returns P Q m f h p next = go_on-Returns P Q (m h).0 f (m h).1 p (λ a. next a (m h).1)

  -- A call that succeeds, and what comes after it.
  pub call_then :
      {A B : Type 0} (P : A → C.State → Type 0) (Q : B → C.State → Type 0)
      (f : C.State → (ℕ × A) × C.State) (place : Bytes) (next : A → Run B) (h : C.State)
      → Succeeds P (f h)
      → ((a : A) (h1 : C.State) → P a h1 → Returns Q (next a h1))
      → Returns Q ((call f place >>= next) h)
  call_then P Q f place next h s more =
      bind-Returns P Q (call f place) next h (call-Returns P P f place h s (λ a h1 p. p)) more

  -- What an allocation keeps holds after `resize`.
  pub resize_then :
      {B : Type 0} (P : C.State → Type 0) (Q : B → C.State → Type 0) (size : ℕ) (next : ℕ → Run B)
      (h : C.State)
      → ((h1 : C.State) → P h1 → P (C.allocate size h1).1)
      → P h
      → ((p : ℕ) (h1 : C.State) → P h1 → Returns Q (next p h1))
      → Returns Q ((resize size >>= next) h)
  unfolding resize
  resize_then P Q size next h keep p more = elim (Bool-cases (size == 0)) [
    | inl none_needed ↦ rw none_needed (more 0 h p)
    | inr some_needed ↦ rw some_needed (more (C.allocate size h).0 (C.allocate size h).1 (keep h p))
  ]
