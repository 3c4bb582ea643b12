-- ===== src/Coprocess/Arrival.antt =====
-- coprocess-unix.cpp, `read_stdout`: what the child writes is read in its order, also where reads
-- are interrupted.
use mathlib.Core.Path.{subst}
use git_crypt.Base.{
  ℕ, zero, suc, ◌+◌, ◌≤◌, ◌<◌, ◌≡◌, refl, sym, ◌∙◌, ◌⊎◌, inl, inr, List, [], ◌∷◌, ◌++◌, Bytes,
  length, ◌==◌, Option, arith, ==_iff, Bool-cases, ap, codes,
}
use git_crypt.Base.Results.{Result, ok, err, stuck}
use git_crypt.FileHandle.Output.{default_buffer_size}
use git_crypt.FileHandle.Input.{putback_size, in_buf, Get, get_all}
use git_crypt.FileHandle.Storage.{Feed}
use git_crypt.FileHandle.Arrival.{Agrees, stream_get_all, get_all-in_buf}
use git_crypt.Coprocess.{Kernel, eintr, restart, read_tries, read_stdout, stdout_source}

-- A pipe from the child: `read` gives the next bytes, and none only at the end; where it is
-- interrupted it takes none. It is interrupted fewer times in a row than it is tried.
pub record ReadEnd (K : Kernel) (tries : ℕ) (fd : Option ℕ) : Type 0 where
  pub unread : K.State → Bytes
  pub interrupts : K.State → ℕ
  pub gives :
      (n : ℕ) (s : Bytes) (h h1 : K.State)
      → K.read fd (suc n) h ≡ (inr s, h1)
      → (length s ≤ suc n) × (unread h ≡ s ++ unread h1)
  pub ends : (n : ℕ) (h h1 : K.State) → K.read fd (suc n) h ≡ (inr [], h1) → unread h ≡ []
  pub interrupted :
      (n : ℕ) (h h1 : K.State)
      → K.read fd (suc n) h ≡ (inl eintr, h1)
      → (unread h1 ≡ unread h) × (interrupts h1 < interrupts h)
  pub bounded : (h : K.State) → interrupts h < tries

module _ (K : Kernel) (tries : ℕ) (fd : Option ℕ) (C : ReadEnd K tries fd) where
  -- What a read gave; nothing at the end only.
  abbrev Arrived : ℕ → Bytes → Result Bytes × K.State → Type 0
  Arrived n total (ok [], h1) = (total ≡ []) × (C.unread h1 ≡ [])
  Arrived n total (ok (c ∷ s), h1) = (length (c ∷ s) ≤ suc n) × (total ≡ (c ∷ s) ++ C.unread h1)
  Arrived n total (err e, h1) = Unit {0}
  Arrived n total (stuck, h1) = ⊥

  restart-Arrived :
      (n : ℕ) (h : K.State) (r : (ℕ ⊎ Bytes) × K.State) (again : K.State → Result Bytes × K.State)
      → K.read fd (suc n) h ≡ r
      → ((h1 : K.State) → C.interrupts h1 < C.interrupts h → Arrived n (C.unread h1) (again h1))
      → Arrived n (C.unread h) (restart K tries (codes "read") r again)
  restart-Arrived n h (inl errno, h1) again e f = elim (Bool-cases (errno == eintr)) [
    | inl stopped ↦
        let at : K.read fd (suc n) h ≡ (inl eintr, h1) =
          e ∙ ap (λ (k : ℕ). (inl k, h1)) ((==_iff errno eintr).0 stopped) in
        let same = C.interrupted n h h1 at in rw (stopped, ← same.0) (f h1 same.1)
    | inr other ↦ rw other tt
  ]
  restart-Arrived n h (inr [], h1) again e f =
      let end = C.ends n h h1 e in (end, sym (C.gives n [] h h1 e).1 ∙ end)
  restart-Arrived n h (inr (c ∷ s), h1) again e f = C.gives n (c ∷ s) h h1 e

  read_tries-Arrived :
      (k n : ℕ) (h : K.State)
      → C.interrupts h < k
      → Arrived n (C.unread h) (read_tries K tries k fd (suc n) h)
  unfolding read_tries
  read_tries-Arrived zero n h lt = absurd (omega arith)
  read_tries-Arrived (suc k) n h lt =
      restart-Arrived n h (K.read fd (suc n) h) (read_tries K tries k fd (suc n)) refl
        (λ h1 less. read_tries-Arrived k n h1 (omega arith))

  read_stdout-Arrived :
      (n : ℕ) (h : K.State) → Arrived n (C.unread h) (read_stdout K tries fd (suc n) h)
  unfolding read_stdout
  read_stdout-Arrived n h = read_tries-Arrived tries n h (C.bounded h)

  Arrived-gives :
      (n : ℕ) (total s : Bytes) (h1 : K.State)
      → Arrived n total (ok s, h1)
      → (length s ≤ suc n) × (total ≡ s ++ C.unread h1)
  Arrived-gives n total [] h1 (a, b) = (omega arith, a ∙ sym b)
  Arrived-gives n total (c ∷ s) h1 a = a

  pub read_stdout-Feed : Feed (stdout_source K tries fd)
  read_stdout-Feed = record {
    unread = C.unread;
    gives = λ n h h1 s e.
        Arrived-gives n (C.unread h) s h1
          (subst (Arrived n (C.unread h)) e (read_stdout-Arrived n h));
    ends = λ n h h1 e. (subst (Arrived n (C.unread h)) e (read_stdout-Arrived n h)).0;
    returns = λ n h h1 e. subst (Arrived n (C.unread h)) e (read_stdout-Arrived n h);
  }

  -- A client that reads gets what the child wrote in its order, unless a read throws.
  pub get_all-read_stdout :
      (gets : List Get) (buffer : Bytes) (h : K.State)
      → length buffer ≡ putback_size + default_buffer_size
      → Agrees
          (stdout_source K tries fd)
          C.unread
          (stream_get_all gets (C.unread h))
          (get_all (stdout_source K tries fd) gets (in_buf buffer) h)
  unfolding read_stdout-Feed
  get_all-read_stdout gets buffer h e =
      get_all-in_buf (stdout_source K tries fd) read_stdout-Feed gets buffer h e
