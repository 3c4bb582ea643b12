-- ===== src/Windows/Arrival.antt =====
-- coprocess-win32.cpp, `read_stdout`: what the child writes is read in its order, and a write of
-- nothing is not taken for its end.
use mathlib.Core.Path.{subst}
use git_crypt.Base.{
  All, ◌-◌, ◌%◌, ◌^◌, ℕ, zero, suc, ◌+◌, ◌≤◌, ◌<◌, ◌≡◌, refl, sym, ◌∙◌, ◌⊎◌, inl, inr, List, [],
  ◌∷◌, ◌++◌, Bytes, length, ◌==◌, Option, arith, ==_iff, Bool-cases, ap,
}
use git_crypt.Base.Results.{Result, ok, err, stuck}
use git_crypt.FileHandle.Output.{default_buffer_size}
use git_crypt.FileHandle.Input.{putback_size, in_buf, Get, get_all}
use git_crypt.FileHandle.Storage.{FeedUpTo}
use git_crypt.FileHandle.Arrival.{Agrees, stream_get_all, get_all-FeedUpTo, Within}
use git_crypt.Windows.Coprocess.{
  Kernel32, error_broken_pipe, read_round, read_tries, read_stdout, stdout_source,
}

-- A pipe from the child: ReadFile gives the next bytes, or none for a write of nothing, or fails
-- as a broken pipe once the child has closed it and all is read, where it is asked for a positive
-- DWORD of bytes. Fewer writes of nothing are in a row than it is tried.
pub record ChildPipe (K : Kernel32) (tries : ℕ) (fd : Option K.Handle) : Type 0 where
  pub unread : K.State → Bytes
  pub empty_writes : K.State → ℕ
  pub gives :
      (n c : ℕ) (s : Bytes) (h h1 : K.State)
      → suc n < 2 ^ 32
      → K.read_file fd (suc n) h ≡ (inr (c ∷ s), h1)
      → (length (c ∷ s) ≤ suc n) × (unread h ≡ (c ∷ s) ++ unread h1)
  pub gives_none :
      (n : ℕ) (h h1 : K.State)
      → suc n < 2 ^ 32
      → K.read_file fd (suc n) h ≡ (inr [], h1)
      → (unread h1 ≡ unread h) × (empty_writes h1 < empty_writes h)
  pub breaks :
      (n : ℕ) (h h1 : K.State)
      → suc n < 2 ^ 32
      → K.read_file fd (suc n) h ≡ (inl error_broken_pipe, h1)
      → (unread h ≡ []) × (unread h1 ≡ [])
  pub bounded : (h : K.State) → empty_writes h < tries

module _ (K : Kernel32) (tries : ℕ) (fd : Option K.Handle) (C : ChildPipe K tries fd) where
  -- What a read gave.
  abbrev Arrived : ℕ → Bytes → Result Bytes × K.State → Type 0
  Arrived n total (ok [], h1) = (total ≡ []) × (C.unread h1 ≡ [])
  Arrived n total (ok (c ∷ s), h1) = (length (c ∷ s) ≤ suc n) × (total ≡ (c ∷ s) ++ C.unread h1)
  Arrived n total (err e, h1) = Unit {0}
  Arrived n total (stuck, h1) = ⊥

  read_round-Arrived :
      (n : ℕ) (h : K.State) (r : (ℕ ⊎ Bytes) × K.State) (again : K.State → Result Bytes × K.State)
      → suc n < 2 ^ 32
      → K.read_file fd (suc n) h ≡ r
      → ((h1 : K.State) → C.empty_writes h1 < C.empty_writes h → Arrived n (C.unread h1) (again h1))
      → Arrived n (C.unread h) (read_round K r again)
  read_round-Arrived n h (inl code, h1) again small e f =
      elim (Bool-cases (code == error_broken_pipe)) [
        | inl broken ↦
            let at : K.read_file fd (suc n) h ≡ (inl error_broken_pipe, h1) =
              e ∙ ap (λ (k : ℕ). (inl k, h1)) ((==_iff code error_broken_pipe).0 broken) in
            rw broken (C.breaks n h h1 small at)
        | inr other ↦ rw other tt
      ]
  read_round-Arrived n h (inr [], h1) again small e f =
      let same = C.gives_none n h h1 small e in rw (← same.0) (f h1 same.1)
  read_round-Arrived n h (inr (c ∷ s), h1) again small e f = C.gives n c s h h1 small e

  read_tries-Arrived :
      (k n : ℕ) (h : K.State)
      → suc n < 2 ^ 32
      → C.empty_writes h < k
      → Arrived n (C.unread h) (read_tries K k fd (suc n) h)
  unfolding read_tries
  read_tries-Arrived zero n h small lt = absurd (omega arith)
  read_tries-Arrived (suc k) n h small lt =
      let whole : suc n % 2 ^ 32 ≡ suc n = omega arith in
      rw whole (
        read_round-Arrived n h (K.read_file fd (suc n) h) (read_tries K k fd (suc n)) small refl
          (λ h1 less. read_tries-Arrived k n h1 small (omega arith)))

  read_stdout-Arrived :
      (n : ℕ) (h : K.State)
      → suc n < 2 ^ 32
      → Arrived n (C.unread h) (read_stdout K tries fd (suc n) h)
  unfolding read_stdout
  read_stdout-Arrived n h small = read_tries-Arrived tries n h small (C.bounded h)

  Arrived-gives :
      (n : ℕ) (total s : Bytes) (h1 : K.State)
      → Arrived n total (ok s, h1)
      → (length s ≤ suc n) × (total ≡ s ++ C.unread h1)
  Arrived-gives n total [] h1 (a, b) = (omega arith, a ∙ sym b)
  Arrived-gives n total (c ∷ s) h1 a = a

  -- The largest DWORD.
  abbrev pub max_count : ℕ
  max_count = 2 ^ 32 - 1

  read_stdout-FeedUpTo : FeedUpTo (stdout_source K tries fd) max_count
  read_stdout-FeedUpTo = record {
    unread = C.unread;
    gives = λ n h h1 s le e.
        Arrived-gives n (C.unread h) s h1
          (subst (Arrived n (C.unread h)) e (read_stdout-Arrived n h (omega arith)));
    ends =
        λ n h h1 le e. (subst (Arrived n (C.unread h)) e (read_stdout-Arrived n h (omega arith))).0;
    returns =
        λ n h h1 le e. subst (Arrived n (C.unread h)) e (read_stdout-Arrived n h (omega arith));
  }

  -- On Windows, a client that reads the standard output of a coprocess, by calls that each ask
  -- for fewer than 2^32 bytes, gets what the child wrote in its order, and sees the end of it
  -- only where the child has closed the pipe: a write of nothing is read over. Fewer of those are
  -- in a row than reads are tried; a read may throw.
  pub get_all-ChildPipe :
      (gets : List Get) (buffer : Bytes) (h : K.State)
      → All (Within max_count) gets
      → length buffer ≡ putback_size + default_buffer_size
      → Agrees
          (stdout_source K tries fd)
          C.unread
          (stream_get_all gets (C.unread h))
          (get_all (stdout_source K tries fd) gets (in_buf buffer) h)
  unfolding read_stdout-FeedUpTo
  get_all-ChildPipe gets buffer h small e =
      get_all-FeedUpTo (stdout_source K tries fd) max_count read_stdout-FeedUpTo (omega arith) gets
        buffer h small e
