-- ===== src/Coprocess/Descriptors.antt =====
-- The descriptors that a coprocess opens in the parent are the ones that it holds, and it closes
-- each of them.
use git_crypt.Base.{
  ℕ, zero, suc, ◌+◌, ◌-◌, ◌≡◌, refl, ap, ◌∙◌, ◌⊎◌, inl, inr, Bytes, ◌==◌, if◌then◌else◌, Bool, true,
  false, Option, none, some, arith, codes,
}
use git_crypt.Base.Results.{Result, err}
use git_crypt.FileHandle.Output.{OutBuf}
use git_crypt.Coprocess.{
  Kernel, Coprocess, eintr, failed, restart, write_tries, write_stdin, read_tries, read_stdout,
  stdin_sink, close_some, delete_stream,
}
use git_crypt.Coprocess.Frame.{if-keeps, destroy-keeps}

abbrev pub bit : Bool → ℕ
bit true = 1
bit false = 0

-- 1 for the descriptor that is held.
abbrev pub held : Option ℕ → ℕ → ℕ
held none fd = 0
held (some x) fd = if fd == x then 1 else 0

-- How the calls change which descriptors are open: `pipe` gives two that are different and were
-- not open, `close` shuts the one that it is given, and the others open and close none.
pub record Table (K : Kernel) : Type 0 where
  pub is_open : K.State → ℕ → Bool
  pub pipe_opens :
      (h h1 : K.State) (reader writer : ℕ)
      → K.pipe h ≡ (inr (reader, writer), h1)
      → (fd : ℕ)
      → bit (is_open h1 fd) ≡ bit (is_open h fd) + held (some reader) fd + held (some writer) fd
  pub pipe_fails :
      (h h1 : K.State) (errno : ℕ)
      → K.pipe h ≡ (inl errno, h1)
      → (fd : ℕ) → is_open h1 fd ≡ is_open h fd
  pub closes :
      (x : ℕ) (h : K.State) (fd : ℕ)
      → bit (is_open (K.close x h) fd) ≡ bit (is_open h fd) - held (some x) fd
  pub write_keeps :
      (w : Option ℕ) (s : Bytes) (h : K.State) (fd : ℕ)
      → is_open (K.write w s h).1 fd ≡ is_open h fd
  pub read_keeps :
      (r : Option ℕ) (n : ℕ) (h : K.State) (fd : ℕ) → is_open (K.read r n h).1 fd ≡ is_open h fd
  pub fork_keeps : (h : K.State) (fd : ℕ) → is_open (K.fork h).1 fd ≡ is_open h fd
  pub waitpid_keeps :
      (p : Option ℕ) (h : K.State) (fd : ℕ) → is_open (K.waitpid p h).1 fd ≡ is_open h fd

-- The descriptors of a coprocess.
abbrev pub held_by : Coprocess → ℕ → ℕ
held_by c fd =
    held c.stdin_pipe_reader fd
    + held c.stdin_pipe_writer fd
    + held c.stdout_pipe_reader fd
    + held c.stdout_pipe_writer fd

-- Without a stream no descriptor of its pipe is held.
abbrev pub Idle : {A : Type 0} → Option A → Option ℕ → Option ℕ → Type 0
Idle (some b) reader writer = Unit {0}
Idle none reader writer = (reader ≡ none) × (writer ≡ none)

pub Idle-held :
    {A : Type 0} (o : Option A) (reader writer : Option ℕ)
    → Idle o reader writer
    → o ≡ none
    → (fd : ℕ) → (held reader fd ≡ 0) × (held writer fd ≡ 0)
Idle-held none reader writer (r, w) e fd =
    (ap (λ (x : Option ℕ). held x fd) r, ap (λ (x : Option ℕ). held x fd) w)
Idle-held (some b) reader writer i e fd = cc

-- One of the two is closed.
pub Idle-left :
    {A : Type 0} (o : Option A) (reader writer : Option ℕ)
    → Idle o reader writer
    → Idle o none writer
Idle-left none reader writer i = (refl, i.1)
Idle-left (some b) reader writer i = tt

pub Idle-right :
    {A : Type 0} (o : Option A) (reader writer : Option ℕ)
    → Idle o reader writer
    → Idle o reader none
Idle-right none reader writer i = (i.0, refl)
Idle-right (some b) reader writer i = tt

module _ (K : Kernel) (T : Table K) (tries : ℕ) where
  -- The open descriptors are so many, one or none of each.
  abbrev pub Opens : (ℕ → ℕ) → K.State → Type 0
  Opens n h = (fd : ℕ) → bit (T.is_open h fd) ≡ n fd

  pub Opens-same :
      (n : ℕ → ℕ) (h h1 : K.State)
      → ((fd : ℕ) → T.is_open h1 fd ≡ T.is_open h fd)
      → Opens n h
      → Opens n h1
  Opens-same n h h1 same o fd = ap bit (same fd) ∙ o fd

  pub restart-keeps :
      {A : Type 0} (n : ℕ → ℕ) (action : Bytes) (r : (ℕ ⊎ A) × K.State)
      (again : K.State → Result A × K.State)
      → Opens n r.1
      → ((h : K.State) → Opens n h → Opens n (again h).1)
      → Opens n (restart K tries action r again).1
  restart-keeps {A} n action (inr a, h) again o f = o
  restart-keeps {A} n action (inl errno, h) again o f =
      if-keeps (λ (r : Result A × K.State). Opens n r.1) (errno == eintr) (again h)
        (err (failed action errno), h) (f h o) o

  pub write_tries-keeps :
      (n : ℕ → ℕ) (k : ℕ) (w : Option ℕ) (s : Bytes) (h : K.State)
      → Opens n h
      → Opens n (write_tries K tries k w s h).1
  unfolding write_tries
  write_tries-keeps n zero w s h o = o
  write_tries-keeps n (suc k) w s h o =
      restart-keeps n (codes "write") (K.write w s h) (write_tries K tries k w s)
        (Opens-same n h (K.write w s h).1 (T.write_keeps w s h) o)
        (λ h1 o1. write_tries-keeps n k w s h1 o1)

  pub write_stdin-keeps :
      (n : ℕ → ℕ) (w : Option ℕ) (s : Bytes) (h : K.State)
      → Opens n h
      → Opens n (write_stdin K tries w s h).1
  unfolding write_stdin
  write_stdin-keeps n w s h o = write_tries-keeps n tries w s h o

  pub read_tries-keeps :
      (n : ℕ → ℕ) (k : ℕ) (r : Option ℕ) (m : ℕ) (h : K.State)
      → Opens n h
      → Opens n (read_tries K tries k r m h).1
  unfolding read_tries
  read_tries-keeps n zero r m h o = o
  read_tries-keeps n (suc k) r m h o =
      restart-keeps n (codes "read") (K.read r m h) (read_tries K tries k r m)
        (Opens-same n h (K.read r m h).1 (T.read_keeps r m h) o)
        (λ h1 o1. read_tries-keeps n k r m h1 o1)

  pub read_stdout-keeps :
      (n : ℕ → ℕ) (r : Option ℕ) (m : ℕ) (h : K.State)
      → Opens n h
      → Opens n (read_stdout K tries r m h).1
  unfolding read_stdout
  read_stdout-keeps n r m h o = read_tries-keeps n tries r m h o

  pub Opens-eq : (n m : ℕ → ℕ) (h : K.State) → ((fd : ℕ) → n fd ≡ m fd) → Opens n h → Opens m h
  Opens-eq n m h e o fd = o fd ∙ e fd

  pub close_some-Opens :
      (n : ℕ → ℕ) (x : Option ℕ) (h : K.State)
      → Opens (λ fd. n fd + held x fd) h
      → Opens n (close_some K tries x h)
  close_some-Opens n none h o fd = omega (arith, o fd)
  close_some-Opens n (some x) h o fd = omega (arith, o fd, T.closes x h fd)

  pub delete_stream-Opens :
      (n : ℕ → ℕ) (w : Option ℕ) (b : Option OutBuf) (h : K.State)
      → Opens n h
      → Opens n (delete_stream K tries w b h)
  delete_stream-Opens n w none h o = o
  delete_stream-Opens n w (some b) h o =
      destroy-keeps (stdin_sink K tries w) (Opens n) (λ p h1 o1. write_stdin-keeps n w p h1 o1) b h
        o
