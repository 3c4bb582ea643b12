-- ===== src/Coprocess/Tidy.antt =====
-- A coprocess accounts for the descriptors that it opens, whatever is done with it.
use git_crypt.Base.{
  ℕ, ◌+◌, ◌≡◌, refl, ◌⊎◌, inl, inr, List, [], ◌∷◌, Bytes, Bool, Option, none, some, arith,
}
use git_crypt.Base.Results.{Result}
use git_crypt.FileHandle.Output.{OutBuf, Put}
use git_crypt.FileHandle.Input.{InBuf, Get}
use git_crypt.Coprocess.{
  Kernel, Coprocess, coprocess, stdin_sink, stdout_source, close_some, delete_stream, stdin_opened,
  stdin_pipe, close_stdin, stdout_opened, stdout_pipe, close_stdout, forked, spawn, waited, wait,
  stdin_pipe_of, stdout_pipe_of, destroy_coprocess,
}
use git_crypt.Coprocess.Streams.{
  Step, open_stdin, open_stdout, put, get, spawned, waited as wait_for, shut_stdin, shut_stdout,
  put_to, get_from, run_step, run_steps,
}
use git_crypt.Coprocess.Frame.{put_one-keeps, get_one-keeps}
use git_crypt.Coprocess.Descriptors.{
  bit, held, Table, held_by, Idle, Idle-held, Idle-left, Idle-right, Opens, Opens-same,
  write_stdin-keeps, read_stdout-keeps, close_some-Opens, delete_stream-Opens,
}

module _ (K : Kernel) (T : Table K) (tries : ℕ) (base : ℕ → Bool) where
  -- Open are the descriptors of the start and those that the coprocess holds, each of them once.
  pub record Tidy (c : Coprocess) (h : K.State) : Type 0 where
    pub accounted : Opens K T tries (λ fd. bit (base fd) + held_by c fd) h
    pub stdin_idle : Idle c.stdin_pipe_ostream c.stdin_pipe_reader c.stdin_pipe_writer
    pub stdout_idle : Idle c.stdout_pipe_istream c.stdout_pipe_reader c.stdout_pipe_writer

  abbrev TidyAfter : Result (Unit {0}) × Coprocess × K.State → Type 0
  TidyAfter r = Tidy r.1 r.2

  abbrev TidyBoth : Coprocess × K.State → Type 0
  TidyBoth r = Tidy r.0 r.1

  -- Nothing but the state of the system is changed.
  Tidy-same :
      (c : Coprocess) (h h1 : K.State)
      → ((fd : ℕ) → T.is_open h1 fd ≡ T.is_open h fd)
      → Tidy c h
      → Tidy c h1
  Tidy-same c h h1 same t = record {
    accounted = Opens-same K T tries (λ fd. bit (base fd) + held_by c fd) h h1 same t.accounted;
    stdin_idle = t.stdin_idle;
    stdout_idle = t.stdout_idle;
  }

  stdin_opened-Tidy :
      (c : Coprocess) (h : K.State) (r : (ℕ ⊎ (ℕ × ℕ)) × K.State)
      → Tidy c h
      → c.stdin_pipe_ostream ≡ none
      → K.pipe h ≡ r
      → TidyAfter (stdin_opened K tries c r)
  stdin_opened-Tidy c h (inl errno, h1) t e p = Tidy-same c h h1 (T.pipe_fails h h1 errno p) t
  stdin_opened-Tidy c h (inr (reader, writer), h1) t e p =
      let idle =
        Idle-held c.stdin_pipe_ostream c.stdin_pipe_reader c.stdin_pipe_writer t.stdin_idle e in
      record {
        accounted =
            λ fd. omega (arith, idle fd, t.accounted fd, T.pipe_opens h h1 reader writer p fd);
        stdin_idle = tt;
        stdout_idle = t.stdout_idle;
      }

  stdin_pipe-Tidy :
      (o : Option OutBuf) (c : Coprocess) (h : K.State)
      → c.stdin_pipe_ostream ≡ o
      → Tidy c h
      → TidyAfter (stdin_pipe_of K tries o c h)
  stdin_pipe-Tidy none c h e t = stdin_opened-Tidy c h (K.pipe h) t e refl
  stdin_pipe-Tidy (some b) c h e t = t

  stdout_opened-Tidy :
      (storage : Bytes) (c : Coprocess) (h : K.State) (r : (ℕ ⊎ (ℕ × ℕ)) × K.State)
      → Tidy c h
      → c.stdout_pipe_istream ≡ none
      → K.pipe h ≡ r
      → TidyAfter (stdout_opened K tries storage c r)
  stdout_opened-Tidy storage c h (inl errno, h1) t e p =
      Tidy-same c h h1 (T.pipe_fails h h1 errno p) t
  stdout_opened-Tidy storage c h (inr (reader, writer), h1) t e p =
      let idle =
        Idle-held c.stdout_pipe_istream c.stdout_pipe_reader c.stdout_pipe_writer t.stdout_idle e in
      record {
        accounted =
            λ fd. omega (arith, idle fd, t.accounted fd, T.pipe_opens h h1 reader writer p fd);
        stdin_idle = t.stdin_idle;
        stdout_idle = tt;
      }

  stdout_pipe-Tidy :
      (o : Option InBuf) (storage : Bytes) (c : Coprocess) (h : K.State)
      → c.stdout_pipe_istream ≡ o
      → Tidy c h
      → TidyAfter (stdout_pipe_of K tries o storage c h)
  stdout_pipe-Tidy none storage c h e t = stdout_opened-Tidy storage c h (K.pipe h) t e refl
  stdout_pipe-Tidy (some b) storage c h e t = t

  -- Two descriptors are closed, one after the other.
  close_two :
      (m : ℕ → ℕ) (x y : Option ℕ) (h : K.State)
      → Opens K T tries (λ fd. m fd + held x fd + held y fd) h
      → Opens K T tries m (close_some K tries x (close_some K tries y h))
  close_two m x y h o =
      close_some-Opens K T tries m x (close_some K tries y h)
        (close_some-Opens K T tries (λ fd. m fd + held x fd) y h o)

  close_stdin-Tidy : (c : Coprocess) (h : K.State) → Tidy c h → TidyBoth (close_stdin K tries c h)
  unfolding close_stdin
  close_stdin-Tidy c h t =
      let m =
        λ (fd : ℕ). bit (base fd) + (held c.stdout_pipe_reader fd + held c.stdout_pipe_writer fd) in
      let h1 = delete_stream K tries c.stdin_pipe_writer c.stdin_pipe_ostream h in
      let flushed =
        delete_stream-Opens K T tries (λ fd. bit (base fd) + held_by c fd) c.stdin_pipe_writer
          c.stdin_pipe_ostream h t.accounted in
      let shut =
        close_two m c.stdin_pipe_reader c.stdin_pipe_writer h1 (λ fd. omega (arith, flushed fd)) in
      record {
        accounted = λ fd. omega (arith, shut fd);
        stdin_idle = (refl, refl);
        stdout_idle = t.stdout_idle;
      }

  close_stdout-Tidy : (c : Coprocess) (h : K.State) → Tidy c h → TidyBoth (close_stdout K tries c h)
  unfolding close_stdout
  close_stdout-Tidy c h t =
      let m =
        λ (fd : ℕ). bit (base fd) + (held c.stdin_pipe_reader fd + held c.stdin_pipe_writer fd) in
      let shut =
        close_two m c.stdout_pipe_reader c.stdout_pipe_writer h
          (λ fd. omega (arith, t.accounted fd)) in
      record {
        accounted = λ fd. omega (arith, shut fd);
        stdin_idle = t.stdin_idle;
        stdout_idle = (refl, refl);
      }

  forked-Tidy :
      (c : Coprocess) (r : (ℕ ⊎ ℕ) × K.State) → Tidy c r.1 → TidyAfter (forked K tries c r)
  forked-Tidy c (inl errno, h) t = record {
    accounted = t.accounted;
    stdin_idle = t.stdin_idle;
    stdout_idle = t.stdout_idle;
  }
  forked-Tidy c (inr child, h) t =
      let m =
        λ (fd : ℕ). bit (base fd) + (held c.stdin_pipe_writer fd + held c.stdout_pipe_reader fd) in
      let shut =
        close_two m c.stdout_pipe_writer c.stdin_pipe_reader h
          (λ fd. omega (arith, t.accounted fd)) in
      record {
        accounted = λ fd. omega (arith, shut fd);
        stdin_idle =
            Idle-left c.stdin_pipe_ostream c.stdin_pipe_reader c.stdin_pipe_writer t.stdin_idle;
        stdout_idle =
            Idle-right c.stdout_pipe_istream c.stdout_pipe_reader c.stdout_pipe_writer
              t.stdout_idle;
      }

  put_to-Tidy :
      (p : Put) (o : Option OutBuf) (c : Coprocess) (h : K.State)
      → c.stdin_pipe_ostream ≡ o
      → Tidy c h
      → TidyBoth (put_to K tries p c o h)
  put_to-Tidy p none c h e t = t
  put_to-Tidy p (some b) c h e t = record {
    accounted =
        put_one-keeps (stdin_sink K tries c.stdin_pipe_writer)
          (Opens K T tries (λ fd. bit (base fd) + held_by c fd))
          (λ s h1 o1.
            write_stdin-keeps K T tries (λ fd. bit (base fd) + held_by c fd) c.stdin_pipe_writer s
              h1 o1)
          p b h t.accounted;
    stdin_idle = tt;
    stdout_idle = t.stdout_idle;
  }

  get_from-Tidy :
      (g : Get) (o : Option InBuf) (c : Coprocess) (h : K.State)
      → c.stdout_pipe_istream ≡ o
      → Tidy c h
      → TidyBoth (get_from K tries g c o h)
  get_from-Tidy g none c h e t = t
  get_from-Tidy g (some b) c h e t = record {
    accounted =
        get_one-keeps (stdout_source K tries c.stdout_pipe_reader)
          (Opens K T tries (λ fd. bit (base fd) + held_by c fd))
          (λ n h1 o1.
            read_stdout-keeps K T tries (λ fd. bit (base fd) + held_by c fd) c.stdout_pipe_reader n
              h1 o1)
          g b h t.accounted;
    stdin_idle = t.stdin_idle;
    stdout_idle = tt;
  }

  waited-same : (r : (ℕ ⊎ ℕ) × K.State) → (waited K tries r).1 ≡ r.1
  waited-same (inl errno, h) = refl
  waited-same (inr status, h) = refl

  run_step-Tidy :
      (s : Step) (c : Coprocess) (h : K.State) → Tidy c h → TidyBoth (run_step K tries s c h)
  unfolding run_step stdin_pipe stdout_pipe spawn wait
  run_step-Tidy open_stdin c h t = stdin_pipe-Tidy c.stdin_pipe_ostream c h refl t
  run_step-Tidy (open_stdout storage) c h t =
      stdout_pipe-Tidy c.stdout_pipe_istream storage c h refl t
  run_step-Tidy (put p) c h t = put_to-Tidy p c.stdin_pipe_ostream c h refl t
  run_step-Tidy (get g) c h t = get_from-Tidy g c.stdout_pipe_istream c h refl t
  run_step-Tidy spawned c h t =
      forked-Tidy c (K.fork h) (Tidy-same c h (K.fork h).1 (T.fork_keeps h) t)
  run_step-Tidy wait_for c h t =
      rw (waited-same (K.waitpid c.pid h))
        (Tidy-same c h (K.waitpid c.pid h).1 (T.waitpid_keeps c.pid h) t)
  run_step-Tidy shut_stdin c h t = close_stdin-Tidy c h t
  run_step-Tidy shut_stdout c h t = close_stdout-Tidy c h t

  run_steps-Tidy :
      (steps : List Step) (c : Coprocess) (h : K.State)
      → Tidy c h
      → TidyBoth (run_steps K tries steps c h)
  unfolding run_steps
  run_steps-Tidy [] c h t = t
  run_steps-Tidy (s ∷ steps) c h t =
      let (c1, h1) = run_step K tries s c h in run_steps-Tidy steps c1 h1 (run_step-Tidy s c h t)

  destroy_coprocess-Tidy :
      (c : Coprocess) (h : K.State) → Tidy c h → TidyBoth (destroy_coprocess K tries c h)
  unfolding destroy_coprocess
  destroy_coprocess-Tidy c h t =
      let (c1, h1) = close_stdin K tries c h in close_stdout-Tidy c1 h1 (close_stdin-Tidy c h t)

  bit-injective : (a b : Bool) → bit a ≡ bit b → a ≡ b
  bit-injective a b e = ground arith

module _ (K : Kernel) (T : Table K) (tries : ℕ) where
  coprocess-Tidy : (h : K.State) → Tidy K T tries (T.is_open h) coprocess h
  unfolding coprocess
  coprocess-Tidy h = record {
    accounted = λ fd. omega arith;
    stdin_idle = (refl, refl);
    stdout_idle = (refl, refl);
  }

  -- Whatever is done with a coprocess, in any order and also where calls throw, the descriptors
  -- that are open are those of the start and those that it holds, each of them once; and after
  -- its destructor exactly those of the start are open.
  pub run_steps-Accounted :
      (steps : List Step) (h : K.State)
      → let (c, h1) = run_steps K tries steps coprocess h in
        let (c2, h2) = destroy_coprocess K tries c h1 in
        ((fd : ℕ) → bit (T.is_open h1 fd) ≡ bit (T.is_open h fd) + held_by c fd)
        × ((fd : ℕ) → T.is_open h2 fd ≡ T.is_open h fd)
  run_steps-Accounted steps h =
      let base = T.is_open h in
      let t = run_steps-Tidy K T tries base steps coprocess h (coprocess-Tidy h) in
      let (c, h1) = run_steps K tries steps coprocess h in
      let d = destroy_coprocess-Tidy K T tries base c h1 t in
      (
        t.accounted,
        λ fd.
            bit-injective K T tries base (T.is_open (destroy_coprocess K tries c h1).1 fd) (base fd)
              (unfold destroy_coprocess close_stdin close_stdout in omega (arith, d.accounted fd)),
      )
