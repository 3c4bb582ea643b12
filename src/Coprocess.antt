-- ===== src/Coprocess.antt =====
-- coprocess-unix.hpp and coprocess-unix.cpp: a child process behind two pipes.
pub mod Child
pub mod Streams
mod Frame
pub mod Descriptors
pub mod Tidy
pub mod Delivery
pub mod Arrival
use git_crypt.Base.{
  ℕ, zero, suc, ◌⊎◌, inl, inr, List, [], ◌∷◌, Bytes, ◌==◌, if◌then◌else◌, Option, none, some, codes,
}
use git_crypt.Base.Results.{Result, Exception, system_error, ok, err, stuck}
use git_crypt.FileHandle.Output.{Sink, OutBuf, out_buf, destroy, Put, put_one}
use git_crypt.FileHandle.Input.{Source, InBuf, in_buf, Get, get_one}

-- The calls of the system, with `errno` where one fails. A descriptor that is -1 is none.
pub record Kernel : Type 1 where
  pub State : Type 0
  pub pipe : State → (ℕ ⊎ (ℕ × ℕ)) × State
  pub close : ℕ → State → State
  pub write : Option ℕ → Bytes → State → (ℕ ⊎ ℕ) × State
  pub read : Option ℕ → ℕ → State → (ℕ ⊎ Bytes) × State
  -- As the parent sees it: the child's process ID.
  pub fork : State → (ℕ ⊎ ℕ) × State
  pub waitpid : Option ℕ → State → (ℕ ⊎ ℕ) × State

-- The members of the class; what is -1 or null is none.
pub record Coprocess : Type 0 where
  pub pid : Option ℕ
  pub stdin_pipe_reader : Option ℕ
  pub stdin_pipe_writer : Option ℕ
  pub stdin_pipe_ostream : Option OutBuf
  pub stdout_pipe_reader : Option ℕ
  pub stdout_pipe_writer : Option ℕ
  pub stdout_pipe_istream : Option InBuf

-- `Coprocess::Coprocess`
unfoldable pub coprocess : Coprocess
coprocess = record {
  pid = none;
  stdin_pipe_reader = none;
  stdin_pipe_writer = none;
  stdin_pipe_ostream = none;
  stdout_pipe_reader = none;
  stdout_pipe_writer = none;
  stdout_pipe_istream = none;
}

abbrev pub eintr : ℕ
eintr = 4

abbrev pub failed : Bytes → ℕ → Exception
failed action errno = system_error action [] errno

-- The number of times that a call is tried, while it is interrupted.
module _ (K : Kernel) (tries : ℕ) where
  open K use {State}

  -- The test of the loops of `write_stdin` and `read_stdout`, on what the call returned.
  abbrev pub restart :
      {A : Type 0} → Bytes → (ℕ ⊎ A) × State → (State → Result A × State) → Result A × State
  restart action (inr a, h) again = (ok a, h)
  restart action (inl errno, h) again =
      let more = again h in if errno == eintr then more else (err (failed action errno), h)

  unfoldable pub write_tries : ℕ → Option ℕ → Bytes → State → Result ℕ × State
  write_tries zero fd buf h = (stuck, h)
  write_tries (suc n) fd buf h = restart (codes "write") (K.write fd buf h) (write_tries n fd buf)

  -- `Coprocess::write_stdin`
  unfoldable pub write_stdin : Option ℕ → Bytes → State → Result ℕ × State
  unfolding write_tries
  write_stdin = write_tries tries

  unfoldable pub read_tries : ℕ → Option ℕ → ℕ → State → Result Bytes × State
  read_tries zero fd count h = (stuck, h)
  read_tries (suc n) fd count h = restart (codes "read") (K.read fd count h) (read_tries n fd count)

  -- `Coprocess::read_stdout`
  unfoldable pub read_stdout : Option ℕ → ℕ → State → Result Bytes × State
  unfolding read_tries
  read_stdout = read_tries tries

  -- The handles of the two streams.
  abbrev pub stdin_sink : Option ℕ → Sink
  stdin_sink fd = record { State = State; write_fun = write_stdin fd }

  abbrev pub stdout_source : Option ℕ → Source
  stdout_source fd = record { State = State; read_fun = read_stdout fd }

  abbrev pub close_some : Option ℕ → State → State
  close_some none h = h
  close_some (some fd) h = K.close fd h

  abbrev pub delete_stream : Option ℕ → Option OutBuf → State → State
  delete_stream fd none h = h
  delete_stream fd (some b) h = destroy (stdin_sink fd) b h

  abbrev pub Returns : Type 0
  Returns = Result (Unit {0}) × Coprocess × State

  -- `Coprocess::stdin_pipe`, without the pointer that it returns.
  abbrev pub stdin_opened : Coprocess → (ℕ ⊎ (ℕ × ℕ)) × State → Returns
  stdin_opened c (inl errno, h) = (err (failed (codes "pipe") errno), c, h)
  stdin_opened c (inr (reader, writer), h) = (
    ok tt,
    record c {
      stdin_pipe_reader = some reader;
      stdin_pipe_writer = some writer;
      stdin_pipe_ostream = some out_buf;
    },
    h,
  )

  -- The test of `stdin_pipe_ostream`.
  abbrev pub stdin_pipe_of : Option OutBuf → Coprocess → State → Returns
  stdin_pipe_of none c h = stdin_opened c (K.pipe h)
  stdin_pipe_of (some b) c h = (ok tt, c, h)

  unfoldable pub stdin_pipe : Coprocess → State → Returns
  stdin_pipe c h = stdin_pipe_of c.stdin_pipe_ostream c h

  -- `Coprocess::close_stdin`: the stream is flushed and deleted before its descriptor is closed.
  unfoldable pub close_stdin : Coprocess → State → Coprocess × State
  close_stdin c h =
      let h1 = delete_stream c.stdin_pipe_writer c.stdin_pipe_ostream h in
      (
        record c { stdin_pipe_ostream = none; stdin_pipe_writer = none; stdin_pipe_reader = none },
        close_some c.stdin_pipe_reader (close_some c.stdin_pipe_writer h1),
      )

  -- `Coprocess::stdout_pipe`, with the storage that `new` gives the stream's buffer.
  abbrev pub stdout_opened : Bytes → Coprocess → (ℕ ⊎ (ℕ × ℕ)) × State → Returns
  stdout_opened storage c (inl errno, h) = (err (failed (codes "pipe") errno), c, h)
  stdout_opened storage c (inr (reader, writer), h) = (
    ok tt,
    record c {
      stdout_pipe_reader = some reader;
      stdout_pipe_writer = some writer;
      stdout_pipe_istream = some (in_buf storage);
    },
    h,
  )

  -- The test of `stdout_pipe_istream`.
  abbrev pub stdout_pipe_of : Option InBuf → Bytes → Coprocess → State → Returns
  stdout_pipe_of none storage c h = stdout_opened storage c (K.pipe h)
  stdout_pipe_of (some b) storage c h = (ok tt, c, h)

  unfoldable pub stdout_pipe : Bytes → Coprocess → State → Returns
  stdout_pipe storage c h = stdout_pipe_of c.stdout_pipe_istream storage c h

  -- `Coprocess::close_stdout`
  unfoldable pub close_stdout : Coprocess → State → Coprocess × State
  close_stdout c h = (
    record c { stdout_pipe_istream = none; stdout_pipe_writer = none; stdout_pipe_reader = none },
    close_some c.stdout_pipe_reader (close_some c.stdout_pipe_writer h),
  )

  -- `Coprocess::spawn`, in the parent; the child's part is `Child.child_calls`.
  abbrev pub forked : Coprocess → (ℕ ⊎ ℕ) × State → Returns
  forked c (inl errno, h) = (err (failed (codes "fork") errno), record c { pid = none }, h)
  forked c (inr child, h) = (
    ok tt,
    record c { pid = some child; stdin_pipe_reader = none; stdout_pipe_writer = none },
    close_some c.stdout_pipe_writer (close_some c.stdin_pipe_reader h),
  )

  unfoldable pub spawn : Coprocess → State → Returns
  spawn c h = forked c (K.fork h)

  -- `Coprocess::wait`
  abbrev pub waited : (ℕ ⊎ ℕ) × State → Result ℕ × State
  waited (inl errno, h) = (err (failed (codes "waitpid") errno), h)
  waited (inr status, h) = (ok status, h)

  unfoldable pub wait : Coprocess → State → Result ℕ × State
  wait c h = waited (K.waitpid c.pid h)

  -- `Coprocess::~Coprocess`
  unfoldable pub destroy_coprocess : Coprocess → State → Coprocess × State
  unfolding close_stdin close_stdout
  destroy_coprocess c h = let (c1, h1) = close_stdin c h in close_stdout c1 h1
