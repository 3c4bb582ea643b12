-- ===== src/Windows/Coprocess.antt =====
-- coprocess-win32.cpp: a child process behind two pipes, on Windows.
use git_crypt.Base.{
  ℕ, zero, suc, ◌⊎◌, inl, inr, Option, none, some, List, [], ◌∷◌, Bytes, codes, ◌==◌, if◌then◌else◌,
  take, length, ◌%◌, ◌^◌,
}
use git_crypt.Base.Results.{Result, Exception, system_error, ok, err, stuck}
use git_crypt.FileHandle.Output.{Sink, OutBuf, out_buf, destroy}
use git_crypt.FileHandle.Input.{Source, InBuf, in_buf}
use git_crypt.Windows.CommandLine.{format_cmdline}

-- The calls, with the error code of GetLastError where one fails. A handle that is null is none.
pub record Kernel32 : Type 1 where
  pub State : Type 0
  pub Handle : Type 0
  pub create_pipe : State → (ℕ ⊎ (Handle × Handle)) × State
  -- SetHandleInformation, so that the handle is not inherited.
  pub keep_private : Handle → State → Option ℕ × State
  -- CreateProcess of a command line, with its standard input and output, or the program's own; the
  -- handle of the process. The handle of its thread is closed.
  pub create_process : Bytes → Option Handle → Option Handle → State → (ℕ ⊎ Handle) × State
  pub close_handle : Handle → State → State
  pub wait_for : Option Handle → State → Option ℕ × State
  pub exit_code : Option Handle → State → (ℕ ⊎ ℕ) × State
  pub write_file : Option Handle → Bytes → State → (ℕ ⊎ ℕ) × State
  pub read_file : Option Handle → ℕ → State → (ℕ ⊎ Bytes) × State

abbrev pub error_broken_pipe : ℕ
error_broken_pipe = 109

-- The error of a call on a process.
abbrev pub failed : Bytes → ℕ → Exception
failed action code = system_error action [] code

module _ (K : Kernel32) where
  open K use {State, Handle}

  -- The members of the class; what is null is none.
  pub record Coprocess : Type 0 where
    pub proc_handle : Option Handle
    pub stdin_pipe_reader : Option Handle
    pub stdin_pipe_writer : Option Handle
    pub stdin_pipe_ostream : Option OutBuf
    pub stdout_pipe_reader : Option Handle
    pub stdout_pipe_writer : Option Handle
    pub stdout_pipe_istream : Option InBuf

  -- `Coprocess::Coprocess`
  unfoldable pub coprocess : Coprocess
  coprocess = record {
    proc_handle = none;
    stdin_pipe_reader = none;
    stdin_pipe_writer = none;
    stdin_pipe_ostream = none;
    stdout_pipe_reader = none;
    stdout_pipe_writer = none;
    stdout_pipe_istream = none;
  }

  abbrev pub Returns : Type 0
  Returns = Result (Unit {0}) × Coprocess × State

  abbrev pub close_some : Option Handle → State → State
  close_some none h = h
  close_some (some handle) h = K.close_handle handle h

  abbrev written : (ℕ ⊎ ℕ) × State → Result ℕ × State
  written (inl code, h) = (err (failed (codes "WriteFile") code), h)
  written (inr bytes_written, h) = (ok bytes_written, h)

  -- `Coprocess::write_stdin`; the count is cut to a DWORD.
  unfoldable pub write_stdin : Option Handle → Bytes → State → Result ℕ × State
  write_stdin fd buf h = written (K.write_file fd (take (length buf % 2 ^ 32) buf) h)

  -- A round of `read_stdout`: nothing read is tried again, and a broken pipe is the end.
  abbrev pub read_round :
      (ℕ ⊎ Bytes) × State → (State → Result Bytes × State) → Result Bytes × State
  read_round (inl code, h) again =
      if code == error_broken_pipe then (ok [], h) else (err (failed (codes "ReadFile") code), h)
  read_round (inr [], h) again = again h
  read_round (inr (c ∷ s), h) again = (ok (c ∷ s), h)

  -- The count is cut to a DWORD.
  unfoldable pub read_tries : ℕ → Option Handle → ℕ → State → Result Bytes × State
  read_tries zero fd count h = (stuck, h)
  read_tries (suc n) fd count h =
      read_round (K.read_file fd (count % 2 ^ 32) h) (read_tries n fd count)

  -- `Coprocess::read_stdout`, with the number of times that it reads at most.
  unfoldable pub read_stdout : ℕ → Option Handle → ℕ → State → Result Bytes × State
  unfolding read_tries
  read_stdout tries = read_tries tries

  -- The handles of the two streams.
  abbrev pub stdin_sink : Option Handle → Sink
  stdin_sink fd = record { State = State; write_fun = write_stdin fd }

  abbrev pub stdout_source : ℕ → Option Handle → Source
  stdout_source tries fd = record { State = State; read_fun = read_stdout tries fd }

  abbrev delete_stream : Option Handle → Option OutBuf → State → State
  delete_stream fd none h = h
  delete_stream fd (some b) h = destroy (stdin_sink fd) b h

  -- The end of the pipe that stays in this process is not inherited; where that fails, both ends
  -- are held and there is no stream.
  abbrev stdin_private : Coprocess → Option ℕ × State → Returns
  stdin_private c (some code, h) = (err (failed (codes "SetHandleInformation") code), c, h)
  stdin_private c (none, h) = (ok tt, record c { stdin_pipe_ostream = some out_buf }, h)

  abbrev stdin_opened : Coprocess → (ℕ ⊎ (Handle × Handle)) × State → Returns
  stdin_opened c (inl code, h) = (err (failed (codes "CreatePipe") code), c, h)
  stdin_opened c (inr (reader, writer), h) =
      stdin_private (record c { stdin_pipe_reader = some reader; stdin_pipe_writer = some writer })
        (K.keep_private writer h)

  abbrev stdin_pipe_of : Option OutBuf → Coprocess → State → Returns
  stdin_pipe_of none c h = stdin_opened c (K.create_pipe h)
  stdin_pipe_of (some b) c h = (ok tt, c, h)

  -- `Coprocess::stdin_pipe`, without the pointer that it returns.
  unfoldable pub stdin_pipe : Coprocess → State → Returns
  stdin_pipe c h = stdin_pipe_of c.stdin_pipe_ostream c h

  -- `Coprocess::close_stdin`
  unfoldable pub close_stdin : Coprocess → State → Coprocess × State
  close_stdin c h =
      let h1 = delete_stream c.stdin_pipe_writer c.stdin_pipe_ostream h in
      (
        record c { stdin_pipe_ostream = none; stdin_pipe_writer = none; stdin_pipe_reader = none },
        close_some c.stdin_pipe_reader (close_some c.stdin_pipe_writer h1),
      )

  abbrev stdout_private : Bytes → Coprocess → Option ℕ × State → Returns
  stdout_private storage c (some code, h) = (err (failed (codes "SetHandleInformation") code), c, h)
  stdout_private storage c (none, h) =
      (ok tt, record c { stdout_pipe_istream = some (in_buf storage) }, h)

  abbrev stdout_opened : Bytes → Coprocess → (ℕ ⊎ (Handle × Handle)) × State → Returns
  stdout_opened storage c (inl code, h) = (err (failed (codes "CreatePipe") code), c, h)
  stdout_opened storage c (inr (reader, writer), h) =
      stdout_private storage
        (record c { stdout_pipe_reader = some reader; stdout_pipe_writer = some writer })
        (K.keep_private reader h)

  abbrev stdout_pipe_of : Option InBuf → Bytes → Coprocess → State → Returns
  stdout_pipe_of none storage c h = stdout_opened storage c (K.create_pipe h)
  stdout_pipe_of (some b) storage c h = (ok tt, c, h)

  -- `Coprocess::stdout_pipe`, with the storage that `new` gives the stream's buffer.
  unfoldable pub stdout_pipe : Bytes → Coprocess → State → Returns
  stdout_pipe storage c h = stdout_pipe_of c.stdout_pipe_istream storage c h

  -- `Coprocess::close_stdout`
  unfoldable pub close_stdout : Coprocess → State → Coprocess × State
  close_stdout c h = (
    record c { stdout_pipe_istream = none; stdout_pipe_writer = none; stdout_pipe_reader = none },
    close_some c.stdout_pipe_reader (close_some c.stdout_pipe_writer h),
  )

  -- `spawn_command`
  abbrev pub created : Bytes → (ℕ ⊎ Handle) × State → Result Handle × State
  created cmdline (inl code, h) = (err (system_error (codes "CreateProcess") cmdline code), h)
  created cmdline (inr process, h) = (ok process, h)

  unfoldable pub spawn_command :
      List Bytes → Option Handle → Option Handle → State → Result Handle × State
  spawn_command command stdin_handle stdout_handle h =
      let cmdline = format_cmdline command in
      created cmdline (K.create_process cmdline stdin_handle stdout_handle h)

  abbrev pub spawned : Coprocess → Result Handle × State → Returns
  spawned c (err e, h) = (err e, c, h)
  spawned c (stuck, h) = (stuck, c, h)
  spawned c (ok process, h) = (
    ok tt,
    record c { proc_handle = some process; stdin_pipe_reader = none; stdout_pipe_writer = none },
    close_some c.stdout_pipe_writer (close_some c.stdin_pipe_reader h),
  )

  -- `Coprocess::spawn`
  unfoldable pub spawn : List Bytes → Coprocess → State → Returns
  unfolding spawn_command
  spawn args c h = spawned c (spawn_command args c.stdin_pipe_reader c.stdout_pipe_writer h)

  abbrev exited : (ℕ ⊎ ℕ) × State → Result ℕ × State
  exited (inl code, h) = (err (failed (codes "GetExitCodeProcess") code), h)
  exited (inr status, h) = (ok status, h)

  abbrev waited : Coprocess → Option ℕ × State → Result ℕ × State
  waited c (some code, h) = (err (failed (codes "WaitForSingleObject") code), h)
  waited c (none, h) = exited (K.exit_code c.proc_handle h)

  -- `Coprocess::wait`
  unfoldable pub wait : Coprocess → State → Result ℕ × State
  wait c h = waited c (K.wait_for c.proc_handle h)

  -- `Coprocess::~Coprocess`
  unfoldable pub destroy_coprocess : Coprocess → State → State
  unfolding close_stdin close_stdout
  destroy_coprocess c h =
      let (c1, h1) = close_stdin c h in
      let (c2, h2) = close_stdout c1 h1 in close_some c2.proc_handle h2
