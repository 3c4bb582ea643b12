-- ===== src/Coprocess/Streams.antt =====
-- What a client does with a coprocess: its methods, and reading and writing of its streams.
use git_crypt.Base.{ℕ, List, [], ◌∷◌, Bytes, Option, none, some}
use git_crypt.FileHandle.Output.{OutBuf, Put, put_one}
use git_crypt.FileHandle.Input.{InBuf, Get, get_one}
use git_crypt.Coprocess.{
  Kernel, Coprocess, stdin_sink, stdout_source, stdin_pipe, close_stdin, stdout_pipe, close_stdout,
  spawn, wait,
}

pub data Step : Type 0 where
  open_stdin : Step
  open_stdout : Bytes → Step
  put : Put → Step
  get : Get → Step
  spawned : Step
  waited : Step
  shut_stdin : Step
  shut_stdout : Step

module _ (K : Kernel) (tries : ℕ) where
  -- A stream that is not there is not used.
  abbrev pub put_to : Put → Coprocess → Option OutBuf → K.State → Coprocess × K.State
  put_to p c none h = (c, h)
  put_to p c (some b) h =
      let (r, b', h') = put_one (stdin_sink K tries c.stdin_pipe_writer) p b h in
      (record c { stdin_pipe_ostream = some b' }, h')

  abbrev pub get_from : Get → Coprocess → Option InBuf → K.State → Coprocess × K.State
  get_from g c none h = (c, h)
  get_from g c (some b) h =
      let (r, b', h') = get_one (stdout_source K tries c.stdout_pipe_reader) g b h in
      (record c { stdout_pipe_istream = some b' }, h')

  -- The coprocess and the system after a step, also where it threw.
  unfoldable pub run_step : Step → Coprocess → K.State → Coprocess × K.State
  run_step open_stdin c h = let (r, c', h') = stdin_pipe K tries c h in (c', h')
  run_step (open_stdout storage) c h = let (r, c', h') = stdout_pipe K tries storage c h in (c', h')
  run_step (put p) c h = put_to p c c.stdin_pipe_ostream h
  run_step (get g) c h = get_from g c c.stdout_pipe_istream h
  run_step spawned c h = let (r, c', h') = spawn K tries c h in (c', h')
  run_step waited c h = (c, (wait K tries c h).1)
  run_step shut_stdin c h = close_stdin K tries c h
  run_step shut_stdout c h = close_stdout K tries c h

  unfoldable pub run_steps : List Step → Coprocess → K.State → Coprocess × K.State
  unfolding run_step
  run_steps [] c h = (c, h)
  run_steps (s ∷ steps) c h = let (c', h') = run_step s c h in run_steps steps c' h'
