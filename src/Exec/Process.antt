-- ===== src/Exec/Process.antt =====
-- util.cpp: running a command and waiting for it.
use git_crypt.Base.{ℕ, List, [], Bytes}
use git_crypt.Host.{Host}
use git_crypt.Exec.{Exec, ◌>>=◌, ◌>>◌, pure, put_out}

module _ ⦃H : Host⦄ where
  -- `Coprocess::spawn` and `Coprocess::wait`, with the input that the child is given.
  run_child : List Bytes → Bytes → Exec (ℕ × Bytes)
  run_child args input w = let (r, h) = H.run args input w.host in (r, record w { host = h })

  -- With no pipe the child writes to the program's own standard output.
  unfoldable pub exec_command : List Bytes → Exec ℕ
  unfolding run_child
  exec_command args = do (status, output) ← run_child args []; put_out output; pure status

  -- The status, and what the child wrote.
  unfoldable pub exec_command_output : List Bytes → Exec (ℕ × Bytes)
  unfolding run_child
  exec_command_output args = run_child args []

  unfoldable pub exec_command_with_input : List Bytes → Bytes → Exec ℕ
  unfolding run_child
  exec_command_with_input args input = do
    (status, output) ← run_child args input
    put_out output
    pure status
