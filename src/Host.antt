-- ===== src/Host.antt =====
-- What the program asks of the system it runs on: processes, files, random bytes, OpenSSL.
-- None of it is in the repository, so it is a parameter of the model. `errno` 0 stands for success.
use git_crypt.Base.{ℕ, Bool, Option, List, ◌⊎◌, Bytes}
use git_crypt.Base.Results.{Result}
use git_crypt.Crypto.{OpenSsl}

pub record Host : Type 1 where
  pub State : Type 0
  pub openssl : OpenSsl
  -- `fork`, `execvp`, the pipes and `waitpid`: the arguments and what is written to the child's
  -- standard input; the status of `waitpid` and what it wrote to its standard output. A call of
  -- the system that fails is a System_error.
  pub run : List Bytes → Bytes → State → Result (ℕ × Bytes) × State
  -- A child that is talked to through both pipes: what it has written once it was given this input,
  -- and its status once its input is closed.
  pub respond : List Bytes → Bytes → State → Bytes
  pub finish : List Bytes → Bytes → State → Result ℕ × State
  -- `std::ifstream`: the file's bytes, or `none` if it cannot be opened.
  pub open_input : Bytes → State → Option Bytes
  -- `std::ofstream`, the writes and `close`: true if the stream is good after each of them.
  pub write_output : Bytes → Bytes → State → Bool × State
  -- `access(path, F_OK)`: its `errno`.
  pub access : Bytes → State → ℕ
  -- `stat`: its `errno`, or `S_ISDIR` of the mode.
  pub stat_is_dir : Bytes → State → ℕ ⊎ Bool
  -- `mkdir(path, 0777)`, `open(path, O_WRONLY | O_CREAT, 0600)` with `close`, `utimes`, `unlink`.
  pub mkdir : Bytes → State → ℕ × State
  pub open_create : Bytes → State → ℕ × State
  pub utimes : Bytes → State → ℕ × State
  pub unlink : Bytes → State → ℕ × State
  -- `opendir`: its `errno`, or the names that `readdir` gives and the `errno` that it ends with.
  pub read_dir : Bytes → State → ℕ ⊎ (List Bytes × ℕ)
  pub getenv : Bytes → State → Option Bytes
  -- `mkstemp` of a template: its `errno`, or the path.
  pub mkstemp : Bytes → State → (ℕ ⊎ Bytes) × State
  -- `std::fstream::open` of a temporary file.
  pub open_temp : Bytes → State → Bool × State
  pub realpath : Bytes → State → Option Bytes
  -- `RAND_bytes`, and the strings of the error queue where it does not return 1.
  pub rand_bytes : ℕ → State → (List Bytes ⊎ Bytes) × State
  pub strerror : ℕ → Bytes
