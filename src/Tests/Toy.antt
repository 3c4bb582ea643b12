-- ===== src/Tests/Toy.antt =====
-- A small system to run the model on.
use git_crypt.Base.{
  ℕ, zero, suc, ◌+◌, ◌%◌, ◌≡◌, refl, ap, inr, true, Option, none, some, List, [], ◌∷◌, ◌++◌, Bytes,
  codes, length, take, replicate, equal, if◌then◌else◌, arith,
}
use git_crypt.Base.Results.{ok}
use git_crypt.Host.{Host}
use git_crypt.Exec.{World}
use git_crypt.Exec.System.{open_temp_file}
use git_crypt.Crypto.{OpenSsl}
use git_crypt.KeyFile.{KeyFile, Entry, validate_key_name, c_str}
use git_crypt.KeyFile.Versions.{IsWellFormed}
use git_crypt.Clean.Reading.{TempOpens}
use git_crypt.Commands.Fuel.{Answers}
use git_crypt.KeyStore.Generate.{Draws}

-- A cipher that is easy to follow: the key is its own schedule, a block is encrypted by adding the
-- length of the key to each byte, and the HMAC is the beginning of the message and the key.
unfoldable pub toy_encrypt : Bytes → Bytes → Bytes
toy_encrypt key [] = []
toy_encrypt key (b ∷ s) = (b + length key) % 256 ∷ toy_encrypt key s

abbrev pub toy_openssl : OpenSsl
toy_openssl = record {
  Schedule = Bytes;
  set_encrypt_key = λ key bits. some key;
  encrypt = λ key block. toy_encrypt key block;
  hmac_sha1 = λ key message. take 20 (message ++ key);
}

-- The files of the toy system, the latest first.
abbrev Files : Type 0
Files = List (Bytes × Bytes)

unfoldable pub find_file : Bytes → Files → Option Bytes
find_file name [] = none
find_file name ((path, contents) ∷ files) =
    if equal name path then some contents else find_file name files

unfoldable pub errno_of : Option Bytes → ℕ
errno_of none = 2
errno_of (some contents) = 0

-- git answers with the name of its directory, and with changes if there is a file "changed".
unfoldable pub toy_run : List Bytes → Files → Bytes
toy_run [] files = []
toy_run (git ∷ []) files = []
toy_run (git ∷ (command ∷ args)) files =
    if equal command (codes "rev-parse")
    then codes ".git\n"
    else if equal command (codes "status")
    then elim (find_file (codes "changed") files) [ none ↦ [] | some contents ↦ contents ]
    else []

instance abbrev pub toy_host : Host
toy_host = record {
  State = Files;
  openssl = toy_openssl;
  run = λ args input files. (ok (0, toy_run args files), files);
  respond = λ args input files. [];
  finish = λ args input files. (ok 0, files);
  open_input = λ name files. find_file name files;
  write_output = λ name contents files. (true, (name, contents) ∷ files);
  access = λ name files. errno_of (find_file name files);
  stat_is_dir = λ name files. inr true;
  mkdir = λ name files. (0, files);
  open_create = λ name files. (0, files);
  utimes = λ name files. (0, files);
  unlink = λ name files. (0, files);
  read_dir = λ name files. inr ([], 0);
  getenv = λ name files. none;
  mkstemp = λ name files. (inr (codes "/tmp/git-crypt.toy"), files);
  open_temp = λ name files. (true, files);
  realpath = λ name files. some name;
  rand_bytes = λ n files. (inr (replicate n 7), files);
  strerror = λ errno. codes "error";
}

-- A start with these files and this standard input.
abbrev pub world : Files → Bytes → World
world files input = record {
  host = files;
  cin = input;
  cout = [];
  clog = [];
  argv0 = codes "git-crypt";
}

abbrev pub toy_entry : Entry
toy_entry = record { version = 0; aes_key = replicate 32 3; hmac_key = replicate 64 5 }

abbrev pub toy_key_file : KeyFile
toy_key_file = record { entries = (0, toy_entry) ∷ []; key_name = codes "team" }

pub toy_key_file-IsWellFormed : IsWellFormed toy_key_file
unfolding validate_key_name c_str
toy_key_file-IsWellFormed = record {
  sorted = (refl, (omega arith, refl, refl), tt, tt);
  named = inr (omega arith, refl);
}

pub toy-TempOpens : TempOpens
unfolding open_temp_file
toy-TempOpens w = (w.host, refl)

pub length-replicate : (n : ℕ) (b : ℕ) → length (replicate n b) ≡ n
length-replicate zero b = refl
length-replicate (suc n) b = ap suc (length-replicate n b)

pub toy-Draws : Draws
toy-Draws n h = (replicate n 7, h, refl, length-replicate n 7)

pub toy-Answers : Answers
toy-Answers args input h = tt
