-- ===== src/Tests/Collaborator.antt =====
-- A key for a collaborator, on a system with a gpg that keeps what it encrypts as it is.
use git_crypt.Base.{
  decimal, ℕ, ◌≡◌, refl, false, Option, none, some, List, [], ◌∷◌, Bytes, codes, equal,
  if◌then◌else◌, replicate, arith,
}
use git_crypt.Base.Results.{Result, ok}
use git_crypt.Host.{Host}
use git_crypt.Exec.{World, catch}
use git_crypt.Exec.System.{successful_exit, mkdir_parent}
use git_crypt.Exec.Process.{exec_command_output}
use git_crypt.Git.Config.{get_git_config}
use git_crypt.Gpg.Run.{gpg_get_executable}
use git_crypt.KeyFile.{Entry, validate_key_name, valid}
use git_crypt.KeyFile.Versions.{IsEntry}
use git_crypt.Commands.Repo.{gpg_file_path, encrypt_repo_key, decrypt_repo_key}
use git_crypt.Commands.Collaborator.{Keeps, Holds, decrypt_repo_key-encrypt_repo_key}
use git_crypt.Tests.Toy.{toy_host, find_file, errno_of}

abbrev Files : Type 0
Files = List (Bytes × Bytes)

abbrev or_nothing : Option Bytes → Bytes
or_nothing none = []
or_nothing (some s) = s

-- `git config` finds nothing; `gpg ... -o path` stores its input, and `gpg -q -d path` gives it.
unfoldable gpg_run : List Bytes → Bytes → Files → Result (ℕ × Bytes) × Files
gpg_run (program ∷ (first ∷ (second ∷ (path ∷ args)))) input files =
    if equal first (codes "config")
    then (ok (256, []), files)
    else if equal second (codes "-d")
    then (ok (0, or_nothing (find_file path files)), files)
    else (ok (0, []), (path, input) ∷ files)
gpg_run args input files = (ok (0, []), files)

abbrev gpg_host : Host
gpg_host = record toy_host { run = gpg_run }

abbrev team : Bytes
team = codes "team"

abbrev fourth : Entry
fourth = record { version = 4; aes_key = replicate 32 3; hmac_key = replicate 64 5 }

abbrev path : Bytes
path = gpg_file_path (codes "keys") (some team) 4 (codes "F1")

abbrev start : World ⦃H = gpg_host⦄
start = record { host = []; cin = []; cout = []; clog = []; argv0 = codes "git-crypt" }

start-mkdir_parent : mkdir_parent ⦃H = gpg_host⦄ path start ≡ (ok tt, start)
unfolding mkdir_parent gpg_file_path decimal
start-mkdir_parent = refl

finds_gpg : (w : World ⦃H = gpg_host⦄) → gpg_get_executable ⦃H = gpg_host⦄ w ≡ (ok (codes "gpg"), w)
unfolding gpg_get_executable get_git_config catch exec_command_output gpg_run successful_exit
finds_gpg w = refl

start-Keeps : Keeps ⦃H = gpg_host⦄ (codes "gpg") path (codes "F1") false start.host
unfolding gpg_run find_file errno_of gpg_file_path decimal
start-Keeps = record {
  output = λ s. [];
  encrypted = λ s. (path, s) ∷ [];
  asked = λ s. (path, s) ∷ [];
  decrypted = λ s. (path, s) ∷ [];
  encrypts = λ s. refl;
  creates = λ s. refl;
  finds = λ s w. finds_gpg (record w { host = (path, s) ∷ [] });
  decrypts = λ s. refl;
}

fourth-IsEntry : IsEntry fourth
fourth-IsEntry = (omega arith, refl, refl)

team-valid : validate_key_name team ≡ valid
unfolding validate_key_name
team-valid = refl

decrypt_repo_key-encrypt_repo_key_example :
    let (r, w3) =
      encrypt_repo_key ⦃H = gpg_host⦄
        (some team)
        fourth
        ((codes "F1", false) ∷ [])
        (codes "keys")
        []
        start in
    let (found, w4) =
      decrypt_repo_key ⦃H = gpg_host⦄ (some team) 4 (codes "F1" ∷ []) (codes "keys") none w3 in
    (r ≡ ok (gpg_file_path (codes "keys") (some team) 4 (codes "F1") ∷ []))
    × Holds ⦃H = gpg_host⦄ (some team) fourth found
unfolding errno_of find_file
decrypt_repo_key-encrypt_repo_key_example =
    decrypt_repo_key-encrypt_repo_key ⦃H = gpg_host⦄ (some team) fourth (codes "F1") (codes "keys")
      (codes "gpg") false start start start fourth-IsEntry team-valid refl start-mkdir_parent
      (finds_gpg start) start-Keeps
