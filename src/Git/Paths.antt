-- ===== src/Git/Paths.antt =====
-- commands.cpp: the paths of keys and state, the state of the working tree, and checking files out.
use git_crypt.Base.{
  ℕ, zero, suc, Bool, true, false, Option, none, some, List, [], ◌∷◌, ◌++◌, Bytes, codes, length,
  take, drop, leb, if◌then◌else◌, is_nil,
}
use git_crypt.Base.Results.{error, stuck}
use git_crypt.Host.{Host}
use git_crypt.Exec.{Exec, ◌>>=◌, ◌>>◌, pure, throw, lift, when}
use git_crypt.Base.Streams.{get_line}
use git_crypt.Exec.System.{successful_exit}
use git_crypt.Exec.Process.{exec_command}
use git_crypt.Git.Config.{must_output, git_has_config, get_git_config}

abbrev pub git_checkout_batch_size : ℕ
git_checkout_batch_size = 100

-- `key_name ? key_name : "default"`
abbrev pub key_name_or_default : Option Bytes → Bytes
key_name_or_default none = codes "default"
key_name_or_default (some key_name) = key_name

module _ ⦃H : Host⦄ where
  unfoldable pub git_checkout_batch : List Bytes → Exec Bool
  git_checkout_batch [] = pure true
  git_checkout_batch (path ∷ paths) = do
    status ← exec_command (codes "git" ∷ (codes "checkout" ∷ (codes "--" ∷ (path ∷ paths))))
    pure (successful_exit status)

  -- The loop over whole batches, and the last call; each round takes 100 paths.
  unfoldable pub checkout_batches : ℕ → List Bytes → Exec Bool
  checkout_batches zero paths = lift stuck
  checkout_batches (suc fuel) paths =
      if leb git_checkout_batch_size (length paths)
      then (do
        done ← git_checkout_batch (take git_checkout_batch_size paths)
        elim done [
          | true ↦ checkout_batches fuel (drop git_checkout_batch_size paths)
          | false ↦ pure false
        ])
      else git_checkout_batch paths

  unfoldable pub git_checkout : List Bytes → Exec Bool
  unfolding checkout_batches
  git_checkout paths = checkout_batches (suc (length paths)) paths

  unfoldable pub get_internal_state_path : Exec Bytes
  unfolding get_line
  get_internal_state_path = do
    output ←
        must_output (codes "git" ∷ (codes "rev-parse" ∷ (codes "--git-dir" ∷ [])))
          (codes "'git rev-parse --git-dir' failed - is this a Git repository?")
    pure ((get_line 10 output).0 ++ codes "/git-crypt")

  unfoldable pub get_internal_keys_path : Exec Bytes
  unfolding get_internal_state_path
  get_internal_keys_path = do path ← get_internal_state_path; pure (path ++ codes "/keys")

  unfoldable pub get_internal_key_path : Option Bytes → Exec Bytes
  unfolding get_internal_keys_path
  get_internal_key_path key_name = do
    path ← get_internal_keys_path
    pure (path ++ (codes "/" ++ key_name_or_default key_name))

  repo_state_below : Bytes → Bool → Exec Bytes
  repo_state_below path true = do
    dir ← get_git_config (codes "git-crypt.repoStateDir")
    pure (path ++ (codes "/" ++ dir))
  repo_state_below path false = pure (path ++ codes "/.git-crypt")

  unfoldable pub get_repo_state_path : Exec Bytes
  unfolding get_line repo_state_below
  get_repo_state_path = do
    output ←
        must_output (codes "git" ∷ (codes "rev-parse" ∷ (codes "--show-toplevel" ∷ [])))
          (codes "'git rev-parse --show-toplevel' failed - is this a Git repository?")
    let path = (get_line 10 output).0
    when (is_nil path)
        (throw (error (codes "Could not determine Git working tree - is this a non-bare repo?")))
    configured ← git_has_config (codes "git-crypt.repoStateDir")
    repo_state_below path configured

  abbrev pub get_repo_keys_path : Bytes → Bytes
  get_repo_keys_path repo_state_path = repo_state_path ++ codes "/keys"

  unfoldable pub get_path_to_top : Exec Bytes
  unfolding get_line
  get_path_to_top = do
    output ←
        must_output (codes "git" ∷ (codes "rev-parse" ∷ (codes "--show-cdup" ∷ [])))
          (codes "'git rev-parse --show-cdup' failed - is this a Git repository?")
    pure (get_line 10 output).0

  unfoldable pub get_git_status : Exec Bytes
  get_git_status =
      must_output (codes "git" ∷ (codes "status" ∷ (codes "-uno" ∷ (codes "--porcelain" ∷ []))))
        (codes "'git status' failed - is this a Git repository?")
