-- ===== src/Commands/AddUser.antt =====
-- commands.cpp: `add-gpg-user`, and the commands that are not implemented.
use git_crypt.Base.{
  ℕ, ◌⊎◌, inl, inr, Bool, not, ◌&&◌, ◌||◌, Option, none, some, List, [], ◌∷◌, ◌++◌, Bytes, codes,
  length, take, equal, ◌==◌, if◌then◌else◌, is_nil, decimal,
}
use git_crypt.Host.{Host}
use git_crypt.Exec.{Exec, ◌>>=◌, ◌>>◌, pure, lift, ask, call, log}
use git_crypt.Exec.System.{successful_exit}
use git_crypt.Exec.Process.{exec_command}
use git_crypt.KeyFile.{Entry, get_latest}
use git_crypt.Options.{OptionsList, flag_option, value_option, flag, value_of, parse_options}
use git_crypt.Git.Paths.{get_repo_state_path, get_repo_keys_path}
use git_crypt.Plumbing.{load_key}
use git_crypt.Commands.Repo.{encrypt_repo_key}
use git_crypt.Gpg.Run.{gpg_lookup_key, gpg_get_uid}
use git_crypt.Commands.Help.{log_lines, help_add_gpg_user}

abbrev pub add_gpg_user_options : OptionsList
add_gpg_user_options =
    value_option (codes "-k") 0
    ∷ (value_option (codes "--key-name") 0
        ∷ (flag_option (codes "-n") 1
            ∷ (flag_option (codes "--no-commit") 1 ∷ (flag_option (codes "--trusted") 2 ∷ []))))

-- `strncmp(arg, "0x", 2) == 0 && strlen(arg) == 42`
abbrev pub is_full_fingerprint : Bytes → Bool
is_full_fingerprint arg = equal (take 2 arg) (codes "0x") && length arg == 42

abbrev Collaborators : Type 0
Collaborators = List (Bytes × Bool)

module _ ⦃H : Host⦄ where
  -- The one key that an argument names, or the end of the command.
  one_key : Bytes → Bool → Collaborators → List Bytes → Exec (ℕ ⊎ Collaborators)
  one_key arg trusted collab_keys [] = do
    log (codes "Error: public key for '" ++ (arg ++ codes "' not found in your GPG keyring"))
    pure (inl 1)
  one_key arg trusted collab_keys (key ∷ []) =
      pure (inr (collab_keys ++ ((key, trusted || is_full_fingerprint arg) ∷ [])))
  one_key arg trusted collab_keys (key ∷ (other ∷ keys)) = do
    log (
        codes "Error: more than one public key matches '"
        ++ (arg ++ codes "' - please be more specific"))
    pure (inl 1)

  unfoldable pub find_collaborators : List Bytes → Bool → Collaborators → Exec (ℕ ⊎ Collaborators)
  unfolding one_key
  find_collaborators [] trusted collab_keys = pure (inr collab_keys)
  find_collaborators (arg ∷ args) trusted collab_keys = do
    keys ← gpg_lookup_key arg
    found ← one_key arg trusted collab_keys keys
    elim found [ inl status ↦ pure (inl status) | inr more ↦ find_collaborators args trusted more ]

  state_gitattributes : Bytes
  state_gitattributes =
      codes
        "# Do not edit this file.  To specify the files to encrypt, create your own\n# .gitattributes file in the directory where your files are.\n* !filter !diff\n*.gpg binary\n"

  -- The .gitattributes file of the state directory, if it is not there: the new files, or the end.
  unfoldable pub protect_state : Bytes → List Bytes → Exec (ℕ ⊎ List Bytes)
  unfolding state_gitattributes
  protect_state path new_files = do
    errno ← ask (H.access path)
    if errno == 0 then pure (inr new_files) else (do
      written ← call (H.write_output path state_gitattributes)
      if written
          then pure (inr (new_files ++ (path ∷ [])))
          else (do log (codes "Error: unable to write " ++ path); pure (inl 1)))

  -- The lines on the new collaborators, in the commit message.
  unfoldable pub collaborator_lines : Collaborators → Exec Bytes
  collaborator_lines [] = pure []
  collaborator_lines ((fingerprint, trusted) ∷ collab_keys) = do
    uid ← gpg_get_uid fingerprint
    more ← collaborator_lines collab_keys
    pure (codes "    " ++ (fingerprint ++ (codes "\n        " ++ (uid ++ (codes "\n" ++ more)))))

  unfoldable pub commit_message : Collaborators → Exec Bytes
  unfolding collaborator_lines
  commit_message collab_keys = do
    described ← collaborator_lines collab_keys
    pure (
        codes "Add "
        ++ (decimal (length collab_keys)
            ++ (codes " git-crypt collaborator"
                ++ ((if not (length collab_keys == 1) then codes "s" else [])
                    ++ (codes "\n\nNew collaborators:\n\n" ++ described)))))

  -- `git add`, and `git commit` unless it is turned off.
  unfoldable pub commit_files : List Bytes → Bool → Collaborators → Exec ℕ
  unfolding commit_message
  commit_files new_files no_commit collab_keys = do
    added ← exec_command (codes "git" ∷ (codes "add" ∷ (codes "--" ∷ new_files)))
    if not (successful_exit added)
        then (do log (codes "Error: 'git add' failed"); pure 1)
        else if no_commit
        then pure 0
        else (do
          message ← commit_message collab_keys
          committed ←
              exec_command (
                codes "git"
                ∷ (codes "commit" ∷ (codes "-m" ∷ (message ∷ (codes "--" ∷ new_files)))))
          if successful_exit committed
              then pure 0
              else (do log (codes "Error: 'git commit' failed"); pure 1))

  -- Encrypting the latest key to the collaborators.
  unfoldable pub add_collaborators : Option Bytes → Bool → Collaborators → Option Entry → Exec ℕ
  unfolding protect_state commit_files encrypt_repo_key
  add_collaborators key_name no_commit collab_keys none = do
    log (codes "Error: key file is empty")
    pure 1
  add_collaborators key_name no_commit collab_keys (some key) = do
    state_path ← get_repo_state_path
    encrypted ← encrypt_repo_key key_name key collab_keys (get_repo_keys_path state_path) []
    protected ← protect_state (state_path ++ codes "/.gitattributes") encrypted
    elim protected [
      | inl status ↦ pure status
      | inr new_files ↦
          if is_nil new_files then pure 0 else commit_files new_files no_commit collab_keys
    ]

  unfoldable pub add_gpg_user : List Bytes → Exec ℕ
  unfolding find_collaborators add_collaborators log_lines
  add_gpg_user args = do
    (settings, rest) ← lift (parse_options add_gpg_user_options args)
    if length rest == 0
        then (do log (codes "Error: no GPG user ID specified"); log_lines help_add_gpg_user; pure 2)
        else (do
          found ← find_collaborators rest (flag 2 settings) []
          elim found [
            | inl status ↦ pure status
            | inr collab_keys ↦ (do
              key_file ← load_key (value_of 0 settings) none none
              key ← lift (get_latest key_file)
              add_collaborators (value_of 0 settings) (flag 1 settings) collab_keys key)
          ])

  pub rm_gpg_user : List Bytes → Exec ℕ
  rm_gpg_user args = do log (codes "Error: rm-gpg-user is not yet implemented."); pure 1

  pub ls_gpg_users : List Bytes → Exec ℕ
  ls_gpg_users args = do log (codes "Error: ls-gpg-users is not yet implemented."); pure 1

  pub refresh : List Bytes → Exec ℕ
  refresh args = do log (codes "Error: refresh is not yet implemented."); pure 1
