-- ===== src/Commands/Unlock.antt =====
-- commands.cpp: `unlock`.
use git_crypt.Base.{
  ℕ, ◌⊎◌, inl, inr, not, none, some, List, [], ◌∷◌, ◌++◌, Bytes, codes, equal, if◌then◌else◌,
  is_nil,
}
use git_crypt.Base.Results.{Exception, incompatible, malformed}
use git_crypt.Host.{Host}
use git_crypt.Exec.{Exec, ◌>>=◌, ◌>>◌, pure, throw, catch, log, skip}
use git_crypt.Exec.System.{touch_file, mkdir_parent}
use git_crypt.KeyFile.{KeyFile, get_key_name}
use git_crypt.KeyFormat.{load}
use git_crypt.Git.Config.{configure_git_filters}
use git_crypt.Git.Paths.{
  git_checkout, get_internal_key_path, get_repo_state_path, get_repo_keys_path, get_git_status,
}
use git_crypt.Git.Attributes.{get_encrypted_files}
use git_crypt.KeyStore.{load_from_file, store_to_file}
use git_crypt.Gpg.Run.{gpg_list_secret_keys}
use git_crypt.Commands.Repo.{decrypt_repo_keys}
use git_crypt.Commands.Help.{log_lines}

module _ ⦃H : Host⦄ where
  -- `key_file.load(std::cin)`, which reads to the end.
  unfoldable pub load_from_stdin : Exec KeyFile
  load_from_stdin w = (load w.cin, record w { cin = [] })

  -- The handlers of `Key_file::Incompatible` and `Key_file::Malformed`, which end the command.
  unreadable_key : Bytes → Exception → Exec (ℕ ⊎ KeyFile)
  unfolding log_lines
  unreadable_key name incompatible = do
    log (codes "Error: " ++ (name ++ codes " is in an incompatible format"))
    log (codes "Please upgrade to a newer version of git-crypt.")
    pure (inl 1)
  unreadable_key name malformed = do
    log (codes "Error: " ++ (name ++ codes ": not a valid git-crypt key file"))
    log (codes "If this key was created prior to git-crypt 0.4, you need to migrate it")
    log (codes "by running 'git-crypt migrate-key /path/to/old_key /path/to/migrated_key'.")
    pure (inl 1)
  unreadable_key name e = throw e

  -- The key file of one argument, or the status that the command ends with.
  unfoldable pub unlock_key : Bytes → Exec (ℕ ⊎ KeyFile)
  unfolding catch unreadable_key load_from_stdin load_from_file
  unlock_key name =
      catch
        (if equal name (codes "-") then (do k ← load_from_stdin; pure (inr k)) else (do
          found ← load_from_file name
          elim found [
            | none ↦ (do
              log (codes "Error: " ++ (name ++ codes ": unable to read key file"))
              pure (inl 1))
            | some k ↦ pure (inr k)
          ]))
        (unreadable_key name)

  unfoldable pub unlock_keys : List Bytes → List KeyFile → Exec (ℕ ⊎ List KeyFile)
  unfolding unlock_key
  unlock_keys [] key_files = pure (inr key_files)
  unlock_keys (name ∷ names) key_files = do
    found ← unlock_key name
    elim found [
      | inl status ↦ pure (inl status)
      | inr k ↦ unlock_keys names (key_files ++ (k ∷ []))
    ]

  -- The keys of the arguments, or those that GPG decrypts.
  unfoldable pub find_keys : List Bytes → Exec (ℕ ⊎ List KeyFile)
  unfolding unlock_keys
  find_keys (name ∷ names) = unlock_keys (name ∷ names) []
  find_keys [] = do
    state_path ← get_repo_state_path
    gpg_secret_keys ← gpg_list_secret_keys
    key_files ← decrypt_repo_keys 0 gpg_secret_keys (get_repo_keys_path state_path)
    if is_nil key_files
        then (do
          log (codes "Error: no GPG secret key available to unlock this repository.")
          log (
              codes
                "To unlock with a shared symmetric key instead, specify the path to the symmetric key as an argument to 'git-crypt unlock'.")
          pure (inl 1))
        else pure (inr key_files)

  -- Installing the keys, with the encrypted files so far.
  unfoldable pub install_keys : List KeyFile → List Bytes → Exec (ℕ ⊎ List Bytes)
  unfolding store_to_file
  install_keys [] encrypted_files = pure (inr encrypted_files)
  install_keys (k ∷ key_files) encrypted_files = do
    internal_key_path ← get_internal_key_path (get_key_name k)
    mkdir_parent internal_key_path
    stored ← store_to_file k internal_key_path
    if stored
        then (do
          configure_git_filters (get_key_name k)
          files ← get_encrypted_files encrypted_files (get_key_name k)
          install_keys key_files files)
        else (do
          log (codes "Error: " ++ (internal_key_path ++ codes ": unable to write key file"))
          pure (inl 1))

  unfoldable pub touch_files : List Bytes → Exec (Unit {0})
  touch_files [] = skip
  touch_files (file ∷ files) = do touch_file file; touch_files files

  -- Touching the files and checking them out, with the second line of the message if that fails.
  unfoldable pub check_out_again : List Bytes → Bytes → Exec ℕ
  unfolding touch_files
  check_out_again files message = do
    touch_files files
    checked_out ← git_checkout files
    if checked_out
        then pure 0
        else (do log (codes "Error: 'git checkout' failed"); log message; pure 1)

  unfoldable pub unlock : List Bytes → Exec ℕ
  unfolding find_keys install_keys check_out_again
  unlock args = do
    status_output ← get_git_status
    if not (is_nil status_output)
        then (do
          log (codes "Error: Working directory not clean.")
          log (
              codes
                "Please commit your changes or 'git stash' them before running 'git-crypt unlock'.")
          pure 1)
        else (do
          found ← find_keys args
          elim found [
            | inl status ↦ pure status
            | inr key_files ↦ (do
              installed ← install_keys key_files []
              elim installed [
                | inl status ↦ pure status
                | inr files ↦ check_out_again files (
                    codes
                      "git-crypt has been set up but existing encrypted files have not been decrypted")
              ])
          ])
