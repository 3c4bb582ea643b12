-- ===== src/Commands/Lock.antt =====
-- commands.cpp: `lock`.
use git_crypt.Base.{
  ℕ, Bool, true, false, not, ◌&&◌, Option, none, some, List, [], ◌∷◌, ◌++◌, Bytes, codes, length,
  equal, ◌==◌, if◌then◌else◌, is_nil,
}
use git_crypt.Host.{Host}
use git_crypt.Exec.{Exec, ◌>>=◌, ◌>>◌, pure, lift, ask, log}
use git_crypt.Exec.System.{remove_file, get_directory_contents, enoent}
use git_crypt.Options.{OptionsList, flag_option, value_option, flag, value_of, parse_options}
use git_crypt.Git.Config.{deconfigure_git_filters}
use git_crypt.Git.Paths.{get_internal_key_path, get_internal_keys_path, get_git_status}
use git_crypt.Git.Attributes.{get_encrypted_files}
use git_crypt.Commands.Unlock.{check_out_again}
use git_crypt.Commands.Help.{log_lines, help_lock}

abbrev pub lock_options : OptionsList
lock_options =
    value_option (codes "-k") 0
    ∷ (value_option (codes "--key-name") 0
        ∷ (flag_option (codes "-a") 1
            ∷ (flag_option (codes "--all") 1
                ∷ (flag_option (codes "-f") 2 ∷ (flag_option (codes "--force") 2 ∷ [])))))

module _ ⦃H : Host⦄ where
  -- `*dirent == "default" ? 0 : dirent->c_str()`
  abbrev dirent_key : Bytes → Option Bytes
  dirent_key dirent = if equal dirent (codes "default") then none else some dirent

  -- Removing one key and its filters; the encrypted files are added to those so far.
  unfoldable pub lock_key : Option Bytes → Bytes → List Bytes → Exec (List Bytes)
  lock_key key_name internal_key_path encrypted_files = do
    remove_file internal_key_path
    deconfigure_git_filters key_name
    get_encrypted_files encrypted_files key_name

  unfoldable pub lock_all : List Bytes → List Bytes → Exec (List Bytes)
  unfolding lock_key
  lock_all [] encrypted_files = pure encrypted_files
  lock_all (dirent ∷ dirents) encrypted_files = do
    path ← get_internal_key_path (dirent_key dirent)
    files ← lock_key (dirent_key dirent) path encrypted_files
    lock_all dirents files

  -- ` with key 'name'`
  with_key : Option Bytes → Bytes
  with_key none = []
  with_key (some key_name) = codes " with key '" ++ (key_name ++ codes "'")

  -- The rest of `lock`, once the working directory is known to be clean or force was given.
  unfoldable pub lock_clean : Option Bytes → Bool → Exec ℕ
  unfolding lock_all lock_key with_key check_out_again
  lock_clean key_name all_keys =
      let message =
        codes "git-crypt has been locked up but existing decrypted files have not been encrypted" in
      if all_keys
      then (do
        keys_path ← get_internal_keys_path
        dirents ← get_directory_contents keys_path
        encrypted_files ← lock_all dirents []
        check_out_again encrypted_files message)
      else (do
        internal_key_path ← get_internal_key_path key_name
        errno ← ask (H.access internal_key_path)
        if errno == enoent
            then (do
              log (
                  codes "Error: this repository is already locked"
                  ++ (with_key key_name ++ codes "."))
              pure 1)
            else (do
              encrypted_files ← lock_key key_name internal_key_path []
              check_out_again encrypted_files message))

  unfoldable pub lock_with : Option Bytes → Bool → Bool → Exec ℕ
  unfolding lock_clean
  lock_with key_name all_keys force = do
    status_output ← get_git_status
    if not force && not (is_nil status_output)
        then (do
          log (codes "Error: Working directory not clean.")
          log (
              codes
                "Please commit your changes or 'git stash' them before running 'git-crypt lock'.")
          log (codes "Or, use 'git-crypt lock --force' and possibly lose uncommitted changes.")
          pure 1)
        else lock_clean key_name all_keys

  -- `key_name != 0`
  abbrev pub is_given : Option Bytes → Bool
  is_given none = false
  is_given (some _) = true

  unfoldable pub lock : List Bytes → Exec ℕ
  unfolding lock_with log_lines
  lock args = do
    (settings, rest) ← lift (parse_options lock_options args)
    if not (length rest == 0)
        then (do
          log (codes "Error: git-crypt lock takes no arguments")
          log_lines help_lock
          pure 2)
        else if flag 1 settings && is_given (value_of 0 settings)
        then (do log (codes "Error: -k and --all options are mutually exclusive"); pure 2)
        else lock_with (value_of 0 settings) (flag 1 settings) (flag 2 settings)
