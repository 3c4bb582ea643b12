-- ===== src/Commands/Keys.antt =====
-- commands.cpp: `init`, `export-key`, `keygen` and `migrate-key`.
use git_crypt.Base.{
  ℕ, not, ◌&&◌, Option, none, some, List, [], ◌∷◌, ◌++◌, Bytes, codes, length, equal, ◌==◌,
  if◌then◌else◌,
}
use git_crypt.Base.Results.{Exception, malformed, ok}
use git_crypt.Host.{Host}
use git_crypt.Exec.{Exec, ◌>>=◌, ◌>>◌, pure, throw, lift, ask, catch, put_out, log, skip}
use git_crypt.Exec.System.{mkdir_parent}
use git_crypt.KeyFile.{KeyFile, new_key_file, set_key_name}
use git_crypt.KeyFormat.{load_legacy, store}
use git_crypt.Options.{OptionsList, value_option, value_of, parse_options}
use git_crypt.Git.Config.{configure_git_filters}
use git_crypt.Git.Paths.{get_internal_key_path}
use git_crypt.Plumbing.{is_legacy, get_arg, load_key}
use git_crypt.KeyStore.{generate, store_to_file}
use git_crypt.Commands.Repo.{validate_key_name_or_throw}
use git_crypt.Commands.Unlock.{unlock}
use git_crypt.Commands.Help.{log_lines, help_init, help_export_key, help_keygen, help_migrate_key}

abbrev pub key_name_options : OptionsList
key_name_options = value_option (codes "-k") 0 ∷ (value_option (codes "--key-name") 0 ∷ [])

module _ ⦃H : Host⦄ where
  -- `Error: path: unable to write key file`
  abbrev pub unable_to_write : Bytes → Exec (Unit {0})
  unable_to_write path = log (codes "Error: " ++ (path ++ codes ": unable to write key file"))

  -- The rest of `init`, once the key name is parsed.
  unfoldable pub init_with : Option Bytes → Exec ℕ
  unfolding validate_key_name_or_throw generate store_to_file
  init_with key_name = do
    (elim key_name [ none ↦ skip | some name ↦ validate_key_name_or_throw name ])
    internal_key_path ← get_internal_key_path key_name
    errno ← ask (H.access internal_key_path)
    if errno == 0
        then (do
          log (codes "Error: this repository has already been initialized with git-crypt.")
          pure 1)
        else (do
          log (codes "Generating key...")
          key_file ← generate (set_key_name new_key_file key_name)
          mkdir_parent internal_key_path
          stored ← store_to_file key_file internal_key_path
          if stored
              then (do configure_git_filters key_name; pure 0)
              else (do unable_to_write internal_key_path; pure 1))

  unfoldable pub init : List Bytes → Exec ℕ
  unfolding init_with log_lines unlock
  init args = do
    (settings, rest) ← lift (parse_options key_name_options args)
    let key_name = value_of 0 settings
    if is_legacy key_name none rest 1
        then (do
          log (codes "Warning: 'git-crypt init' with a key file is deprecated as of git-crypt 0.4")
          log (codes "and will be removed in a future release. Please get in the habit of using")
          log (codes "'git-crypt unlock KEYFILE' instead.")
          unlock args)
        else if not (length rest == 0)
        then (do
          log (codes "Error: git-crypt init takes no arguments")
          log_lines help_init
          pure 2)
        else init_with key_name

  -- A key file to the standard output for "-", or to a file.
  unfoldable pub write_key_file : KeyFile → Bytes → Exec ℕ
  unfolding store_to_file
  write_key_file key_file name =
      if equal name (codes "-") then (do put_out (store key_file); pure 0) else (do
        stored ← store_to_file key_file name
        if stored then pure 0 else (do unable_to_write name; pure 1))

  unfoldable pub export_key : List Bytes → Exec ℕ
  unfolding write_key_file log_lines
  export_key args = do
    (settings, rest) ← lift (parse_options key_name_options args)
    if not (length rest == 1)
        then (do log (codes "Error: no filename specified"); log_lines help_export_key; pure 2)
        else (do
          key_file ← load_key (value_of 0 settings) none none
          write_key_file key_file (get_arg rest))

  -- `keygen` with its one argument.
  unfoldable pub keygen_to : Bytes → Exec ℕ
  unfolding generate write_key_file
  keygen_to key_file_name = do
    errno ← ask (H.access key_file_name)
    if not (equal key_file_name (codes "-")) && errno == 0
        then (do log (key_file_name ++ codes ": File already exists"); pure 1)
        else (do
          log (codes "Generating key...")
          key_file ← generate new_key_file
          write_key_file key_file key_file_name)

  unfoldable pub keygen : List Bytes → Exec ℕ
  unfolding keygen_to log_lines
  keygen (key_file_name ∷ []) = keygen_to key_file_name
  keygen args = do log (codes "Error: no filename specified"); log_lines help_keygen; pure 2

  -- `catch (Key_file::Malformed)`
  not_a_legacy_key : Bytes → Exception → Exec ℕ
  not_a_legacy_key key_file_name malformed = do
    log (codes "Error: " ++ (key_file_name ++ codes ": not a valid legacy git-crypt key file"))
    pure 1
  not_a_legacy_key key_file_name e = throw e

  -- The `try` block of `migrate_key`.
  unfoldable pub migrate_from : Bytes → Bytes → Exec ℕ
  unfolding write_key_file
  migrate_from key_file_name new_key_file_name =
      if equal key_file_name (codes "-")
      then (do
        contents ← (λ w. (ok w.cin, w))
        key_file ← lift (load_legacy contents)
        write_key_file key_file new_key_file_name)
      else (do
        found ← ask (H.open_input key_file_name)
        elim found [
          | none ↦ (do
            log (codes "Error: " ++ (key_file_name ++ codes ": unable to open for reading"))
            pure 1)
          | some contents ↦ (do
            key_file ← lift (load_legacy contents)
            write_key_file key_file new_key_file_name)
        ])

  unfoldable pub migrate_key : List Bytes → Exec ℕ
  unfolding catch not_a_legacy_key migrate_from log_lines
  migrate_key (key_file_name ∷ (new_key_file_name ∷ [])) =
      catch (migrate_from key_file_name new_key_file_name) (not_a_legacy_key key_file_name)
  migrate_key args = do
    log (codes "Error: filenames not specified")
    log_lines help_migrate_key
    pure 2
