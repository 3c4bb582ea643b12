-- ===== src/Main.antt =====
-- git-crypt.cpp: the program.
pub mod Statuses
use git_crypt.Base.{
  ℕ, ◌⊎◌, inl, inr, not, Option, none, some, List, [], ◌∷◌, ◌++◌, Bytes, codes, get_or, equal, ◌==◌,
  if◌then◌else◌, is_nil,
}
use git_crypt.Base.Results.{
  Exception, error, gpg_error, system_error, crypto_error, option_error, incompatible, malformed,
  ok,
}
use git_crypt.Host.{Host}
use git_crypt.Exec.{Exec, ◌>>=◌, ◌>>◌, pure, throw, catch, log, put_line, skip}
use git_crypt.Commands.Help.{
  log_lines, print_lines, help_init, help_unlock, help_lock, help_add_gpg_user, help_rm_gpg_user,
  help_ls_gpg_users, help_export_key, help_keygen, help_migrate_key, help_refresh, help_status,
}
use git_crypt.Commands.Keys.{init, export_key, keygen, migrate_key}
use git_crypt.Commands.Unlock.{unlock}
use git_crypt.Commands.Lock.{lock}
use git_crypt.Commands.AddUser.{add_gpg_user, rm_gpg_user, ls_gpg_users, refresh}
use git_crypt.Commands.Status.{status}
use git_crypt.Clean.{clean}
use git_crypt.Smudge.{smudge, diff}

abbrev pub usage : Bytes → List Bytes
usage argv0 =
    (codes "Usage: " ++ (argv0 ++ codes " COMMAND [ARGS ...]"))
    ∷ ([]
        ∷ (codes "Common commands:"
            ∷ (codes "  init                 generate a key and prepare repo to use git-crypt"
                ∷ (codes "  status               display which files are encrypted"
                    ∷ (codes
                          "  lock                 de-configure git-crypt and re-encrypt files in work tree"
                        ∷ ([]
                            ∷ (codes "GPG commands:"
                                ∷ (codes
                                      "  add-gpg-user USERID  add the user with the given GPG user ID as a collaborator"
                                    ∷ (codes
                                          "  unlock               decrypt this repo using the in-repo GPG-encrypted key"
                                        ∷ ([]
                                            ∷ (codes "Symmetric key commands:"
                                                ∷ (codes
                                                      "  export-key FILE      export this repo's symmetric key to the given file"
                                                    ∷ (codes
                                                          "  unlock KEYFILE       decrypt this repo using the given symmetric key"
                                                        ∷ ([]
                                                            ∷ (codes "Legacy commands:"
                                                            ∷ (codes
                                                            "  init KEYFILE         alias for 'unlock KEYFILE'"
                                                            ∷ (codes
                                                            "  keygen KEYFILE       generate a git-crypt key in the given file"
                                                            ∷ (codes
                                                            "  migrate-key OLD NEW  migrate the legacy key file OLD to the new format in NEW"
                                                            ∷ ([]
                                                            ∷ (codes
                                                            "See 'git-crypt help COMMAND' for more information on a specific command."
                                                            ∷ []))))))))))))))))))))

-- `help_for_command`: the text, if there is one.
unfoldable pub help_for_command : Bytes → Option (List Bytes)
help_for_command command =
    if equal command (codes "init")
    then some help_init
    else if equal command (codes "unlock")
    then some help_unlock
    else if equal command (codes "lock")
    then some help_lock
    else if equal command (codes "add-gpg-user")
    then some help_add_gpg_user
    else if equal command (codes "rm-gpg-user")
    then some help_rm_gpg_user
    else if equal command (codes "ls-gpg-users")
    then some help_ls_gpg_users
    else if equal command (codes "export-key")
    then some help_export_key
    else if equal command (codes "keygen")
    then some help_keygen
    else if equal command (codes "migrate-key")
    then some help_migrate_key
    else if equal command (codes "refresh")
    then some help_refresh
    else if equal command (codes "status")
    then some help_status
    else none

-- `System_error::message`
unfoldable pub message : (ℕ → Bytes) → Bytes → Bytes → ℕ → Bytes
message strerror action target errno =
    action
    ++ ((if not (is_nil target) then codes ": " ++ target else [])
        ++ (if not (errno == 0) then codes ": " ++ strerror errno else []))

-- `print_version`, with VERSION.
abbrev pub version_line : Bytes
version_line = codes "git-crypt 0.8.0"

module _ ⦃H : Host⦄ where
  abbrev own_name : Exec Bytes
  own_name w = (ok w.argv0, w)

  -- `print_usage` to `std::clog`.
  unfoldable pub print_usage : Exec (Unit {0})
  unfolding log_lines
  print_usage w = log_lines (usage w.argv0) w

  unfoldable pub help : List Bytes → Exec ℕ
  unfolding print_lines help_for_command
  help [] = do name ← own_name; print_lines (usage name); pure 0
  help (command ∷ args) = elim (help_for_command command) [
    | some text ↦ (do print_lines text; pure 0)
    | none ↦ (do
      log (
          codes "Error: '"
          ++ (command ++ codes "' is not a git-crypt command. See 'git-crypt help'."))
      pure 1)
  ]

  pub version : List Bytes → Exec ℕ
  version args = do put_line version_line; pure 0

  -- `if (help_for_command(command, std::clog))`
  help_to_log : Option (List Bytes) → Exec (Unit {0})
  unfolding log_lines
  help_to_log none = skip
  help_to_log (some text) = log_lines text

  -- `catch (const Option_error&)`
  pub option_mistake : Bytes → Exception → Exec ℕ
  unfolding help_to_log help_for_command
  option_mistake command (option_error name message) = do
    log (codes "git-crypt: Error: " ++ (name ++ (codes ": " ++ message)))
    help_to_log (help_for_command command)
    pure 2
  option_mistake command e = throw e

  -- The chain of `strcmp` that passes a command off to its handler.
  unfoldable pub handler : Bytes → List Bytes → Option (Exec ℕ)
  handler command args =
      if equal command (codes "help")
      then some (help args)
      else if equal command (codes "version")
      then some (version args)
      else if equal command (codes "init")
      then some (init args)
      else if equal command (codes "unlock")
      then some (unlock args)
      else if equal command (codes "lock")
      then some (lock args)
      else if equal command (codes "add-gpg-user")
      then some (add_gpg_user args)
      else if equal command (codes "rm-gpg-user")
      then some (rm_gpg_user args)
      else if equal command (codes "ls-gpg-users")
      then some (ls_gpg_users args)
      else if equal command (codes "export-key")
      then some (export_key args)
      else if equal command (codes "keygen")
      then some (keygen args)
      else if equal command (codes "migrate-key")
      then some (migrate_key args)
      else if equal command (codes "refresh")
      then some (refresh args)
      else if equal command (codes "status")
      then some (status args)
      else if equal command (codes "clean")
      then some (clean args)
      else if equal command (codes "smudge")
      then some (smudge args)
      else if equal command (codes "diff")
      then some (diff args)
      else none

  -- The commands, once the options are passed.
  unfoldable pub run_command : Bytes → List Bytes → Exec ℕ
  run_command command args = elim (handler command args) [
    | some run ↦ catch run (option_mistake command)
    | none ↦ (do
      log (
          codes "Error: '"
          ++ (command ++ codes "' is not a git-crypt command. See 'git-crypt help'."))
      pure 2)
  ]

  -- The options before the command: the status that they end the program with, or what is left.
  unfoldable pub global_options : List Bytes → Exec (ℕ ⊎ List Bytes)
  unfolding print_usage log_lines
  global_options [] = pure (inr [])
  global_options (arg ∷ args) =
      if not (get_or arg 0 0 == b'-')
      then pure (inr (arg ∷ args))
      else if equal arg (codes "--help")
      then (do print_usage; pure (inl 0))
      else if equal arg (codes "--version")
      then (do log version_line; pure (inl 0))
      else if equal arg (codes "--")
      then pure (inr args)
      else (do
        name ← own_name
        log (name ++ (codes ": " ++ (arg ++ codes ": Unknown option")))
        print_usage
        pure (inl 2))

  unfoldable pub command_line : List Bytes → Exec ℕ
  unfolding run_command print_usage
  command_line [] = do print_usage; pure 2
  command_line (command ∷ args) = run_command command args

  -- The handlers of `main`: the two exceptions that it does not name go on to the runtime.
  unfoldable pub last_handler : Exception → Exec ℕ
  last_handler (error message) = do log (codes "git-crypt: Error: " ++ message); pure 1
  last_handler (gpg_error message) = do log (codes "git-crypt: GPG error: " ++ message); pure 1
  last_handler (system_error action target errno) = do
    log (codes "git-crypt: System error: " ++ message H.strerror action target errno)
    pure 1
  last_handler (crypto_error place message) = do
    log (codes "git-crypt: Crypto error: " ++ (place ++ (codes ": " ++ message)))
    pure 1
  last_handler incompatible = do
    log (
        codes
          "git-crypt: This repository contains a incompatible key file.  Please upgrade git-crypt.")
    pure 1
  last_handler malformed = do
    log (codes "git-crypt: This repository contains a malformed key file.  It may be corrupted.")
    pure 1
  last_handler e = throw e

  -- `main`, with the arguments after `argv[0]`.
  unfoldable pub main : List Bytes → Exec ℕ
  unfolding global_options command_line last_handler catch
  main args =
      catch
        (do
          found ← global_options args
          elim found [ inl status ↦ pure status | inr rest ↦ command_line rest ])
        last_handler
