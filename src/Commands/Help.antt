-- ===== src/Commands/Help.antt =====
-- commands.cpp: the help texts.
use git_crypt.Base.{List, [], ◌∷◌, Bytes, codes}
use git_crypt.Host.{Host}
use git_crypt.Exec.{Exec, ◌>>◌, log, put_line, skip}

-- The lines of the help texts.
abbrev pub help_init : List Bytes
help_init =
    codes "Usage: git-crypt init [OPTIONS]"
    ∷ ([]
        ∷ (codes "    -k, --key-name KEYNAME      Initialize the given key, instead of the default"
            ∷ ([] ∷ [])))

abbrev pub help_unlock : List Bytes
help_unlock = codes "Usage: git-crypt unlock" ∷ (codes "   or: git-crypt unlock KEY_FILE ..." ∷ [])

abbrev pub help_lock : List Bytes
help_lock =
    codes "Usage: git-crypt lock [OPTIONS]"
    ∷ ([]
        ∷ (codes "    -a, --all                Lock all keys, instead of just the default"
            ∷ (codes "    -k, --key-name KEYNAME   Lock the given key, instead of the default"
                ∷ (codes
                      "    -f, --force              Lock even if unclean (you may lose uncommited work)"
                    ∷ ([] ∷ [])))))

abbrev pub help_add_gpg_user : List Bytes
help_add_gpg_user =
    codes "Usage: git-crypt add-gpg-user [OPTIONS] GPG_USER_ID ..."
    ∷ ([]
        ∷ (codes "    -k, --key-name KEYNAME      Add GPG user to given key, instead of default"
            ∷ (codes "    -n, --no-commit             Don't automatically commit"
                ∷ (codes "    --trusted                   Assume the GPG user IDs are trusted"
                    ∷ ([] ∷ [])))))

abbrev pub help_rm_gpg_user : List Bytes
help_rm_gpg_user =
    codes "Usage: git-crypt rm-gpg-user [OPTIONS] GPG_USER_ID ..."
    ∷ ([]
        ∷ (codes "    -k, --key-name KEYNAME      Remove user from given key, instead of default"
            ∷ (codes "    -n, --no-commit             Don't automatically commit" ∷ ([] ∷ []))))

abbrev pub help_ls_gpg_users : List Bytes
help_ls_gpg_users = codes "Usage: git-crypt ls-gpg-users" ∷ []

abbrev pub help_export_key : List Bytes
help_export_key =
    codes "Usage: git-crypt export-key [OPTIONS] FILENAME"
    ∷ ([]
        ∷ (codes "    -k, --key-name KEYNAME      Export the given key, instead of the default"
            ∷ ([] ∷ (codes "When FILENAME is -, export to standard out." ∷ []))))

abbrev pub help_keygen : List Bytes
help_keygen =
    codes "Usage: git-crypt keygen FILENAME"
    ∷ ([] ∷ (codes "When FILENAME is -, write to standard out." ∷ []))

abbrev pub help_migrate_key : List Bytes
help_migrate_key =
    codes "Usage: git-crypt migrate-key OLDFILENAME NEWFILENAME"
    ∷ ([] ∷ (codes "Use - to read from standard in/write to standard out." ∷ []))

abbrev pub help_refresh : List Bytes
help_refresh = codes "Usage: git-crypt refresh" ∷ []

abbrev pub help_status : List Bytes
help_status =
    codes "Usage: git-crypt status [OPTIONS] [FILE ...]"
    ∷ ([]
        ∷ (codes "    -e             Show encrypted files only"
            ∷ (codes "    -u             Show unencrypted files only"
                ∷ (codes "    -f, --fix      Fix problems with the repository" ∷ ([] ∷ [])))))

module _ ⦃H : Host⦄ where
  -- A text to `std::clog`, and one to `std::cout`.
  unfoldable pub log_lines : List Bytes → Exec (Unit {0})
  log_lines [] = skip
  log_lines (line ∷ lines) = do log line; log_lines lines

  unfoldable pub print_lines : List Bytes → Exec (Unit {0})
  print_lines [] = skip
  print_lines (line ∷ lines) = do put_line line; print_lines lines
