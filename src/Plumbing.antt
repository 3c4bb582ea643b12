-- ===== src/Plumbing.antt =====
-- commands.cpp: the options of the plumbing commands, and loading the key that they use.
use git_crypt.Base.{
  ℕ, ◌+◌, Bool, false, Option, none, some, List, [], ◌∷◌, ◌++◌, Bytes, codes, length, ◌==◌,
}
use git_crypt.Base.Results.{error, Result, ok, err, stuck}
use git_crypt.Host.{Host}
use git_crypt.Exec.{Exec, ◌>>=◌, pure, throw, lift, ask}
use git_crypt.KeyFile.{KeyFile}
use git_crypt.KeyFormat.{load, load_legacy}
use git_crypt.Crypto.{nonce_len}
use git_crypt.Options.{OptionsList, value_option, value_of, parse_options}
use git_crypt.Git.Paths.{get_internal_key_path}

-- The header of an encrypted file: ten bytes of magic and the nonce.
abbrev pub header_len : ℕ
header_len = 10 + nonce_len

-- Slots of the options of the plumbing commands.
abbrev pub key_name_slot : ℕ
key_name_slot = 0

abbrev pub key_file_slot : ℕ
key_file_slot = 1

abbrev pub plumbing_options : OptionsList
plumbing_options =
    value_option (codes "-k") key_name_slot
    ∷ (value_option (codes "--key-name") key_name_slot
        ∷ (value_option (codes "--key-file") key_file_slot ∷ []))

-- The key name, the key path and the arguments that are left.
unfoldable pub parse_plumbing_options :
    List Bytes → Result (Option Bytes × Option Bytes × List Bytes)
unfolding value_of
parse_plumbing_options args = elim (parse_options plumbing_options args) [
  | ok (settings, rest) ↦
      ok (value_of key_name_slot settings, value_of key_file_slot settings, rest)
  | err e ↦ err e
  | stuck ↦ stuck
]

-- `!key_name && !key_path && argc - argi == n`
abbrev pub is_legacy : Option Bytes → Option Bytes → List Bytes → ℕ → Bool
is_legacy none none rest n = length rest == n
is_legacy _ _ rest n = false

-- `argv[argi]`, where there is one.
abbrev pub get_arg : List Bytes → Bytes
get_arg [] = []
get_arg (arg ∷ rest) = arg

module _ ⦃H : Host⦄ where
  -- `if (!key_file_in) { throw Error(message); }`
  abbrev opened : Option Bytes → Bytes → Exec Bytes
  opened none message = throw (error message)
  opened (some contents) message = pure contents

  -- `load_key` into a fresh key file.
  unfoldable pub load_key : Option Bytes → Option Bytes → Option Bytes → Exec KeyFile
  load_key key_name key_path (some legacy_path) = do
    found ← ask (H.open_input legacy_path)
    contents ← opened found (codes "Unable to open key file: " ++ legacy_path)
    lift (load_legacy contents)
  load_key key_name (some key_path) none = do
    found ← ask (H.open_input key_path)
    contents ← opened found (codes "Unable to open key file: " ++ key_path)
    lift (load contents)
  load_key key_name none none = do
    path ← get_internal_key_path key_name
    found ← ask (H.open_input path)
    contents ←
        opened found
          (codes "Unable to open key file - have you unlocked/initialized this repository yet?")
    lift (load contents)
