-- ===== src/Smudge.antt =====
-- commands.cpp: `smudge` and `diff`, which git runs to decrypt a file.
pub mod RoundTrip
pub mod Plain
use git_crypt.Base.{
  ℕ, zero, suc, ◌+◌, ◌-◌, ◌*◌, ◌/◌, ◌%◌, ◌^◌, ◌≤◌, ◌<◌, ◌≡◌, refl, sym, ap, ◌∙◌, ◌≢◌, ◌↔◌, ◌⊎◌, inl,
  inr, Bool, true, false, not, ◌&&◌, ◌||◌, Option, none, some, List, [], ◌∷◌, ◌++◌, append_assoc,
  append-nil, Bytes, IsByte, codes, All, All-append, length, take, drop, get_or, replicate, equal,
  equal_iff, equal_refl, ◌==◌, ltb, leb, if◌then◌else◌, arith, Bool-cases, Option-cases, ==_iff,
  length-append, length-take, length-drop, take-append-drop, take_of_le, drop_of_le, take-append,
  drop-append, bit_or, bit_xor, bit_and, map, ==_refl, any_byte, is_nil, decimal,
}
use git_crypt.Base.Results.{
  Exception, error, gpg_error, system_error, crypto_error, option_error, incompatible, malformed,
  invalid_argument, logic_error, Result, ok, err, stuck,
}
use git_crypt.Host.{Host}
use git_crypt.Exec.{
  World, Exec, continue, ◌>>=◌, ◌>>◌, pure, throw, lift, ask, call, catch, put_out, log, put_line,
  skip, when,
}
use git_crypt.Base.Streams.{get_line, skip_space, read_word, atoi, strtoul_octal}
use git_crypt.Exec.System.{
  exit_status, successful_exit, touch_file, remove_file, create_protected_file, mkdir_parent,
  get_directory_contents, our_exe_path, open_temp_file, random_bytes, enoent,
}
use git_crypt.Exec.Process.{exec_command, exec_command_output, exec_command_with_input}
use git_crypt.Util.{leakless_equals}
use git_crypt.KeyFile.{
  KeyFile, Entry, get, get_latest, new_key_file, get_key_name, set_key_name, add, validate_key_name,
  Verdict, valid, invalid, hmac_key_len,
}
use git_crypt.KeyFormat.{load, load_legacy, store}
use git_crypt.Crypto.{
  OpenSsl, nonce_len, max_crypt_bytes, CtrEncryptor, ctr_encryptor, process, HmacState, hmac_state,
  hmac_add, hmac_get,
}
use git_crypt.Options.{
  OptionsList, Settings, flag_option, value_option, flag, value_of, parse_options,
}
use git_crypt.Git.Config.{
  attribute_name, make_version, version_less, must_run, must_output, git_version, git_config,
  git_has_config, git_deconfig, get_git_config, configure_git_filters, deconfigure_git_filters,
  or_else,
}
use git_crypt.Git.Paths.{
  git_checkout, get_internal_key_path, get_internal_keys_path, get_repo_state_path,
  get_repo_keys_path, get_path_to_top, get_git_status, key_name_or_default,
}
use git_crypt.Git.Attributes.{
  encrypted_magic, get_encrypted_files, get_file_attributes, check_if_blob_is_encrypted,
  check_if_file_is_encrypted, is_git_file_mode,
}
use git_crypt.Plumbing.{header_len, parse_plumbing_options, is_legacy, get_arg, load_key}

module _ ⦃H : Host⦄ where
  -- The loop of `decrypt_file_to_stdout`, with the HMAC of what was decrypted.
  unfoldable pub decrypt_out :
      ℕ → Bytes → CtrEncryptor H.openssl → HmacState H.openssl → Exec (HmacState H.openssl)
  decrypt_out zero input aes hmac = lift stuck
  decrypt_out (suc fuel) input aes hmac = do
    (buffer, aes') ← lift (process H.openssl (take 1024 input) aes)
    put_out buffer
    elim (length (take 1024 input) == 1024) [
      | true ↦ decrypt_out fuel (drop 1024 input) aes' (hmac_add H.openssl hmac buffer)
      | false ↦ pure (hmac_add H.openssl hmac buffer)
    ]

  -- `decrypt_file_to_stdout` once the key was looked up.
  unfoldable pub decrypt_keyed : Option Entry → Bytes → Bytes → Exec ℕ
  unfolding decrypt_out
  decrypt_keyed none nonce input = do
    log (
        codes
          "git-crypt: error: key version 0 not available - please unlock with the latest version of the key.")
    pure 1
  decrypt_keyed (some key) nonce input = do
    aes ← lift (ctr_encryptor H.openssl key.aes_key nonce)
    hmac ← decrypt_out (suc (length input)) input aes (hmac_state H.openssl key.hmac_key)
    if leakless_equals (hmac_get H.openssl hmac) nonce nonce_len
        then pure 0
        else (do log (codes "git-crypt: error: encrypted file has been tampered with!"); pure 1)

  -- The key version is 0: the header does not hold it.
  unfoldable pub decrypt_file_to_stdout : KeyFile → Bytes → Bytes → Exec ℕ
  unfolding decrypt_keyed
  decrypt_file_to_stdout key_file header input =
      decrypt_keyed (get key_file 0) (drop 10 header) input

  not_encrypted_warning : Bytes
  not_encrypted_warning =
      codes
        "git-crypt: Warning: file not encrypted\ngit-crypt: Run 'git-crypt status' to make sure all files are properly encrypted.\ngit-crypt: If 'git-crypt status' reports no problems, then an older version of\ngit-crypt: this file may be unencrypted in the repository's history.  If this\ngit-crypt: file contains sensitive information, you can use 'git filter-branch'\ngit-crypt: to remove its old versions from the history."

  -- The header of an encrypted file is there.
  unfoldable pub has_header : Bytes → Bool
  has_header input =
      length (take header_len input) == header_len
      && equal (take 10 (take header_len input)) encrypted_magic

  -- `smudge` from where the key file is loaded.
  unfoldable pub smudge_with : KeyFile → Exec ℕ
  unfolding has_header not_encrypted_warning decrypt_file_to_stdout
  smudge_with key_file w =
      (if has_header w.cin
          then decrypt_file_to_stdout key_file (take header_len w.cin) (drop header_len w.cin)
          else (do
            log not_encrypted_warning
            put_out (take header_len w.cin)
            put_out (drop header_len w.cin)
            pure 0))
        w

  -- Decrypt contents of stdin and write to stdout
  unfoldable pub smudge : List Bytes → Exec ℕ
  unfolding parse_plumbing_options load_key smudge_with
  smudge args = do
    (key_name, key_path, rest) ← lift (parse_plumbing_options args)
    let legacy = is_legacy key_name key_path rest 1
    if is_nil rest || legacy
        then (do
          key_file ← load_key key_name key_path (if legacy then some (get_arg rest) else none)
          smudge_with key_file)
        else (do log (codes "Usage: git-crypt smudge [--key-name=NAME] [--key-file=PATH]"); pure 2)

  -- `diff` from where the key file is loaded.
  unfoldable pub diff_with : KeyFile → Bytes → Exec ℕ
  unfolding has_header decrypt_file_to_stdout
  diff_with key_file filename = do
    found ← ask (H.open_input filename)
    elim found [
      | none ↦ (do
        log (codes "git-crypt: " ++ (filename ++ codes ": unable to open for reading"))
        pure 1)
      | some input ↦
          if has_header input
          then decrypt_file_to_stdout key_file (take header_len input) (drop header_len input)
          else (do put_out (take header_len input); put_out (drop header_len input); pure 0)
    ]

  unfoldable pub diff : List Bytes → Exec ℕ
  unfolding parse_plumbing_options load_key diff_with
  diff args = do
    (key_name, key_path, rest) ← lift (parse_plumbing_options args)
    let legacy = is_legacy key_name key_path rest 2
    if length rest == 1
        then (do key_file ← load_key key_name key_path none; diff_with key_file (get_arg rest))
        else if legacy
        then (do
          key_file ← load_key key_name key_path (some (get_arg rest))
          diff_with key_file (get_arg (drop 1 rest)))
        else (do
          log (codes "Usage: git-crypt diff [--key-name=NAME] [--key-file=PATH] FILENAME")
          pure 2)
