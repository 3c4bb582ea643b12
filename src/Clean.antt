-- ===== src/Clean.antt =====
-- commands.cpp: `clean`, which git runs to encrypt a file.
-- What is left of the standard input is not tracked: the program exits after it.
pub mod Reading
pub mod Output
pub mod Limits
use git_crypt.Base.{
  ℕ, zero, suc, ◌+◌, ◌-◌, ◌*◌, ◌/◌, ◌%◌, ◌^◌, ◌≤◌, ◌<◌, ◌≡◌, refl, sym, ap, ◌∙◌, ◌≢◌, ◌↔◌, ◌⊎◌, inl,
  inr, Bool, true, false, not, ◌&&◌, ◌||◌, Option, none, some, List, [], ◌∷◌, ◌++◌, append_assoc,
  append-nil, Bytes, IsByte, codes, All, All-append, length, take, drop, get_or, replicate, equal,
  equal_iff, equal_refl, ◌==◌, ltb, leb, if◌then◌else◌, arith, Bool-cases, Option-cases, ==_iff,
  length-append, length-take, length-drop, take-append-drop, take_of_le, drop_of_le, take-append,
  drop-append, bit_or, bit_xor, bit_and, map, ==_refl, any_byte, is_nil, decimal,
}
use git_crypt.Base.Results.{
  Exception, error, gpg_error, system_error, crypto_error, option_error, incompatible, malformed,
  invalid_argument, logic_error, Result, ok, err, stuck,
}
use git_crypt.Host.{Host}
use git_crypt.Exec.{
  World, Exec, continue, ◌>>=◌, ◌>>◌, pure, throw, lift, ask, call, catch, put_out, log, put_line,
  skip, when,
}
use git_crypt.Base.Streams.{get_line, skip_space, read_word, atoi, strtoul_octal}
use git_crypt.Exec.System.{
  exit_status, successful_exit, touch_file, remove_file, create_protected_file, mkdir_parent,
  get_directory_contents, our_exe_path, open_temp_file, random_bytes, enoent,
}
use git_crypt.Exec.Process.{exec_command, exec_command_output, exec_command_with_input}
use git_crypt.Util.{leakless_equals}
use git_crypt.KeyFile.{
  KeyFile, Entry, get, get_latest, new_key_file, get_key_name, set_key_name, add, validate_key_name,
  Verdict, valid, invalid, hmac_key_len,
}
use git_crypt.KeyFormat.{load, load_legacy, store}
use git_crypt.Crypto.{
  OpenSsl, nonce_len, max_crypt_bytes, CtrEncryptor, ctr_encryptor, process, HmacState, hmac_state,
  hmac_add, hmac_get,
}
use git_crypt.Options.{
  OptionsList, Settings, flag_option, value_option, flag, value_of, parse_options,
}
use git_crypt.Git.Config.{
  attribute_name, make_version, version_less, must_run, must_output, git_version, git_config,
  git_has_config, git_deconfig, get_git_config, configure_git_filters, deconfigure_git_filters,
  or_else,
}
use git_crypt.Git.Paths.{
  git_checkout, get_internal_key_path, get_internal_keys_path, get_repo_state_path,
  get_repo_keys_path, get_path_to_top, get_git_status, key_name_or_default,
}
use git_crypt.Git.Attributes.{
  encrypted_magic, get_encrypted_files, get_file_attributes, check_if_blob_is_encrypted,
  check_if_file_is_encrypted, is_git_file_mode,
}
use git_crypt.Plumbing.{header_len, parse_plumbing_options, is_legacy, get_arg, load_key}

-- The plaintext that stays in memory.
abbrev pub memory_limit : ℕ
memory_limit = 8388608

module _ ⦃H : Host⦄ where
  -- What `clean` has read: the HMAC so far, the size, the part in memory and the temporary file,
  -- if it is open.
  pub record Plaintext : Type 0 where
    pub hmac : HmacState H.openssl
    pub file_size : ℕ
    pub file_contents : Bytes
    pub temp_file : Option Bytes

  -- One buffer that was read.
  unfoldable pub keep_buffer : Bytes → Plaintext → Exec Plaintext
  keep_buffer buffer p =
      let file_size = p.file_size + length buffer in
      let q = record p { hmac = hmac_add H.openssl p.hmac buffer; file_size = file_size } in
      if leb file_size memory_limit
      then pure (record q { file_contents = p.file_contents ++ buffer })
      else elim p.temp_file [
        | some spilt ↦ pure (record q { temp_file = some (spilt ++ buffer) })
        | none ↦ (do open_temp_file; pure (record q { temp_file = some buffer }))
      ]

  -- `while (std::cin && file_size < MAX_CRYPT_BYTES)`: a short read ends the loop, since it leaves
  -- the stream failed. Each round but the last takes 1024 bytes.
  unfoldable pub read_plaintext : ℕ → Bytes → Plaintext → Exec Plaintext
  unfolding keep_buffer
  read_plaintext zero input p = lift stuck
  read_plaintext (suc fuel) input p =
      if ltb p.file_size max_crypt_bytes
      then (do
        q ← keep_buffer (take 1024 input) p
        elim (length (take 1024 input) == 1024) [
          | true ↦ read_plaintext fuel (drop 1024 input) q
          | false ↦ pure q
        ])
      else pure p

  -- Encrypting to the standard output what is in memory, or what was spilt, 1024 bytes at a time.
  unfoldable pub encrypt_out : ℕ → Bytes → CtrEncryptor H.openssl → Exec (CtrEncryptor H.openssl)
  encrypt_out fuel [] aes = pure aes
  encrypt_out zero (b ∷ s) aes = lift stuck
  encrypt_out (suc fuel) (b ∷ s) aes = do
    (written, aes') ← lift (process H.openssl (take 1024 (b ∷ s)) aes)
    put_out written
    encrypt_out fuel (drop 1024 (b ∷ s)) aes'

  -- The rest of `clean`, once the whole input was read.
  unfoldable pub encrypt_plaintext : Entry → Plaintext → Exec ℕ
  unfolding encrypt_out
  encrypt_plaintext key p =
      if leb max_crypt_bytes p.file_size
      then (do log (codes "git-crypt: error: file too long to encrypt securely"); pure 1)
      else (do
        let digest = hmac_get H.openssl p.hmac
        put_out encrypted_magic
        put_out (take nonce_len digest)
        aes ← lift (ctr_encryptor H.openssl key.aes_key digest)
        aes' ← encrypt_out (length p.file_contents) p.file_contents aes
        elim p.temp_file [
          | none ↦ pure 0
          | some spilt ↦ (do encrypt_out (length spilt) spilt aes' >>= λ _. pure 0)
        ])

  -- `clean` from where the key is known.
  unfoldable pub clean_with : Entry → Exec ℕ
  unfolding read_plaintext encrypt_plaintext
  clean_with key w =
      let start : Plaintext = record {
        hmac = hmac_state H.openssl key.hmac_key;
        file_size = 0;
        file_contents = [];
        temp_file = none;
      } in
      (read_plaintext (suc (length w.cin)) w.cin start >>= encrypt_plaintext key) w

  with_latest : Option Entry → Exec ℕ
  with_latest none = do log (codes "git-crypt: error: key file is empty"); pure 1
  with_latest (some key) = clean_with key

  -- Encrypt contents of stdin and write to stdout
  unfoldable pub clean : List Bytes → Exec ℕ
  unfolding parse_plumbing_options load_key with_latest
  clean args = do
    (key_name, key_path, rest) ← lift (parse_plumbing_options args)
    let legacy = is_legacy key_name key_path rest 1
    if is_nil rest || legacy
        then (do
          key_file ← load_key key_name key_path (if legacy then some (get_arg rest) else none)
          latest ← lift (get_latest key_file)
          with_latest latest)
        else (do log (codes "Usage: git-crypt clean [--key-name=NAME] [--key-file=PATH]"); pure 2)
