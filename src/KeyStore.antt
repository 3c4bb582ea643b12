-- ===== src/KeyStore.antt =====
-- key.cpp: generating keys, and key files on disk.
pub mod Generate
use git_crypt.Base.{
  ℕ, zero, suc, ◌+◌, ◌-◌, ◌*◌, ◌/◌, ◌%◌, ◌^◌, ◌≤◌, ◌<◌, ◌≡◌, refl, sym, ap, ◌∙◌, ◌≢◌, ◌↔◌, ◌⊎◌, inl,
  inr, Bool, true, false, not, ◌&&◌, ◌||◌, Option, none, some, List, [], ◌∷◌, ◌++◌, append_assoc,
  append-nil, Bytes, IsByte, codes, All, All-append, length, take, drop, get_or, replicate, equal,
  equal_iff, equal_refl, ◌==◌, ltb, leb, if◌then◌else◌, arith, Bool-cases, Option-cases, ==_iff,
  length-append, length-take, length-drop, take-append-drop, take_of_le, drop_of_le, take-append,
  drop-append, bit_or, bit_xor, bit_and, map, ==_refl, any_byte, is_nil, decimal,
}
use git_crypt.Base.Results.{
  Exception, error, gpg_error, system_error, crypto_error, option_error, incompatible, malformed,
  invalid_argument, logic_error, Result, ok, err, stuck,
}
use git_crypt.Host.{Host}
use git_crypt.Exec.{
  World, Exec, continue, ◌>>=◌, ◌>>◌, pure, throw, lift, ask, call, catch, put_out, log, put_line,
  skip, when,
}
use git_crypt.Base.Streams.{get_line, skip_space, read_word, atoi, strtoul_octal}
use git_crypt.Exec.System.{
  exit_status, successful_exit, touch_file, remove_file, create_protected_file, mkdir_parent,
  get_directory_contents, our_exe_path, open_temp_file, random_bytes, enoent,
}
use git_crypt.Exec.Process.{exec_command, exec_command_output, exec_command_with_input}
use git_crypt.KeyFile.{
  next_version, KeyFile, Entry, insert, is_empty, is_filled, latest, get, get_latest, new_key_file,
  aes_key_len, hmac_key_len,
}
use git_crypt.KeyFormat.{load, store}

module _ ⦃H : Host⦄ where
  -- `Key_file::Entry::generate`
  unfoldable pub generate_entry : ℕ → Exec Entry
  generate_entry version = do
    aes_key ← random_bytes aes_key_len
    hmac_key ← random_bytes hmac_key_len
    pure (record { version = version; aes_key = aes_key; hmac_key = hmac_key })

  -- `Key_file::generate`
  unfoldable pub generate : KeyFile → Exec KeyFile
  unfolding next_version generate_entry insert
  generate k = do
    version ← lift (next_version k)
    entry ← generate_entry version
    pure (record k { entries = insert version entry k.entries })

  -- `Key_file::load_from_file`: `none` where the file cannot be opened.
  unfoldable pub load_from_file : Bytes → Exec (Option KeyFile)
  load_from_file key_file_name = do
    found ← ask (H.open_input key_file_name)
    elim found [ none ↦ pure none | some contents ↦ (do k ← lift (load contents); pure (some k)) ]

  -- `Key_file::store_to_file`
  unfoldable pub store_to_file : KeyFile → Bytes → Exec Bool
  store_to_file k key_file_name = do
    create_protected_file key_file_name
    call (H.write_output key_file_name (store k))
