-- ===== src/Gpg/Run.antt =====
-- gpg.cpp: the runs of gpg.
use git_crypt.Base.{Bool, false, not, List, [], ◌∷◌, ◌++◌, Bytes, codes, if◌then◌else◌}
use git_crypt.Base.Results.{gpg_error}
use git_crypt.Host.{Host}
use git_crypt.Base.Streams.{lines_of}
use git_crypt.Exec.{Exec, ◌>>=◌, ◌>>◌, pure, throw, lift, catch, when}
use git_crypt.Exec.System.{successful_exit}
use git_crypt.Exec.Process.{exec_command_output, exec_command_with_input}
use git_crypt.Git.Config.{get_git_config}
use git_crypt.Gpg.{first_uid, public_fingerprints, secret_fingerprints}

module _ ⦃H : Host⦄ where
  unfoldable pub gpg_get_executable : Exec Bytes
  unfolding get_git_config catch
  gpg_get_executable = catch (get_git_config (codes "gpg.program")) (λ e. pure (codes "gpg"))

  -- given a key fingerprint, return the key's UID
  unfoldable pub gpg_get_uid : Bytes → Exec Bytes
  unfolding gpg_get_executable first_uid lines_of
  gpg_get_uid fingerprint = do
    gpg ← gpg_get_executable
    (status, output) ← exec_command_output (
        gpg
        ∷ (codes "--batch"
            ∷ (codes "--with-colons"
                ∷ (codes "--fixed-list-mode"
                    ∷ (codes "--list-keys" ∷ ((codes "0x" ++ fingerprint) ∷ []))))))
    if successful_exit status then lift (first_uid (lines_of output)) else pure []

  -- return a list of fingerprints of public keys matching the given search query
  unfoldable pub gpg_lookup_key : Bytes → Exec (List Bytes)
  unfolding gpg_get_executable public_fingerprints lines_of
  gpg_lookup_key query = do
    gpg ← gpg_get_executable
    (status, output) ← exec_command_output (
        gpg
        ∷ (codes "--batch"
            ∷ (codes "--with-colons"
                ∷ (codes "--fingerprint" ∷ (codes "--list-keys" ∷ (query ∷ []))))))
    if successful_exit status
        then lift (public_fingerprints (lines_of output) false [])
        else pure []

  unfoldable pub gpg_list_secret_keys : Exec (List Bytes)
  unfolding gpg_get_executable secret_fingerprints lines_of
  gpg_list_secret_keys = do
    gpg ← gpg_get_executable
    (status, output) ← exec_command_output (
        gpg
        ∷ (codes "--batch"
            ∷ (codes "--with-colons"
                ∷ (codes "--list-secret-keys" ∷ (codes "--fingerprint" ∷ [])))))
    when (not (successful_exit status)) (throw (gpg_error (codes "gpg --list-secret-keys failed")))
    lift (secret_fingerprints (lines_of output) [])

  unfoldable pub gpg_encrypt_to_file : Bytes → Bytes → Bool → Bytes → Exec (Unit {0})
  gpg_encrypt_to_file filename recipient_fingerprint key_is_trusted contents = do
    gpg ← gpg_get_executable
    let trust = if key_is_trusted then codes "--trust-model" ∷ (codes "always" ∷ []) else []
    status ←
        exec_command_with_input
          ((gpg ∷ (codes "--batch" ∷ []))
            ++ (trust
                ++ (codes "-o"
                    ∷ (filename
                        ∷ (codes "-r"
                            ∷ ((codes "0x" ++ recipient_fingerprint) ∷ (codes "-e" ∷ [])))))))
          contents
    when (not (successful_exit status)) (throw (gpg_error (codes "Failed to encrypt")))

  -- What gpg wrote.
  unfoldable pub gpg_decrypt_from_file : Bytes → Exec Bytes
  gpg_decrypt_from_file filename = do
    gpg ← gpg_get_executable
    (status, output) ← exec_command_output (gpg ∷ (codes "-q" ∷ (codes "-d" ∷ (filename ∷ []))))
    when (not (successful_exit status)) (throw (gpg_error (codes "Failed to decrypt")))
    pure output
