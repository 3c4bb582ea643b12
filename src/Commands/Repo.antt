-- ===== src/Commands/Repo.antt =====
-- commands.cpp: the keys of a repository, encrypted to its GPG users.
use git_crypt.Base.{
  ℕ, ◌⊎◌, inl, inr, Bool, true, false, Option, none, some, List, [], ◌∷◌, ◌++◌, Bytes, codes, equal,
  ◌==◌, if◌then◌else◌, decimal,
}
use git_crypt.Base.Results.{Exception, error, gpg_error, Result, ok, err, stuck}
use git_crypt.Host.{Host}
use git_crypt.Exec.{Exec, ◌>>=◌, ◌>>◌, pure, throw, lift, ask, catch, skip}
use git_crypt.Exec.System.{mkdir_parent, get_directory_contents}
use git_crypt.KeyFile.{
  KeyFile, Entry, get, new_key_file, get_key_name, set_key_name, add, Verdict, validate_key_name,
  valid, invalid,
}
use git_crypt.KeyFormat.{load, store}
use git_crypt.Git.Paths.{key_name_or_default}
use git_crypt.Gpg.Run.{gpg_decrypt_from_file, gpg_encrypt_to_file}

unfoldable pub same_key_name : Option Bytes → Option Bytes → Bool
same_key_name none none = true
same_key_name (some a) (some b) = equal a b
same_key_name _ _ = false

-- `keys_path/name/version/fingerprint.gpg`
unfoldable pub gpg_file_path : Bytes → Option Bytes → ℕ → Bytes → Bytes
gpg_file_path keys_path key_name version fingerprint =
    keys_path
    ++ (codes "/"
        ++ (key_name_or_default key_name
            ++ (codes "/" ++ (decimal version ++ (codes "/" ++ (fingerprint ++ codes ".gpg"))))))

unfoldable pub expected_entry : Option Bytes → KeyFile → Option Entry → Result KeyFile
unfolding same_key_name
expected_entry key_name k none = err (
    error
      (codes "GPG-encrypted keyfile is malformed because it does not contain expected key version"))
expected_entry key_name k (some entry) =
    if same_key_name key_name (get_key_name k)
    then ok (add (set_key_name new_key_file key_name) entry)
    else err (
        error (
          codes "GPG-encrypted keyfile is malformed because it does not contain expected key name"))

-- The key file of one version that a decrypted file holds.
unfoldable pub read_repo_key : Option Bytes → ℕ → Bytes → Result KeyFile
unfolding expected_entry
read_repo_key key_name key_version contents = elim (load contents) [
  | err e ↦ err e
  | stuck ↦ stuck
  | ok k ↦ expected_entry key_name k (get k key_version)
]

-- The key name that a directory stands for, or `none` if it is passed over.
unfoldable pub dirent_key_name : Bytes → Option (Option Bytes)
dirent_key_name dirent =
    if equal dirent (codes "default")
    then some none
    else elim (validate_key_name dirent) [ valid ↦ some (some dirent) | invalid _ ↦ none ]

module _ ⦃H : Host⦄ where
  or_throw : Verdict → Exec (Unit {0})
  or_throw valid = skip
  or_throw (invalid reason) = throw (error reason)

  unfoldable pub validate_key_name_or_throw : Bytes → Exec (Unit {0})
  unfolding or_throw
  validate_key_name_or_throw key_name = or_throw (validate_key_name key_name)

  -- `try { gpg_decrypt_from_file } catch (const Gpg_error&)`: the error, or what gpg wrote.
  only_gpg_error : Exception → Exec (Exception ⊎ Bytes)
  only_gpg_error (gpg_error message) = pure (inl (gpg_error message))
  only_gpg_error e = throw e

  -- The loop over the secret keys, with the last error of gpg; `none` if no key decrypts a file.
  unfoldable pub decrypt_repo_key :
      Option Bytes → ℕ → List Bytes → Bytes → Option Exception → Exec (Option KeyFile)
  unfolding catch only_gpg_error
  decrypt_repo_key key_name key_version [] keys_path none = pure none
  decrypt_repo_key key_name key_version [] keys_path (some e) = throw e
  decrypt_repo_key key_name key_version (seckey ∷ secret_keys) keys_path failed = do
    let path = gpg_file_path keys_path key_name key_version seckey
    errno ← ask (H.access path)
    if errno == 0
        then (do
          decrypted ← catch (do s ← gpg_decrypt_from_file path; pure (inr s)) only_gpg_error
          elim decrypted [
            | inl e ↦ decrypt_repo_key key_name key_version secret_keys keys_path (some e)
            | inr contents ↦ (do
              k ← lift (read_repo_key key_name key_version contents)
              pure (some k))
          ])
        else decrypt_repo_key key_name key_version secret_keys keys_path failed

  unfoldable pub decrypt_dirents :
      List Bytes → List KeyFile → ℕ → List Bytes → Bytes → Exec (List KeyFile)
  unfolding decrypt_repo_key dirent_key_name
  decrypt_dirents [] key_files key_version secret_keys keys_path = pure key_files
  decrypt_dirents (dirent ∷ dirents) key_files key_version secret_keys keys_path =
      elim (dirent_key_name dirent) [
        | none ↦ decrypt_dirents dirents key_files key_version secret_keys keys_path
        | some key_name ↦ (do
          found ← decrypt_repo_key key_name key_version secret_keys keys_path none
          decrypt_dirents dirents (elim found [ none ↦ key_files | some k ↦ key_files ++ (k ∷ []) ])
              key_version secret_keys keys_path)
      ]

  -- The key files that were decrypted; the source returns false where there is none.
  unfoldable pub decrypt_repo_keys : ℕ → List Bytes → Bytes → Exec (List KeyFile)
  unfolding decrypt_dirents
  decrypt_repo_keys key_version secret_keys keys_path = do
    errno ← ask (H.access keys_path)
    dirents ← if errno == 0 then get_directory_contents keys_path else pure []
    decrypt_dirents dirents [] key_version secret_keys keys_path

  -- The loop over the collaborators, with the new files so far.
  unfoldable pub encrypt_for :
      Option Bytes → ℕ → Bytes → List (Bytes × Bool) → Bytes → List Bytes → Exec (List Bytes)
  encrypt_for key_name version key_file_data [] keys_path new_files = pure new_files
  encrypt_for key_name version key_file_data ((fingerprint, key_is_trusted) ∷ collab_keys) keys_path
        new_files =
      do
        let path = gpg_file_path keys_path key_name version fingerprint
        errno ← ask (H.access path)
        if errno == 0
            then encrypt_for key_name version key_file_data collab_keys keys_path new_files
            else (do
              mkdir_parent path
              gpg_encrypt_to_file path fingerprint key_is_trusted key_file_data
              encrypt_for key_name version key_file_data collab_keys keys_path
                  (new_files ++ (path ∷ [])))

  unfoldable pub encrypt_repo_key :
      Option Bytes → Entry → List (Bytes × Bool) → Bytes → List Bytes → Exec (List Bytes)
  unfolding encrypt_for
  encrypt_repo_key key_name key collab_keys keys_path new_files =
      encrypt_for key_name key.version (store (add (set_key_name new_key_file key_name) key))
        collab_keys keys_path new_files
