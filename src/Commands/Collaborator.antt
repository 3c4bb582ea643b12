-- ===== src/Commands/Collaborator.antt =====
-- commands.cpp, gpg.cpp: the key that `encrypt_repo_key` encrypts to a collaborator is the one that
-- `decrypt_repo_key` finds for the collaborator's secret key.
use git_crypt.Base.{
  ℕ, Bool, true, false, ◌≡◌, refl, ◌∙◌, Option, none, some, List, [], ◌∷◌, ◌++◌, Bytes, codes, ◌==◌,
  ==_refl,
}
use git_crypt.Base.Results.{Result, ok, err, stuck}
use git_crypt.Host.{Host}
use git_crypt.Exec.{World}
use git_crypt.Exec.System.{successful_exit, mkdir_parent}
use git_crypt.Exec.Process.{exec_command_output, exec_command_with_input}
use git_crypt.KeyFile.{KeyFile, Entry, new_key_file, set_key_name, get_key_name, add, get}
use git_crypt.KeyFile.Versions.{IsEntry, get-add}
use git_crypt.KeyFormat.{store}
use git_crypt.Gpg.Run.{gpg_get_executable, gpg_encrypt_to_file, gpg_decrypt_from_file}
use git_crypt.Commands.Repo.{read_repo_key, gpg_file_path, decrypt_repo_key, encrypt_repo_key}
use git_crypt.Commands.Shared.{
  IsGiven, get_key_name-set_key_name, get_key_name-add, read_repo_key-store,
}

abbrev pub trust_args : Bool → List Bytes
trust_args false = []
trust_args true = codes "--trust-model" ∷ (codes "always" ∷ [])

-- Encrypting the standard input to a recipient, into a file.
abbrev pub encrypt_args : Bytes → Bytes → Bytes → Bool → List Bytes
encrypt_args gpg path fingerprint trusted =
    (gpg ∷ (codes "--batch" ∷ []))
    ++ (trust_args trusted
        ++ (codes "-o" ∷ (path ∷ (codes "-r" ∷ ((codes "0x" ++ fingerprint) ∷ (codes "-e" ∷ []))))))

abbrev pub decrypt_args : Bytes → Bytes → List Bytes
decrypt_args gpg path = gpg ∷ (codes "-q" ∷ (codes "-d" ∷ (path ∷ [])))

module _ ⦃H : Host⦄ where
  -- What gpg does for a recipient whose secret key is at hand: whatever it is given to encrypt from
  -- some state of the system on, it creates the file and gives the same bytes back when it decrypts
  -- it, after git was asked once more which gpg to run.
  pub record Keeps (gpg path fingerprint : Bytes) (trusted : Bool) (h : H.State) : Type 0 where
    pub output : Bytes → Bytes
    pub encrypted : Bytes → H.State
    pub asked : Bytes → H.State
    pub decrypted : Bytes → H.State
    pub encrypts :
        (s : Bytes)
        → H.run (encrypt_args gpg path fingerprint trusted) s h ≡ (ok (0, output s), encrypted s)
    pub creates : (s : Bytes) → H.access path (encrypted s) ≡ 0
    pub finds :
        (s : Bytes) (w : World)
        → gpg_get_executable (record w { host = encrypted s })
          ≡ (ok gpg, record w { host = asked s })
    pub decrypts :
        (s : Bytes) → H.run (decrypt_args gpg path) [] (asked s) ≡ (ok (0, s), decrypted s)

  gpg_encrypt_to_file_lem :
      (path fingerprint gpg s output : Bytes) (trusted : Bool) (w w1 : World) (h : H.State)
      → gpg_get_executable w ≡ (ok gpg, w1)
      → H.run (encrypt_args gpg path fingerprint trusted) s w1.host ≡ (ok (0, output), h)
      → gpg_encrypt_to_file path fingerprint trusted s w
        ≡ (ok tt, record w1 { host = h; cout = w1.cout ++ output })
  unfolding gpg_encrypt_to_file exec_command_with_input successful_exit
  gpg_encrypt_to_file_lem path fingerprint gpg s output true w w1 h e f = rw (e, f) refl
  gpg_encrypt_to_file_lem path fingerprint gpg s output false w w1 h e f = rw (e, f) refl

  gpg_decrypt_from_file_lem :
      (path gpg s : Bytes) (w w1 : World) (h : H.State)
      → gpg_get_executable w ≡ (ok gpg, w1)
      → H.run (decrypt_args gpg path) [] w1.host ≡ (ok (0, s), h)
      → gpg_decrypt_from_file path w ≡ (ok s, record w1 { host = h })
  unfolding gpg_decrypt_from_file exec_command_output successful_exit
  gpg_decrypt_from_file_lem path gpg s w w1 h e f = rw (e, f) refl

  -- The new file is the collaborator's.
  encrypt_repo_key_lem :
      (key_name : Option Bytes) (key : Entry) (fingerprint keys_path : Bytes) (trusted : Bool)
      (w w1 w2 : World)
      → let path = gpg_file_path keys_path key_name key.version fingerprint in
        let s = store (add (set_key_name new_key_file key_name) key) in
        (H.access path w.host == 0) ≡ false
        → mkdir_parent path w ≡ (ok tt, w1)
        → gpg_encrypt_to_file path fingerprint trusted s w1 ≡ (ok tt, w2)
        → encrypt_repo_key key_name key ((fingerprint, trusted) ∷ []) keys_path [] w
          ≡ (ok (path ∷ []), w2)
  unfolding encrypt_repo_key
  encrypt_repo_key_lem key_name key fingerprint keys_path trusted w w1 w2 missing made e =
      rw (missing, made, e) refl

  decrypt_repo_key_lem :
      (key_name : Option Bytes) (version : ℕ) (fingerprint keys_path s : Bytes) (k : KeyFile)
      (w w1 : World)
      → let path = gpg_file_path keys_path key_name version fingerprint in
        H.access path w.host ≡ 0
        → gpg_decrypt_from_file path w ≡ (ok s, w1)
        → read_repo_key key_name version s ≡ ok k
        → decrypt_repo_key key_name version (fingerprint ∷ []) keys_path none w ≡ (ok (some k), w1)
  unfolding decrypt_repo_key
  decrypt_repo_key_lem key_name version fingerprint keys_path s k w w1 there e f =
      rw (there, e, f) refl

  -- A key file with that entry and that name.
  abbrev pub Holds : Option Bytes → Entry → Result (Option KeyFile) → Type 0
  Holds key_name key (ok (some k)) = (get k key.version ≡ some key) × (get_key_name k ≡ key_name)
  Holds key_name key (ok none) = ⊥
  Holds key_name key (err e) = ⊥
  Holds key_name key stuck = ⊥

  -- Where `encrypt_repo_key` encrypts a key to one collaborator, it reports the one new file, and
  -- `decrypt_repo_key`, with the secret key of that collaborator, then finds a key file that
  -- holds the same key under the same version and has the same key name. The key has a 32-bit
  -- version and keys of the right sizes, the key name is null or valid, the file is not there
  -- before, its directory can be made and gpg can be found; for this recipient and file gpg
  -- decrypts what it encrypted.
  pub decrypt_repo_key-encrypt_repo_key :
      (key_name : Option Bytes) (key : Entry) (fingerprint keys_path gpg : Bytes) (trusted : Bool)
      (w w1 w2 : World)
      → IsEntry key
      → IsGiven key_name
      → let path = gpg_file_path keys_path key_name key.version fingerprint in
        (H.access path w.host == 0) ≡ false
        → mkdir_parent path w ≡ (ok tt, w1)
        → gpg_get_executable w1 ≡ (ok gpg, w2)
        → Keeps gpg path fingerprint trusted w2.host
        → let (r, w3) =
            encrypt_repo_key key_name key ((fingerprint, trusted) ∷ []) keys_path [] w in
          let (found, w4) =
            decrypt_repo_key key_name key.version (fingerprint ∷ []) keys_path none w3 in
          (r ≡ ok (path ∷ [])) × Holds key_name key found
  decrypt_repo_key-encrypt_repo_key key_name key fingerprint keys_path gpg trusted w w1 w2 v g
        missing made found G =
      let path = gpg_file_path keys_path key_name key.version fingerprint in
      let empty = set_key_name new_key_file key_name in
      let k = add empty key in
      let s = store k in
      let w3 : World = record w2 { host = G.encrypted s; cout = w2.cout ++ G.output s } in
      let sent =
        encrypt_repo_key_lem key_name key fingerprint keys_path trusted w w1 w3 missing made (
          gpg_encrypt_to_file_lem path fingerprint gpg s (G.output s) trusted w1 w2 (G.encrypted s)
            found (G.encrypts s)) in
      let got =
        gpg_decrypt_from_file_lem path gpg s w3 (record w3 { host = G.asked s }) (G.decrypted s)
          (G.finds s w3) (G.decrypts s) in
      let read =
        decrypt_repo_key_lem key_name key.version fingerprint keys_path s k w3
          (record w3 { host = G.decrypted s }) (G.creates s) got
          (read_repo_key-store key_name key v g) in
      rw (sent, read)
        (
          refl,
          (
            get-add empty key key.version ∙ rw (==_refl key.version) refl,
            get_key_name-add empty key ∙ get_key_name-set_key_name key_name g,
          ),
        )
