-- ===== src/Windows/Crypto.antt =====
-- win-build/crypto-win32.cpp: AES, HMAC and random bytes by Windows' CNG (bcrypt.dll).
pub mod Calls
pub mod Digests
pub mod Blocks
pub mod Handles
use git_crypt.Base.{
  ℕ, zero, suc, ◌+◌, ◌/◌, ◌%◌, ◌^◌, Bool, true, false, List, [], ◌∷◌, ◌++◌, Bytes, codes, length,
  take, ◌==◌, ltb, if◌then◌else◌,
}
use git_crypt.Base.Results.{Result, crypto_error, ok, err, stuck}

-- The calls of CNG: the NTSTATUS as a number of 32 bits and what the call gives. A handle is a
-- number, 0 for null; so is the address of an object's buffer.
pub record Cng : Type 1 where
  pub State : Type 0
  -- An algorithm's name, and whether BCRYPT_ALG_HANDLE_HMAC_FLAG is given.
  pub open_algorithm_provider : Bytes → Bool → State → (ℕ × ℕ) × State
  pub set_chaining_mode : ℕ → Bytes → State → (ℕ × Unit {0}) × State
  -- The property BCRYPT_OBJECT_LENGTH.
  pub get_object_length : ℕ → State → (ℕ × ℕ) × State
  -- The provider, the object's buffer with its size, and the secret.
  pub generate_symmetric_key : ℕ → ℕ → ℕ → Bytes → State → (ℕ × ℕ) × State
  pub create_hash : ℕ → ℕ → ℕ → Bytes → State → (ℕ × ℕ) × State
  pub encrypt : ℕ → Bytes → State → (ℕ × Bytes) × State
  pub hash_data : ℕ → Bytes → State → (ℕ × Unit {0}) × State
  pub finish_hash : ℕ → ℕ → State → (ℕ × Bytes) × State
  pub gen_random : ℕ → State → (ℕ × Bytes) × State
  pub destroy_key : ℕ → State → State
  pub destroy_hash : ℕ → State → State
  pub close_algorithm_provider : ℕ → State → State
  -- The storage of a `std::vector` that is not empty, and `explicit_memset` of it to zero.
  pub allocate : ℕ → State → ℕ × State
  pub wipe : ℕ → ℕ → State → State

hex_digit : ℕ → ℕ
hex_digit d = if ltb d 10 then 48 + d else 87 + d

hex_digits : ℕ → ℕ → Bytes
unfolding hex_digit
hex_digits zero n = []
hex_digits (suc fuel) n =
    let more = hex_digits fuel (n / 16) in
    if ltb n 16 then hex_digit n ∷ [] else more ++ (hex_digit (n % 16) ∷ [])

-- `NT_SUCCESS`: the status is not negative.
unfoldable pub nt_success : ℕ → Bool
nt_success status = ltb status (2 ^ 31)

-- What `check_nt` does with a status. A status of 32 bits has 8 digits at most.
unfoldable pub check_nt : ℕ → Bytes → Result (Unit {0})
unfolding hex_digits nt_success
check_nt status place =
    if nt_success status
    then ok tt
    else err (crypto_error place (codes "BCrypt error 0x" ++ hex_digits 8 status))

module _ ⦃C : Cng⦄ where
  -- A call that returns or throws.
  abbrev pub Run : Type 0 → Type 0
  Run A = C.State → Result A × C.State

  abbrev pub go_on : {A B : Type 0} → Result A → (A → Run B) → Run B
  go_on (ok a) f h = f a h
  go_on (err e) f h = (err e, h)
  go_on stuck f h = (stuck, h)

  infixl 5 ◌>>=◌
  abbrev pub ◌>>=◌ : {A B : Type 0} → Run A → (A → Run B) → Run B
  (m >>= f) h = let (r, h1) = m h in go_on r f h1

  -- A call of CNG under `check_nt`, and what it gives.
  unfoldable pub call : {A : Type 0} → (C.State → (ℕ × A) × C.State) → Bytes → Run A
  unfolding check_nt
  call f place h =
      let ((status, a), h1) = f h in go_on (check_nt status place) (λ done h2. (ok a, h2)) h1

  unfoldable pub object_length : ℕ → Bytes → Run ℕ
  object_length alg place = call (C.get_object_length alg) place

  -- `resize` of an empty vector: the address of its storage, null if there is none.
  unfoldable pub resize : ℕ → Run ℕ
  resize size h = if size == 0 then (ok 0, h) else (let (p, h1) = C.allocate size h in (ok p, h1))

  -- `Aes_impl`; the buffer of the key object is an address and a size.
  pub record AesImpl : Type 0 where
    pub alg : ℕ
    pub key : ℕ
    pub key_object : ℕ
    pub key_object_size : ℕ

  -- `Aes_ecb_encryptor::Aes_ecb_encryptor`. Where a call throws, the destructor does not run.
  unfoldable pub aes_ecb_encryptor : Bytes → Run AesImpl
  aes_ecb_encryptor raw_key = do
    alg ←
        call (C.open_algorithm_provider (codes "AES") false)
          (codes "Aes_ecb_encryptor::Aes_ecb_encryptor (open AES provider)")
    done ←
        call (C.set_chaining_mode alg (codes "ChainingModeECB"))
          (codes "Aes_ecb_encryptor::Aes_ecb_encryptor (set ECB mode)")
    size ← object_length alg (codes "Aes_ecb_encryptor::Aes_ecb_encryptor (get object length)")
    object ← resize size
    key ←
        call (C.generate_symmetric_key alg object size (take 32 raw_key))
          (codes "Aes_ecb_encryptor::Aes_ecb_encryptor (generate key)")
    (λ h. (ok (record { alg = alg; key = key; key_object = object; key_object_size = size }), h))

  -- `Aes_ecb_encryptor::~Aes_ecb_encryptor`
  unfoldable pub destroy_aes : AesImpl → C.State → C.State
  destroy_aes impl h =
      let h1 = if impl.key == 0 then h else C.destroy_key impl.key h in
      let h2 = if impl.alg == 0 then h1 else C.close_algorithm_provider impl.alg h1 in
      if impl.key_object_size == 0 then h2 else C.wipe impl.key_object impl.key_object_size h2

  -- `Aes_ecb_encryptor::encrypt`
  unfoldable pub aes_encrypt : AesImpl → Bytes → Run Bytes
  aes_encrypt impl plain =
      call (C.encrypt impl.key (take 16 plain)) (codes "Aes_ecb_encryptor::encrypt")

  -- `Hmac_impl`
  pub record HmacImpl : Type 0 where
    pub alg : ℕ
    pub hash : ℕ
    pub hash_object : ℕ
    pub hash_object_size : ℕ

  -- `Hmac_sha1_state::Hmac_sha1_state`; the length is cast to a ULONG of 32 bits.
  unfoldable pub hmac_sha1_state : Bytes → Run HmacImpl
  hmac_sha1_state key = do
    alg ←
        call (C.open_algorithm_provider (codes "SHA1") true)
          (codes "Hmac_sha1_state::Hmac_sha1_state (open HMAC-SHA1 provider)")
    size ← object_length alg (codes "Hmac_sha1_state::Hmac_sha1_state (get object length)")
    object ← resize size
    hash ←
        call (C.create_hash alg object size (take (length key % 2 ^ 32) key))
          (codes "Hmac_sha1_state::Hmac_sha1_state (create hash)")
    (λ h.
        (ok (record { alg = alg; hash = hash; hash_object = object; hash_object_size = size }), h))

  -- `Hmac_sha1_state::~Hmac_sha1_state`
  unfoldable pub destroy_hmac : HmacImpl → C.State → C.State
  destroy_hmac impl h =
      let h1 = if impl.hash == 0 then h else C.destroy_hash impl.hash h in
      let h2 = if impl.alg == 0 then h1 else C.close_algorithm_provider impl.alg h1 in
      if impl.hash_object_size == 0 then h2 else C.wipe impl.hash_object impl.hash_object_size h2

  -- `Hmac_sha1_state::add`
  unfoldable pub hmac_add : HmacImpl → Bytes → Run (Unit {0})
  hmac_add impl buffer =
      call (C.hash_data impl.hash (take (length buffer % 2 ^ 32) buffer))
        (codes "Hmac_sha1_state::add")

  -- `Hmac_sha1_state::get`
  unfoldable pub hmac_get : HmacImpl → Run Bytes
  hmac_get impl = call (C.finish_hash impl.hash 20) (codes "Hmac_sha1_state::get")

  -- `random_bytes`: the bytes at the start of the buffer that were drawn.
  unfoldable pub random_bytes : ℕ → Run Bytes
  random_bytes len = call (C.gen_random (len % 2 ^ 32)) (codes "random_bytes")
