-- ===== src/Windows/Crypto/Blocks.antt =====
-- win-build/crypto-win32.cpp: the blocks by CNG are those of the OpenSSL backend.
use git_crypt.Base.{
  sym, ap, ℕ, ◌*◌, ◌≡◌, refl, ◌∙◌, false, some, List, [], ◌∷◌, Bytes, codes, All, length,
  take_of_le, map, arith,
}
use git_crypt.Base.Results.{ok}
use git_crypt.Crypto.{OpenSsl}
use git_crypt.Windows.Crypto.{
  Cng, Run, ◌>>=◌, AesImpl, aes_ecb_encryptor, aes_encrypt, object_length,
}
use git_crypt.Windows.Crypto.Calls.{
  Returns, Succeeds, call_then, resize_then, call-Returns, bind-Returns,
}

abbrev ecb_mode : Bytes
ecb_mode = codes "ChainingModeECB"

abbrev pub IsBlock : Bytes → Type 0
IsBlock s = length s ≡ 16

module _ ⦃C : Cng⦄ where
  -- Documented behaviour of CNG: its calls succeed, a provider has the algorithm that it was opened
  -- for, a key has the secret that it was made of and the mode of its provider, and under an AES
  -- provider in ECB mode a block is encrypted by AES under that secret.
  pub record Ciphers (O : OpenSsl) : Type 0 where
    pub algorithm_of : ℕ → C.State → Bytes
    pub mode_of : ℕ → C.State → Bytes
    pub secret_of : ℕ → C.State → Bytes
    pub key_algorithm_of : ℕ → C.State → Bytes
    pub key_mode_of : ℕ → C.State → Bytes
    pub object_size : Bytes → ℕ
    pub opens :
        (name : Bytes) (h : C.State)
        → Succeeds (λ alg h1. algorithm_of alg h1 ≡ name) (C.open_algorithm_provider name false h)
    pub sets_mode :
        (alg : ℕ) (mode : Bytes) (h : C.State)
        → Succeeds
            (λ done h1. (algorithm_of alg h1 ≡ algorithm_of alg h) × (mode_of alg h1 ≡ mode))
            (C.set_chaining_mode alg mode h)
    pub has_length :
        (alg : ℕ) (h : C.State)
        → Succeeds
            (λ size h1.
              (size ≡ object_size (algorithm_of alg h))
              × (algorithm_of alg h1 ≡ algorithm_of alg h)
              × (mode_of alg h1 ≡ mode_of alg h))
            (C.get_object_length alg h)
    pub allocates :
        (alg size : ℕ) (h : C.State)
        → (algorithm_of alg (C.allocate size h).1 ≡ algorithm_of alg h)
          × (mode_of alg (C.allocate size h).1 ≡ mode_of alg h)
    pub generates :
        (alg object size : ℕ) (secret : Bytes) (h : C.State)
        → size ≡ object_size (algorithm_of alg h)
        → Succeeds
            (λ key h1.
              (secret_of key h1 ≡ secret)
              × (key_algorithm_of key h1 ≡ algorithm_of alg h)
              × (key_mode_of key h1 ≡ mode_of alg h))
            (C.generate_symmetric_key alg object size secret h)
    pub encrypts :
        (key : ℕ) (block : Bytes) (schedule : O.Schedule) (h : C.State)
        → IsBlock block
        → key_algorithm_of key h ≡ codes "AES"
        → key_mode_of key h ≡ ecb_mode
        → O.set_encrypt_key (secret_of key h) (32 * 8) ≡ some schedule
        → Succeeds
            (λ cipher h1.
              (cipher ≡ O.encrypt schedule block)
              × (secret_of key h1 ≡ secret_of key h)
              × (key_algorithm_of key h1 ≡ key_algorithm_of key h)
              × (key_mode_of key h1 ≡ key_mode_of key h))
            (C.encrypt key block h)

  -- A client that encrypts these blocks, one after another.
  encrypt_all : AesImpl → List Bytes → Run (List Bytes)
  encrypt_all impl [] = λ h. (ok [], h)
  encrypt_all impl (block ∷ blocks) = do
    cipher ← aes_encrypt impl block
    ciphers ← encrypt_all impl blocks
    (λ h. (ok (cipher ∷ ciphers), h))

  pub blocks_of : Bytes → List Bytes → Run (List Bytes)
  blocks_of raw_key blocks = do impl ← aes_ecb_encryptor raw_key; encrypt_all impl blocks

  module _ (O : OpenSsl) (H : Ciphers O) where
    -- The key object is one of AES with this secret, in ECB mode.
    pub record Keyed (secret : Bytes) (impl : AesImpl) (h : C.State) : Type 0 where
      pub secret_is : H.secret_of impl.key h ≡ secret
      pub algorithm_is : H.key_algorithm_of impl.key h ≡ codes "AES"
      pub mode_is : H.key_mode_of impl.key h ≡ ecb_mode

    -- The provider is one of AES, in ECB mode.
    record Ready (alg : ℕ) (h : C.State) : Type 0 where
      algorithm : H.algorithm_of alg h ≡ codes "AES"
      mode : H.mode_of alg h ≡ ecb_mode

    Ready-allocate :
        (alg : ℕ) {size : ℕ} (h : C.State) → Ready alg h → Ready alg (C.allocate size h).1
    Ready-allocate alg {size} h r =
        let kept = H.allocates alg size h in
        record { algorithm = kept.0 ∙ r.algorithm; mode = kept.1 ∙ r.mode }

    aes_ecb_encryptor-Keyed :
        (raw_key : Bytes) (h : C.State)
        → length raw_key ≡ 32
        → Returns (λ impl h1. Keyed raw_key impl h1) (aes_ecb_encryptor raw_key h)
    unfolding aes_ecb_encryptor object_length
    aes_ecb_encryptor-Keyed raw_key h n =
        call_then _ _ (C.open_algorithm_provider (codes "AES") false) _ _ h
          (H.opens (codes "AES") h)
          (λ alg h1 aes.
            call_then _ _ (C.set_chaining_mode alg ecb_mode) _ _ h1 (H.sets_mode alg ecb_mode h1)
              (λ done h2 (same, ecb).
                call_then _ _ (C.get_object_length alg) _ _ h2 (H.has_length alg h2)
                  (λ size h3 (sized, same_algorithm, same_mode).
                    let aes2 = same ∙ aes in
                    let fits = sized ∙ ap H.object_size aes2 in
                    resize_then (Ready alg) _ size _ h3 (Ready-allocate alg)
                      (record { algorithm = same_algorithm ∙ aes2; mode = same_mode ∙ ecb })
                      (λ object h4 r. rw (take_of_le 32 raw_key (omega (arith, n))) (
                        call_then _ _ (C.generate_symmetric_key alg object size raw_key) _ _ h4
                          (H.generates alg object size raw_key h4
                            (fits ∙ ap H.object_size (sym r.algorithm)))
                          (λ key h5 (secret, algorithm, mode). record {
                            secret_is = secret;
                            algorithm_is = algorithm ∙ r.algorithm;
                            mode_is = mode ∙ r.mode;
                          }))))))

    aes_encrypt-Keyed :
        (secret : Bytes) (schedule : O.Schedule) (impl : AesImpl) (block : Bytes) (h : C.State)
        → O.set_encrypt_key secret (32 * 8) ≡ some schedule
        → IsBlock block
        → Keyed secret impl h
        → Returns
            (λ cipher h1. (cipher ≡ O.encrypt schedule block) × Keyed secret impl h1)
            (aes_encrypt impl block h)
    unfolding aes_encrypt
    aes_encrypt-Keyed secret schedule impl block h accepted n k =
        rw (take_of_le 16 block (omega (arith, n))) (
          call-Returns _ _ (C.encrypt impl.key block) _ h
            (H.encrypts impl.key block schedule h n k.algorithm_is k.mode_is
              (rw k.secret_is accepted))
            (λ cipher h1 (e, secret, algorithm, mode). (
              e,
              record {
                secret_is = secret ∙ k.secret_is;
                algorithm_is = algorithm ∙ k.algorithm_is;
                mode_is = mode ∙ k.mode_is;
              },
            )))

    encrypt_all-Keyed :
        (secret : Bytes) (schedule : O.Schedule) (impl : AesImpl) (blocks : List Bytes)
        (h : C.State)
        → O.set_encrypt_key secret (32 * 8) ≡ some schedule
        → All IsBlock blocks
        → Keyed secret impl h
        → Returns
            (λ ciphers h1. ciphers ≡ map (O.encrypt schedule) blocks)
            (encrypt_all impl blocks h)
    unfolding encrypt_all
    encrypt_all-Keyed secret schedule impl [] h accepted n k = refl
    encrypt_all-Keyed secret schedule impl (block ∷ blocks) h accepted (n, rest) k =
        bind-Returns _ _ (aes_encrypt impl block) _ h
          (aes_encrypt-Keyed secret schedule impl block h accepted n k)
          (λ cipher h1 (e, k1).
            bind-Returns _ _ (encrypt_all impl blocks) _ h1
              (encrypt_all-Keyed secret schedule impl blocks h1 accepted rest k1)
              (λ ciphers h2 es. rw (e, es) refl))

    -- Where the calls of CNG succeed and do as documented (a key made with an AES provider in ECB
    -- mode, in an object of the size that the provider asks for, encrypts as AES does), the
    -- Windows backend of AES that is made of a key of 32 bytes encrypts any blocks of 16 bytes,
    -- one after another, as the OpenSSL backend does under the key schedule of that key.
    pub blocks_of-encrypt :
        (raw_key : Bytes) (schedule : O.Schedule) (blocks : List Bytes) (h : C.State)
        → length raw_key ≡ 32
        → O.set_encrypt_key raw_key (32 * 8) ≡ some schedule
        → All IsBlock blocks
        → Returns
            (λ ciphers h1. ciphers ≡ map (O.encrypt schedule) blocks)
            (blocks_of raw_key blocks h)
    unfolding blocks_of
    blocks_of-encrypt raw_key schedule blocks h n accepted whole =
        bind-Returns _ _ (aes_ecb_encryptor raw_key) _ h (aes_ecb_encryptor-Keyed raw_key h n)
          (λ impl h1 k. encrypt_all-Keyed raw_key schedule impl blocks h1 accepted whole k)
