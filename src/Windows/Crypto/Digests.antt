-- ===== src/Windows/Crypto/Digests.antt =====
-- win-build/crypto-win32.cpp: the HMAC by CNG is that of the OpenSSL backend.
use git_crypt.Base.{
  ℕ, ◌<◌, ◌^◌, ◌%◌, ◌≡◌, refl, ap, ◌∙◌, Bool, true, List, [], ◌∷◌, ◌++◌, Bytes, All, length, take,
  codes, take_of_le, arith,
}
use git_crypt.Base.Results.{ok}
use git_crypt.Crypto.{OpenSsl, HmacState, hmac_state}
use git_crypt.Crypto as OpenSslCrypto
use git_crypt.Windows.Crypto.{
  Cng, Run, ◌>>=◌, hmac_sha1_state, HmacImpl, hmac_add, hmac_get, object_length,
}
use git_crypt.Windows.Crypto.Calls.{
  Returns, Succeeds, call_then, resize_then, call-Returns, bind-Returns,
}

abbrev pub IsShort : Bytes → Type 0
IsShort s = length s < 2 ^ 32

take_short : (s : Bytes) → IsShort s → take (length s % 2 ^ 32) s ≡ s
take_short s h = take_of_le (length s % 2 ^ 32) s (omega (arith, h))

-- What the OpenSSL backend adds up.
abbrev pub added : (O : OpenSsl) → HmacState O → List Bytes → HmacState O
added O m [] = m
added O m (buffer ∷ buffers) = added O (OpenSslCrypto.hmac_add O m buffer) buffers

module _ ⦃C : Cng⦄ where
  -- Documented behaviour of CNG: its calls succeed, a provider has the algorithm and the flag that
  -- it was opened with, and a hash object of a SHA1 provider with the HMAC flag has the key and the
  -- bytes that it was given. `hmac_of` are the objects that were made so; the digest of one is the
  -- HMAC of them.
  pub record Hashes (O : OpenSsl) : Type 0 where
    pub algorithm_of : ℕ → C.State → Bytes
    pub has_flag : ℕ → C.State → Bool
    pub key_of : ℕ → C.State → Bytes
    pub bytes_of : ℕ → C.State → Bytes
    pub hmac_of : ℕ → C.State → Bool
    pub object_size : Bytes → Bool → ℕ
    pub opens :
        (name : Bytes) (flag : Bool) (h : C.State)
        → Succeeds
            (λ alg h1. (algorithm_of alg h1 ≡ name) × (has_flag alg h1 ≡ flag))
            (C.open_algorithm_provider name flag h)
    pub has_length :
        (alg : ℕ) (h : C.State)
        → Succeeds
            (λ size h1.
              (size ≡ object_size (algorithm_of alg h) (has_flag alg h))
              × (algorithm_of alg h1 ≡ algorithm_of alg h)
              × (has_flag alg h1 ≡ has_flag alg h))
            (C.get_object_length alg h)
    pub allocates :
        (alg size : ℕ) (h : C.State)
        → (algorithm_of alg (C.allocate size h).1 ≡ algorithm_of alg h)
          × (has_flag alg (C.allocate size h).1 ≡ has_flag alg h)
    pub creates :
        (alg object size : ℕ) (key : Bytes) (h : C.State)
        → algorithm_of alg h ≡ codes "SHA1"
        → has_flag alg h ≡ true
        → size ≡ object_size (codes "SHA1") true
        → Succeeds
            (λ hash h1. (hmac_of hash h1 ≡ true) × (key_of hash h1 ≡ key) × (bytes_of hash h1 ≡ []))
            (C.create_hash alg object size key h)
    pub hashes :
        (hash : ℕ) (buffer : Bytes) (h : C.State)
        → Succeeds
            (λ done h1.
              (hmac_of hash h1 ≡ hmac_of hash h)
              × (key_of hash h1 ≡ key_of hash h)
              × (bytes_of hash h1 ≡ bytes_of hash h ++ buffer))
            (C.hash_data hash buffer h)
    pub finishes :
        (hash n : ℕ) (h : C.State)
        → hmac_of hash h ≡ true
        → Succeeds
            (λ digest h1. digest ≡ take n (O.hmac_sha1 (key_of hash h) (bytes_of hash h)))
            (C.finish_hash hash n h)

  -- A client that adds these buffers and takes the digest.
  add_all : HmacImpl → List Bytes → Run (Unit {0})
  add_all impl [] = λ h. (ok tt, h)
  add_all impl (buffer ∷ buffers) = do done ← hmac_add impl buffer; add_all impl buffers

  pub digest_of : Bytes → List Bytes → Run Bytes
  unfolding add_all
  digest_of key buffers = do impl ← hmac_sha1_state key; done ← add_all impl buffers; hmac_get impl

  module _ (O : OpenSsl) (H : Hashes O) where
    -- The hash object stands for this state of the other backend.
    pub record Stands (impl : HmacImpl) (m : HmacState O) (h : C.State) : Type 0 where
      pub hmac : H.hmac_of impl.hash h ≡ true
      pub key : H.key_of impl.hash h ≡ m.key
      pub bytes : H.bytes_of impl.hash h ≡ m.message

    -- The provider is one of SHA1 with the HMAC flag.
    record Ready (alg : ℕ) (h : C.State) : Type 0 where
      algorithm : H.algorithm_of alg h ≡ codes "SHA1"
      flag : H.has_flag alg h ≡ true

    Ready-allocate :
        (alg : ℕ) {size : ℕ} (h : C.State) → Ready alg h → Ready alg (C.allocate size h).1
    Ready-allocate alg {size} h r =
        let kept = H.allocates alg size h in
        record { algorithm = kept.0 ∙ r.algorithm; flag = kept.1 ∙ r.flag }

    hmac_sha1_state-Stands :
        (key : Bytes) (h : C.State)
        → IsShort key
        → Returns (λ impl h1. Stands impl (hmac_state O key) h1) (hmac_sha1_state key h)
    unfolding hmac_sha1_state object_length
    hmac_sha1_state-Stands key h short =
        call_then _ _ (C.open_algorithm_provider (codes "SHA1") true) _ _ h
          (H.opens (codes "SHA1") true h)
          (λ alg h1 (sha1, flag).
            call_then _ _ (C.get_object_length alg) _ _ h1 (H.has_length alg h1)
              (λ size h2 (sized, same_algorithm, same_flag).
                let fits = sized ∙ rw (sha1, flag) refl in
                resize_then (Ready alg) _ size _ h2 (Ready-allocate alg)
                  (record { algorithm = same_algorithm ∙ sha1; flag = same_flag ∙ flag })
                  (λ object h3 r. rw (take_short key short) (
                    call_then _ _ (C.create_hash alg object size key) _ _ h3
                      (H.creates alg object size key h3 r.algorithm r.flag fits)
                      (λ hash h4 (made, keyed, none_yet). record {
                        hmac = made;
                        key = keyed;
                        bytes = none_yet;
                      })))))

    hmac_add-Stands :
        (impl : HmacImpl) (m : HmacState O) (buffer : Bytes) (h : C.State)
        → IsShort buffer
        → Stands impl m h
        → Returns
            (λ done h1. Stands impl (OpenSslCrypto.hmac_add O m buffer) h1)
            (hmac_add impl buffer h)
    unfolding hmac_add
    hmac_add-Stands impl m buffer h short s = rw (take_short buffer short) (
        call-Returns _ _ (C.hash_data impl.hash buffer) _ h (H.hashes impl.hash buffer h)
          (λ done h1 (same, keyed, more). record {
            hmac = same ∙ s.hmac;
            key = keyed ∙ s.key;
            bytes = more ∙ ap (λ (b : Bytes). b ++ buffer) s.bytes;
          }))

    add_all-Stands :
        (impl : HmacImpl) (m : HmacState O) (buffers : List Bytes) (h : C.State)
        → All IsShort buffers
        → Stands impl m h
        → Returns (λ done h1. Stands impl (added O m buffers) h1) (add_all impl buffers h)
    unfolding add_all
    add_all-Stands impl m [] h short s = s
    add_all-Stands impl m (buffer ∷ buffers) h (short, rest) s =
        bind-Returns _ _ (hmac_add impl buffer) _ h (hmac_add-Stands impl m buffer h short s)
          (λ done h1 s1. add_all-Stands impl (OpenSslCrypto.hmac_add O m buffer) buffers h1 rest s1)

    hmac_get-Stands :
        (impl : HmacImpl) (m : HmacState O) (h : C.State)
        → Stands impl m h
        → Returns (λ digest h1. digest ≡ take 20 (OpenSslCrypto.hmac_get O m)) (hmac_get impl h)
    unfolding hmac_get
    hmac_get-Stands impl m h s =
        call-Returns _ _ (C.finish_hash impl.hash 20) _ h (H.finishes impl.hash 20 h s.hmac)
          (λ digest h1 e. e ∙ rw (s.key, s.bytes) refl)

    -- Where the calls of CNG succeed and do as documented (a hash made with a SHA1 provider that
    -- was opened with the HMAC flag, in an object of the size that the provider asks for, is an
    -- HMAC-SHA1), a client of the Windows backend that gives a key and adds buffers, each below 2
    -- ^ 32 bytes, gets a digest: the first 20 bytes of what the OpenSSL backend gives for the
    -- same key and buffers.
    pub digest_of-hmac_get :
        (key : Bytes) (buffers : List Bytes) (h : C.State)
        → IsShort key
        → All IsShort buffers
        → Returns
            (λ digest h1.
              digest ≡ take 20 (OpenSslCrypto.hmac_get O (added O (hmac_state O key) buffers)))
            (digest_of key buffers h)
    unfolding digest_of
    digest_of-hmac_get key buffers h short all_short =
        bind-Returns _ _ (hmac_sha1_state key) _ h (hmac_sha1_state-Stands key h short)
          (λ impl h1 s.
            bind-Returns _ _ (add_all impl buffers) _ h1
              (add_all-Stands impl (hmac_state O key) buffers h1 all_short s)
              (λ done h2 s2. hmac_get-Stands impl (added O (hmac_state O key) buffers) h2 s2))
