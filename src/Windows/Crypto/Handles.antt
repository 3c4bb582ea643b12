-- ===== src/Windows/Crypto/Handles.antt =====
-- win-build/crypto-win32.cpp: the handles that the two objects open and close.
use git_crypt.Base.{
  ℕ, suc, ◌-◌, ◌≡◌, ap, ◌∙◌, ◌⊎◌, inl, inr, Bool, true, false, Bytes, codes, length, take, ◌==◌,
  Bool-cases, ◌%◌, ◌^◌, arith,
}
use git_crypt.Base.Results.{Result, ok, err, stuck}
use git_crypt.Windows.Crypto.{
  Cng, Run, ◌>>=◌, nt_success, check_nt, call, resize, object_length, AesImpl, aes_ecb_encryptor,
  destroy_aes, HmacImpl, hmac_sha1_state, destroy_hmac,
}

-- The handles that are open after a constructor threw, by whether the provider was opened.
abbrev pub left_open : Bool → ℕ → ℕ
left_open true n = suc n
left_open false n = n

module _ ⦃C : Cng⦄ where
  -- The call gave a handle that is not null, one more that is open; or it failed and opened none.
  abbrev pub Obtains : (C.State → ℕ) → C.State → (ℕ × ℕ) × C.State → Type 0
  Obtains opened h ((status, handle), h1) =
      ((nt_success status ≡ true) × ((handle == 0) ≡ false) × (opened h1 ≡ suc (opened h)))
      ⊎ ((nt_success status ≡ false) × (opened h1 ≡ opened h))

  -- Documented behaviour of CNG: which calls open a handle and which close one.
  pub record Handles : Type 0 where
    pub opened : C.State → ℕ
    pub opens :
        (name : Bytes) (flag : Bool) (h : C.State)
        → Obtains opened h (C.open_algorithm_provider name flag h)
    pub generates :
        (alg object size : ℕ) (secret : Bytes) (h : C.State)
        → Obtains opened h (C.generate_symmetric_key alg object size secret h)
    pub creates :
        (alg object size : ℕ) (key : Bytes) (h : C.State)
        → Obtains opened h (C.create_hash alg object size key h)
    pub destroys_key : (key : ℕ) (h : C.State) → opened (C.destroy_key key h) ≡ opened h - 1
    pub destroys_hash : (hash : ℕ) (h : C.State) → opened (C.destroy_hash hash h) ≡ opened h - 1
    pub closes : (alg : ℕ) (h : C.State) → opened (C.close_algorithm_provider alg h) ≡ opened h - 1
    pub sets_mode :
        (alg : ℕ) (mode : Bytes) (h : C.State)
        → opened (C.set_chaining_mode alg mode h).1 ≡ opened h
    pub has_length : (alg : ℕ) (h : C.State) → opened (C.get_object_length alg h).1 ≡ opened h
    pub allocates : (size : ℕ) (h : C.State) → opened (C.allocate size h).1 ≡ opened h
    pub wipes : (p size : ℕ) (h : C.State) → opened (C.wipe p size h) ≡ opened h

  module _ (H : Handles) where
    -- An object that was made leaves `base` handles once it is destroyed; where making it throws,
    -- `left` are open.
    abbrev pub Balanced :
        {A : Type 0} → (A → C.State → C.State) → ℕ → ℕ → Result A × C.State → Type 0
    Balanced destroy base left (ok a, h) = H.opened (destroy a h) ≡ base
    Balanced destroy base left (err e, h) = H.opened h ≡ left
    Balanced destroy base left (stuck, h) = ⊥

    module _ {A : Type 0} (destroy : A → C.State → C.State) (base left : ℕ) where
      call_keeps :
          {B : Type 0} (f : C.State → (ℕ × B) × C.State) (place : Bytes) (next : B → Run A)
          (h : C.State)
          → H.opened (f h).1 ≡ left
          → ((b : B) (h1 : C.State) → H.opened h1 ≡ left → Balanced destroy base left (next b h1))
          → Balanced destroy base left ((call f place >>= next) h)
      unfolding call check_nt
      call_keeps f place next h e more = elim (Bool-cases (nt_success (f h).0.0)) [
        | inl good ↦ rw good (more (f h).0.1 (f h).1 e)
        | inr bad ↦ rw bad e
      ]

      resize_keeps :
          (size : ℕ) (next : ℕ → Run A) (h : C.State)
          → H.opened h ≡ left
          → ((p : ℕ) (h1 : C.State) → H.opened h1 ≡ left → Balanced destroy base left (next p h1))
          → Balanced destroy base left ((resize size >>= next) h)
      unfolding resize
      resize_keeps size next h e more = elim (Bool-cases (size == 0)) [
        | inl none_needed ↦ rw none_needed (more 0 h e)
        | inr some_needed ↦
            rw some_needed
              (more (C.allocate size h).0 (C.allocate size h).1 (H.allocates size h ∙ e))
      ]

      -- A call that opens a handle; where it fails, those of before are left.
      obtain_then :
          (f : C.State → (ℕ × ℕ) × C.State) (place : Bytes) (next : ℕ → Run A) (h : C.State)
          → Obtains H.opened h (f h)
          → H.opened h ≡ left
          → ((handle : ℕ) (h1 : C.State)
              → (handle == 0) ≡ false
              → H.opened h1 ≡ suc left
              → Balanced destroy base left (next handle h1))
          → Balanced destroy base left ((call f place >>= next) h)
      unfolding call check_nt
      obtain_then f place next h (inl (good, live, more)) e then_ =
          rw good (then_ (f h).0.1 (f h).1 live (more ∙ ap suc e))
      obtain_then f place next h (inr (bad, same)) e then_ = rw bad (same ∙ e)

    -- The first call, of the provider.
    opens_then :
        {A : Type 0} (destroy : A → C.State → C.State) (f : C.State → (ℕ × ℕ) × C.State)
        (place : Bytes) (next : ℕ → Run A) (h : C.State)
        → Obtains H.opened h (f h)
        → ((alg : ℕ) (h1 : C.State)
            → (alg == 0) ≡ false
            → H.opened h1 ≡ suc (H.opened h)
            → Balanced destroy (H.opened h) (suc (H.opened h)) (next alg h1))
        → Balanced destroy
            (H.opened h)
            (left_open (nt_success (f h).0.0) (H.opened h))
            ((call f place >>= next) h)
    unfolding call check_nt
    opens_then destroy f place next h (inl (good, live, more)) then_ =
        rw good (then_ (f h).0.1 (f h).1 live more)
    opens_then destroy f place next h (inr (bad, same)) then_ = rw bad same

    destroy_aes-opened :
        (impl : AesImpl) (n : ℕ) (h : C.State)
        → (impl.alg == 0) ≡ false
        → (impl.key == 0) ≡ false
        → H.opened h ≡ suc (suc n)
        → H.opened (destroy_aes impl h) ≡ n
    unfolding destroy_aes
    destroy_aes-opened impl n h alg key e =
        let h1 = C.destroy_key impl.key h in
        let h2 = C.close_algorithm_provider impl.alg h1 in
        let closed : H.opened h2 ≡ n =
          omega (arith, H.closes impl.alg h1, H.destroys_key impl.key h, e) in
        elim (Bool-cases (impl.key_object_size == 0)) [
          | inl none_held ↦ rw (key, alg, none_held) closed
          | inr held ↦
              rw (key, alg, held) (H.wipes impl.key_object impl.key_object_size h2 ∙ closed)
        ]

    destroy_hmac-opened :
        (impl : HmacImpl) (n : ℕ) (h : C.State)
        → (impl.alg == 0) ≡ false
        → (impl.hash == 0) ≡ false
        → H.opened h ≡ suc (suc n)
        → H.opened (destroy_hmac impl h) ≡ n
    unfolding destroy_hmac
    destroy_hmac-opened impl n h alg hash e =
        let h1 = C.destroy_hash impl.hash h in
        let h2 = C.close_algorithm_provider impl.alg h1 in
        let closed : H.opened h2 ≡ n =
          omega (arith, H.closes impl.alg h1, H.destroys_hash impl.hash h, e) in
        elim (Bool-cases (impl.hash_object_size == 0)) [
          | inl none_held ↦ rw (hash, alg, none_held) closed
          | inr held ↦
              rw (hash, alg, held) (H.wipes impl.hash_object impl.hash_object_size h2 ∙ closed)
        ]

    pub aes_ecb_encryptor-Balanced :
        (raw_key : Bytes) (h : C.State)
        → Balanced destroy_aes
            (H.opened h)
            (left_open
              (nt_success (C.open_algorithm_provider (codes "AES") false h).0.0)
              (H.opened h))
            (aes_ecb_encryptor raw_key h)
    unfolding aes_ecb_encryptor object_length
    aes_ecb_encryptor-Balanced raw_key h =
        let n = H.opened h in
        let secret = take 32 raw_key in
        opens_then destroy_aes (C.open_algorithm_provider (codes "AES") false) _ _ h
          (H.opens (codes "AES") false h)
          (λ alg h1 live e1.
            call_keeps destroy_aes n (suc n) (C.set_chaining_mode alg (codes "ChainingModeECB")) _ _
              h1 (H.sets_mode alg (codes "ChainingModeECB") h1 ∙ e1)
              (λ done h2 e2.
                call_keeps destroy_aes n (suc n) (C.get_object_length alg) _ _ h2
                  (H.has_length alg h2 ∙ e2)
                  (λ size h3 e3. resize_keeps destroy_aes n (suc n) size _ h3 e3 (λ object h4 e4.
                    obtain_then destroy_aes n (suc n)
                      (C.generate_symmetric_key alg object size secret) _ _ h4
                      (H.generates alg object size secret h4) e4
                      (λ key h5 made e5.
                        destroy_aes-opened
                          (record {
                            alg = alg;
                            key = key;
                            key_object = object;
                            key_object_size = size;
                          })
                          n h5 live made e5)))))

    pub hmac_sha1_state-Balanced :
        (key : Bytes) (h : C.State)
        → Balanced destroy_hmac
            (H.opened h)
            (left_open
              (nt_success (C.open_algorithm_provider (codes "SHA1") true h).0.0)
              (H.opened h))
            (hmac_sha1_state key h)
    unfolding hmac_sha1_state object_length
    hmac_sha1_state-Balanced key h =
        let n = H.opened h in
        let secret = take (length key % 2 ^ 32) key in
        opens_then destroy_hmac (C.open_algorithm_provider (codes "SHA1") true) _ _ h
          (H.opens (codes "SHA1") true h)
          (λ alg h1 live e1.
            call_keeps destroy_hmac n (suc n) (C.get_object_length alg) _ _ h1
              (H.has_length alg h1 ∙ e1)
              (λ size h2 e2. resize_keeps destroy_hmac n (suc n) size _ h2 e2 (λ object h3 e3.
                obtain_then destroy_hmac n (suc n) (C.create_hash alg object size secret) _ _ h3
                  (H.creates alg object size secret h3) e3
                  (λ hash h4 made e4.
                    destroy_hmac-opened
                      (record {
                        alg = alg;
                        hash = hash;
                        hash_object = object;
                        hash_object_size = size;
                      })
                      n h4 live made e4))))
