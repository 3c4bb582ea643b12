-- ===== src/Crypto/Stream.antt =====
-- The cipher is the exclusive or with a key stream that depends on the key, the nonce and the position alone.
use git_crypt.Base.{
  ℕ, suc, ◌+◌, ◌/◌, ◌%◌, ◌^◌, ◌≤◌, ◌<◌, ◌≡◌, refl, ap, ◌∙◌, ◌≢◌, inl, inr, false, [], ◌∷◌, ◌++◌,
  Bytes, codes, length, take, get_or, ◌==◌, arith, Bool-cases, length-take, take-append, bit_xor,
}
use git_crypt.Base.Results.{Exception, crypto_error, ok, err, ◌>>=◌}
use native.Mathlib.Decide.{dec_lt}
use git_crypt.Base.Bits.{bit_xor_cancel}
use git_crypt.Util.{store_be32}
use git_crypt.Crypto.{OpenSsl, nonce_len, block_len, CtrEncryptor, refill, process}

-- What `process` throws when its counter wraps.
abbrev pub too_much : Exception
too_much =
    crypto_error (codes "Aes_ctr_encryptor::process") (codes "Too much data to encrypt securely")

module _ (O : OpenSsl) (schedule : O.Schedule) (nonce : Bytes) where
  -- Byte `i` of the key stream: byte `i % 16` of the encryption of the nonce and block number.
  abbrev pub key_stream : ℕ → ℕ
  key_stream i =
      get_or (O.encrypt schedule (take nonce_len nonce ++ store_be32 (i / block_len)))
        (i % block_len) 0

  -- The bytes, each combined with the key stream from position `i` on.
  unfoldable pub xor_stream : Bytes → ℕ → Bytes
  xor_stream [] i = []
  xor_stream (b ∷ s) i = bit_xor b (key_stream i) ∷ xor_stream s (suc i)

  pub xor_stream_cancel : (s : Bytes) (i : ℕ) → xor_stream (xor_stream s i) i ≡ s
  unfolding xor_stream
  xor_stream_cancel [] i = refl
  xor_stream_cancel (b ∷ s) i = cc (bit_xor_cancel b (key_stream i), xor_stream_cancel s (suc i))

  pub length-xor_stream : (s : Bytes) (i : ℕ) → length (xor_stream s i) ≡ length s
  unfolding xor_stream
  length-xor_stream [] i = refl
  length-xor_stream (b ∷ s) i = ap suc (length-xor_stream s (suc i))

  pub xor_stream-append :
      (s t : Bytes) (i : ℕ) → xor_stream (s ++ t) i ≡ xor_stream s i ++ xor_stream t (i + length s)
  unfolding xor_stream
  xor_stream-append [] t i = let e : i + 0 ≡ i = omega arith in rw e
  xor_stream-append (b ∷ s) t i =
      let e : i + suc (length s) ≡ suc i + length s = omega arith in
      rw (e, xor_stream-append s t (suc i))

  -- An encryptor that has processed some bytes and can go on.
  pub record IsReady (c : CtrEncryptor O) : Type 0 where
    pub same_key : c.ecb ≡ schedule
    pub same_nonce : take nonce_len c.ctr_value ≡ take nonce_len nonce
    pub current_pad :
        c.byte_counter % block_len ≢ 0
        → c.pad
          ≡ O.encrypt schedule (take nonce_len nonce ++ store_be32 (c.byte_counter / block_len))
    pub in_range : c.byte_counter < 2 ^ 32

  module _ (long : nonce_len ≤ length nonce) where
    prefix_kept :
        (rest : Bytes) → take nonce_len (take nonce_len nonce ++ rest) ≡ take nonce_len nonce
    prefix_kept rest =
        take-append nonce_len (take nonce_len nonce) rest
          (omega (arith, length-take nonce_len nonce))

    refill-IsReady :
        (c : CtrEncryptor O)
        → IsReady c
        → let r = refill O c in
          (r.byte_counter ≡ c.byte_counter)
          × (r.ecb ≡ schedule)
          × (take nonce_len r.ctr_value ≡ take nonce_len nonce)
          × (r.pad
              ≡ O.encrypt schedule
                  (take nonce_len nonce ++ store_be32 (c.byte_counter / block_len)))
    unfolding refill
    refill-IsReady c w = elim (Bool-cases (c.byte_counter % block_len == 0)) [
      | inl fresh ↦
          rw fresh
            (refl, w.same_key, rw w.same_nonce (prefix_kept _), rw (w.same_key, w.same_nonce))
      | inr old ↦ rw old (refl, w.same_key, w.same_nonce, w.current_pad (ground arith))
    ]

    abbrev advanced : CtrEncryptor O → CtrEncryptor O
    advanced c = record (refill O c) { byte_counter = c.byte_counter + 1 }

    advanced-IsReady :
        (c : CtrEncryptor O) → IsReady c → c.byte_counter + 1 < 2 ^ 32 → IsReady (advanced c)
    advanced-IsReady c w h =
        let (n, k, v, p) = refill-IsReady c w in
        record {
          same_key = k;
          same_nonce = v;
          current_pad = λ ne.
              let same : (c.byte_counter + 1) / block_len ≡ c.byte_counter / block_len =
                omega arith in
              rw same p;
          in_range = h;
        }

    process_step :
        (b : ℕ) (t : Bytes) (c : CtrEncryptor O)
        → IsReady c
        → c.byte_counter + 1 < 2 ^ 32
        → process O (b ∷ t) c ≡ (
            process O t (advanced c) >>= λ (rest, c').
            ok (bit_xor b (key_stream c.byte_counter) ∷ rest, c'))
    unfolding process
    process_step b t c w h =
        let (n, k, v, p) = refill-IsReady c w in
        let small : (c.byte_counter + 1) % 2 ^ 32 ≡ c.byte_counter + 1 = omega arith in
        let more : (c.byte_counter + 1 == 0) ≡ false = ground arith in rw (n, small, more, p)

    -- From an encryptor that is ready, with a nonce of 12 bytes or more, input that keeps the
    -- byte counter below 2 ^ 32 is combined with the key stream from the counter on, and the
    -- encryptor is ready for what follows, with the counter moved on by the length of the input.
    pub process_lem :
        (s : Bytes) (c : CtrEncryptor O)
        → IsReady c
        → c.byte_counter + length s < 2 ^ 32
        → (c' : CtrEncryptor O) × (process O s c ≡ ok (xor_stream s c.byte_counter, c'))
          × IsReady c'
          × (c'.byte_counter ≡ c.byte_counter + length s)
    unfolding xor_stream
    process_lem [] c w h = (c, unfold process in refl, w, omega arith)
    process_lem (b ∷ t) c w h =
        let ready = advanced-IsReady c w (omega arith) in
        let (c', e, w', n) = process_lem t (advanced c) ready (omega arith) in
        let next : c.byte_counter + 1 ≡ suc c.byte_counter = omega arith in
        (c', process_step b t c w (omega arith) ∙ rw e (rw next refl), w', omega arith)

    last_byte :
        (b : ℕ) (t : Bytes) (c : CtrEncryptor O)
        → IsReady c
        → c.byte_counter + 1 ≡ 2 ^ 32
        → process O (b ∷ t) c ≡ err too_much
    unfolding process
    last_byte b t c w h =
        let (n, k, v, p) = refill-IsReady c w in
        let wraps : (c.byte_counter + 1) % 2 ^ 32 ≡ 0 = omega arith in rw (n, wraps)

    -- From an encryptor that is ready, with a nonce of 12 bytes or more, input that brings the
    -- byte counter to 2 ^ 32 or beyond makes `process` throw, whatever the bytes are.
    pub process_overflow :
        (s : Bytes) (c : CtrEncryptor O)
        → IsReady c
        → 2 ^ 32 ≤ c.byte_counter + length s
        → process O s c ≡ err too_much
    process_overflow [] c w h = absurd (omega (arith, w.in_range))
    process_overflow (b ∷ t) c w h = elim (dec_lt (c.byte_counter + 1) (2 ^ 32)) [
      | yes room ↦
          let ready = advanced-IsReady c w room in
          process_step b t c w room ∙ rw (process_overflow t (advanced c) ready (omega arith))
      | no full ↦ last_byte b t c w (omega (arith, w.in_range))
    ]
