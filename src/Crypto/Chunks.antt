-- ===== src/Crypto/Chunks.antt =====
-- A whole stream, read 1024 bytes at a time, comes out as if it were processed at once.
use git_crypt.Base.{
  ℕ, zero, suc, ◌+◌, ◌^◌, ◌≤◌, ◌<◌, ◌≡◌, refl, ◌∙◌, ◌≢◌, inl, inr, some, [], ◌++◌, append_assoc,
  Bytes, length, take, drop, replicate, ◌==◌, arith, Bool-cases, ==_iff, length-take, length-drop,
  take-append-drop, take_of_le, take-append,
}
use git_crypt.Base.Results.{ok}
use git_crypt.Crypto.{
  OpenSsl, nonce_len, block_len, CtrEncryptor, ctr_encryptor, ecb_encryptor, process_chunks,
  process_stream,
}
use git_crypt.Crypto.Stream.{
  xor_stream, xor_stream_cancel, length-xor_stream, xor_stream-append, IsReady, process_lem,
}

module _ (O : OpenSsl) (schedule : O.Schedule) (nonce : Bytes)
    (long : nonce_len ≤ length nonce) where
  pub ctr_encryptor-IsReady :
      (key : Bytes)
      → O.set_encrypt_key key 256 ≡ some schedule
      → (c : CtrEncryptor O) × (ctr_encryptor O key nonce ≡ ok c)
        × IsReady O schedule nonce c
        × (c.byte_counter ≡ 0)
  unfolding ctr_encryptor ecb_encryptor
  ctr_encryptor-IsReady key h = (
    record {
      ecb = schedule;
      ctr_value = take nonce_len nonce ++ replicate 4 0;
      pad = replicate block_len 0;
      byte_counter = 0;
    },
    rw (h, ecb_encryptor),
    record {
      same_key = refl;
      same_nonce =
          take-append nonce_len (take nonce_len nonce) (replicate 4 0)
            (omega (arith, length-take nonce_len nonce));
      current_pad = λ ne. absurd (ne refl);
      in_range = omega arith;
    },
    refl,
  )

  -- Two stretches of the stream, one after the other.
  pub xor_stream_split :
      (n : ℕ) (s : Bytes) (i j : ℕ)
      → j ≡ i + length (take n s)
      → xor_stream O schedule nonce (take n s) i ++ xor_stream O schedule nonce (drop n s) j
        ≡ xor_stream O schedule nonce s i
  xor_stream_split n s i j h =
      rw (h, ← xor_stream-append O schedule nonce (take n s) (drop n s) i, take-append-drop n s)

  pub process_chunks_lem :
      (fuel : ℕ) (s : Bytes) (c : CtrEncryptor O) (out : Bytes)
      → length s < fuel
      → IsReady O schedule nonce c
      → c.byte_counter + length s < 2 ^ 32
      → (c' : CtrEncryptor O) × (process_chunks O fuel s c out
          ≡ (out ++ xor_stream O schedule nonce s c.byte_counter, ok c'))
  unfolding process_chunks
  process_chunks_lem zero s c out hf w h = absurd (omega arith)
  process_chunks_lem (suc fuel) s c out hf w h =
      let size = length-take 1024 s in
      let left = length-drop 1024 s in
      let (c1, e, w1, n) = process_lem O schedule nonce long (take 1024 s) c w (omega arith) in
      elim (Bool-cases (length (take 1024 s) == 1024)) [
        | inl full ↦
            let taken : length (take 1024 s) ≡ 1024 = (==_iff _ 1024).0 full in
            let (c2, e2) =
              process_chunks_lem fuel (drop 1024 s) c1
                (out ++ xor_stream O schedule nonce (take 1024 s) c.byte_counter) (omega arith) w1
                (omega arith) in
            (
              c2,
              rw (
                e,
                process_chunks,
                full,
                e2,
                append_assoc,
                xor_stream_split 1024 s c.byte_counter c1.byte_counter n,
              ),
            )
        | inr last ↦
            let short : length (take 1024 s) ≢ 1024 = λ p. cc (last, (==_iff _ 1024).1 p) in
            let whole : take 1024 s ≡ s = take_of_le 1024 s (omega arith) in
            (c1, rw (e, process_chunks, last, whole))
      ]

  -- For a key that AES accepts and a nonce of 12 bytes or more, a stream below 2 ^ 32 bytes that
  -- is processed 1024 bytes at a time comes out combined with the key stream from its start, and
  -- the run ends without an exception.
  pub process_stream_lem :
      (s key : Bytes)
      → O.set_encrypt_key key 256 ≡ some schedule
      → length s < 2 ^ 32
      → (c : CtrEncryptor O) × (process_stream O s key nonce
          ≡ (xor_stream O schedule nonce s 0, ok c))
  unfolding process_stream
  process_stream_lem s key h small =
      let (c0, e, w, z) = ctr_encryptor-IsReady key h in
      let (c1, e1) = process_chunks_lem (suc (length s)) s c0 [] (omega arith) w (omega arith) in
      (c1, rw (e, process_stream) (e1 ∙ rw z))

  -- For a key that AES accepts, a nonce of 12 bytes or more and an input below 2 ^ 32 bytes,
  -- running the cipher over its own output with the same key and nonce gives the input back.
  pub process_stream_twice :
      (s key : Bytes)
      → O.set_encrypt_key key 256 ≡ some schedule
      → length s < 2 ^ 32
      → (process_stream O (process_stream O s key nonce).0 key nonce).0 ≡ s
  process_stream_twice s key h small =
      let (c, e) = process_stream_lem s key h small in
      let out = xor_stream O schedule nonce s 0 in
      let (c', e') =
        process_stream_lem out key h (omega (arith, length-xor_stream O schedule nonce s 0)) in
      rw (e, e') (xor_stream_cancel O schedule nonce s 0)
