-- ===== src/Clean/Limits.antt =====
-- commands.cpp, `clean`: how it meets the limits on the size of a file.
use git_crypt.Base.{
  ℕ, zero, suc, ◌+◌, ◌^◌, ◌≤◌, ◌<◌, ◌≡◌, refl, ap, ◌≢◌, inl, inr, true, false, some, [], ◌∷◌, ◌++◌,
  Bytes, length, take, drop, ◌==◌, ltb, leb, arith, Bool-cases, Option-cases, ==_iff, length-append,
  length-take, length-drop, take_of_le,
}
use git_crypt.Base.Results.{ok, err}
use git_crypt.Host.{Host}
use git_crypt.Exec.{World}
use git_crypt.Clean.{Plaintext, read_plaintext, encrypt_out, encrypt_plaintext, clean_with}
use git_crypt.Crypto.Chunks.{ctr_encryptor-IsReady}
use git_crypt.Crypto.Stream.{too_much, xor_stream, IsReady, process_lem, process_overflow}
use git_crypt.Crypto.{nonce_len, max_crypt_bytes, CtrEncryptor, ctr_encryptor, hmac_get}
use git_crypt.Git.Attributes.{encrypted_magic}
use git_crypt.KeyFile.{Entry}
use git_crypt.Clean.Reading.{
  spilt, contents, IsOrdered, TempOpens, keep_buffer_lem, read_plaintext_lem,
}
use git_crypt.Clean.Output.{nothing_read, encrypt_out_lem}
use native.Mathlib.Decide.{dec_lt}

leb_of_le : (m n : ℕ) → m ≤ n → leb m n ≡ true
leb_of_le m n h = ground arith

module _ ⦃H : Host⦄ where
  -- Where the input reaches the limit, the loop stops with at least that much counted.
  read_to_limit :
      (fuel : ℕ) (input : Bytes) (p : Plaintext) (w : World)
      → TempOpens
      → IsOrdered p
      → length input < fuel
      → max_crypt_bytes ≤ p.file_size + length input
      → (q : Plaintext) × (h : H.State) × (read_plaintext fuel input p w
          ≡ (ok q, record w { host = h }))
        × (max_crypt_bytes ≤ q.file_size)
  unfolding read_plaintext
  read_to_limit zero input p w opens o enough big = absurd (omega arith)
  read_to_limit (suc fuel) input p w opens o enough big =
      elim (Bool-cases (ltb p.file_size max_crypt_bytes)) [
        | inr reached ↦ (p, w.host, rw reached refl, ground arith)
        | inl room ↦
            let taken = length-take 1024 input in
            let left = length-drop 1024 input in
            let (q, h, e, got) = keep_buffer_lem opens (take 1024 input) p w o in
            elim (Bool-cases (length (take 1024 input) == 1024)) [
              | inl full ↦
                  let n : length (take 1024 input) ≡ 1024 = (==_iff _ 1024).0 full in
                  let (r, h', e', reached) =
                    read_to_limit fuel (drop 1024 input) q (record w { host = h }) opens got.ordered
                      (omega (arith, n, left)) (omega (arith, n, left, got.counted)) in
                  (r, h', rw (room, e, full, e') refl, reached)
              | inr last ↦
                  let short : length (take 1024 input) ≢ 1024 =
                    λ n. cc (last, (==_iff _ 1024).1 n) in
                  let whole : take 1024 input ≡ input =
                    take_of_le 1024 input (omega (arith, taken, short)) in
                  (q, h, rw (room, e, last) refl, omega (arith, got.counted, ap length whole))
            ]
      ]

  -- Where a temporary file can be made, an input of 2 ^ 36 bytes or more ends `clean` with status
  -- 1, and nothing is written to the standard output.
  pub clean_refuses_long_files :
      (key : Entry) (w : World)
      → TempOpens
      → max_crypt_bytes ≤ length w.cin
      → ((clean_with key w).0 ≡ ok 1) × ((clean_with key w).1.cout ≡ w.cout)
  unfolding clean_with encrypt_plaintext
  clean_refuses_long_files key w opens big =
      let (q, h, e, reached) =
        read_to_limit (suc (length w.cin)) w.cin (nothing_read key) w opens
          (record { in_memory = inl refl }) (omega arith) (omega arith) in
      let long : leb max_crypt_bytes q.file_size ≡ true = leb_of_le _ _ reached in
      (rw (e, long) refl, rw (e, long) refl)

  module _ (schedule : H.openssl.Schedule) (nonce : Bytes) (long : nonce_len ≤ length nonce) where
    -- The cipher throws as soon as 2 ^ 32 bytes are in.
    encrypt_out_overflow :
        (fuel : ℕ) (s : Bytes) (c : CtrEncryptor H.openssl) (w : World)
        → length s ≤ fuel
        → IsReady H.openssl schedule nonce c
        → 2 ^ 32 ≤ c.byte_counter + length s
        → (encrypt_out fuel s c w).0 ≡ err too_much
    unfolding encrypt_out
    encrypt_out_overflow fuel [] c w enough ready big = absurd (omega (arith, ready.in_range))
    encrypt_out_overflow zero (b ∷ s) c w enough ready big = absurd (omega arith)
    encrypt_out_overflow (suc fuel) (b ∷ s) c w enough ready big =
        let taken = length-take 1024 (b ∷ s) in
        let left = length-drop 1024 (b ∷ s) in
        elim (dec_lt (c.byte_counter + length (take 1024 (b ∷ s))) (2 ^ 32)) [
          | yes room ↦
              let (c1, e, ready', n) =
                process_lem H.openssl schedule nonce long (take 1024 (b ∷ s)) c ready room in
              let written =
                xor_stream H.openssl schedule nonce (take 1024 (b ∷ s)) c.byte_counter in
              rw e (
                encrypt_out_overflow fuel (drop 1024 (b ∷ s)) c1
                  (record w { cout = w.cout ++ written }) (omega (arith, left)) ready'
                  (omega (arith, n, left)))
          | no full ↦
              rw
                (process_overflow H.openssl schedule nonce long (take 1024 (b ∷ s)) c ready
                  (omega (arith, full)))
                refl
        ]

    spilt_overflow :
        (key : Entry) (p : Plaintext) (w : World) (c0 c1 : CtrEncryptor H.openssl) (s : Bytes)
        (w' : World)
        → leb max_crypt_bytes p.file_size ≡ false
        → ctr_encryptor H.openssl key.aes_key (hmac_get H.openssl p.hmac) ≡ ok c0
        → encrypt_out (length p.file_contents) p.file_contents c0 (record w {
          cout = (w.cout ++ encrypted_magic) ++ take nonce_len (hmac_get H.openssl p.hmac);
        })
          ≡ (ok c1, w')
        → p.temp_file ≡ some s
        → (encrypt_out (length s) s c1 w').0 ≡ err too_much
        → (encrypt_plaintext key p w).0 ≡ err too_much
    unfolding encrypt_plaintext
    spilt_overflow key p w c0 c1 s w' room e0 e1 e overflow = rw (room, e0, e1, e, overflow) refl

    encrypt_plaintext_overflow :
        (key : Entry) (p : Plaintext) (w : World)
        → hmac_get H.openssl p.hmac ≡ nonce
        → H.openssl.set_encrypt_key key.aes_key 256 ≡ some schedule
        → p.file_size ≡ length (contents p)
        → 2 ^ 32 ≤ p.file_size
        → p.file_size < max_crypt_bytes
        → (encrypt_plaintext key p w).0 ≡ err too_much
    unfolding encrypt_plaintext
    encrypt_plaintext_overflow key p w digest scheduled counted big small =
        let room : leb max_crypt_bytes p.file_size ≡ false = ground arith in
        let (c0, e0, ready0, n0) =
          ctr_encryptor-IsReady H.openssl schedule nonce long key.aes_key scheduled in
        let start = record w { cout = (w.cout ++ encrypted_magic) ++ take nonce_len nonce } in
        let sizes = length-append p.file_contents (spilt p.temp_file) in
        elim (dec_lt (length p.file_contents) (2 ^ 32)) [
          | no full ↦
              rw
                (
                  room,
                  digest,
                  e0,
                  encrypt_out_overflow (length p.file_contents) p.file_contents c0 start
                      (omega arith) ready0 (omega (arith, full)),
                )
                refl
          | yes fits ↦
              let (c1, e1, ready1, n1) =
                encrypt_out_lem schedule nonce long (length p.file_contents) p.file_contents c0
                  start (omega arith) ready0 (omega (arith, fits)) in
              elim (Option-cases p.temp_file) [
                | inl e ↦ absurd (omega (arith, counted, sizes, fits, ap (λ t. length (spilt t)) e))
                | inr (s, e) ↦
                    spilt_overflow key p w c0 c1 s
                      (record start {
                        cout =
                            start.cout
                            ++ xor_stream H.openssl schedule nonce p.file_contents c0.byte_counter;
                      })
                      room (rw digest e0) (rw digest e1) e
                      (encrypt_out_overflow (length s) s c1
                        (record start {
                          cout =
                              start.cout
                              ++ xor_stream H.openssl schedule nonce p.file_contents
                                  c0.byte_counter;
                        })
                        (omega arith) ready1
                        (omega (arith, counted, sizes, ap (λ t. length (spilt t)) e)))
              ]
        ]

  -- For a key that AES accepts, an HMAC of 12 bytes or more and a system where a temporary file
  -- can be made, an input of at least 2 ^ 32 bytes that is below the limit of 2 ^ 36 makes
  -- `clean` throw the error of the cipher, because its byte counter wraps.
  pub clean_throws_from_4_gib :
      (schedule : H.openssl.Schedule) (key : Entry) (w : World)
      → TempOpens
      → H.openssl.set_encrypt_key key.aes_key 256 ≡ some schedule
      → nonce_len ≤ length (H.openssl.hmac_sha1 key.hmac_key w.cin)
      → 2 ^ 32 ≤ length w.cin
      → length w.cin < max_crypt_bytes
      → (clean_with key w).0 ≡ err too_much
  unfolding clean_with
  clean_throws_from_4_gib schedule key w opens scheduled long big small =
      let (q, h, e, got) =
        read_plaintext_lem opens (suc (length w.cin)) w.cin (nothing_read key) w
          (record { in_memory = inl refl }) (omega arith) (omega arith) in
      let sized : q.file_size ≡ length (contents q) =
        omega (arith, got.counted, ap length got.collected) in
      let digest = H.openssl.hmac_sha1 key.hmac_key w.cin in
      rw e (
        encrypt_plaintext_overflow schedule digest long key q (record w { host = h })
          (rw got.hashed refl) scheduled sized (omega (arith, got.counted))
          (omega (arith, got.counted)))
