-- ===== src/Clean/Output.antt =====
-- commands.cpp, `clean`: what it writes.
use git_crypt.Base.{
  ℕ, zero, suc, ◌+◌, ◌^◌, ◌≤◌, ◌<◌, ◌≡◌, refl, sym, ap, ◌∙◌, inl, inr, false, none, some, [], ◌∷◌,
  ◌++◌, append_assoc, append-nil, Bytes, length, take, drop, leb, arith, Option-cases,
  length-append, length-take, length-drop,
}
use git_crypt.Base.Results.{Result, ok}
use git_crypt.Host.{Host}
use git_crypt.Exec.{World}
use git_crypt.Clean.{Plaintext, encrypt_out, encrypt_plaintext, clean_with}
use git_crypt.Crypto.Chunks.{ctr_encryptor-IsReady, xor_stream_split}
use git_crypt.Crypto.Stream.{xor_stream, xor_stream-append, IsReady, process_lem}
use git_crypt.Crypto.{nonce_len, max_crypt_bytes, CtrEncryptor, hmac_state, hmac_get}
use git_crypt.Git.Attributes.{encrypted_magic}
use git_crypt.KeyFile.{Entry}
use git_crypt.Clean.Reading.{spilt, contents, TempOpens, read_plaintext_lem}

module _ ⦃H : Host⦄ where
  -- The end of a run that returns 0 and has written `out` in all.
  abbrev pub returned : World → Bytes → Result ℕ × World
  returned w out = (ok 0, record w { cout = out })

  module _ (schedule : H.openssl.Schedule) (nonce : Bytes) (long : nonce_len ≤ length nonce) where
    -- With enough fuel, `encrypt_out` writes the input combined with the key stream.
    pub encrypt_out_lem :
        (fuel : ℕ) (s : Bytes) (c : CtrEncryptor H.openssl) (w : World)
        → length s ≤ fuel
        → IsReady H.openssl schedule nonce c
        → c.byte_counter + length s < 2 ^ 32
        → (c' : CtrEncryptor H.openssl) × (encrypt_out fuel s c w ≡ (
          ok c',
          record w { cout = w.cout ++ xor_stream H.openssl schedule nonce s c.byte_counter },
        ))
          × IsReady H.openssl schedule nonce c'
          × (c'.byte_counter ≡ c.byte_counter + length s)
    unfolding encrypt_out
    encrypt_out_lem fuel [] c w enough ready small =
        (c, unfold xor_stream in rw (append-nil w.cout) refl, ready, omega arith)
    encrypt_out_lem zero (b ∷ s) c w enough ready small = absurd (omega arith)
    encrypt_out_lem (suc fuel) (b ∷ s) c w enough ready small =
        let taken = length-take 1024 (b ∷ s) in
        let left = length-drop 1024 (b ∷ s) in
        let (c1, e, ready', n) =
          process_lem H.openssl schedule nonce long (take 1024 (b ∷ s)) c ready (omega arith) in
        let written = xor_stream H.openssl schedule nonce (take 1024 (b ∷ s)) c.byte_counter in
        let (c2, e2, ready2, n2) =
          encrypt_out_lem fuel (drop 1024 (b ∷ s)) c1 (record w { cout = w.cout ++ written })
            (omega (arith, left)) ready' (omega arith) in
        (
          c2,
          rw
              (
                e,
                e2,
                append_assoc,
                xor_stream_split H.openssl schedule nonce long 1024 (b ∷ s) c.byte_counter
                    c1.byte_counter n,
              )
              refl,
          ready2,
          omega arith,
        )

    -- Two stretches written one after the other.
    written_twice :
        (out s t : Bytes)
        → (out ++ xor_stream H.openssl schedule nonce s 0)
            ++ xor_stream H.openssl schedule nonce t (0 + length s)
          ≡ out ++ xor_stream H.openssl schedule nonce (s ++ t) 0
    written_twice out s t =
        append_assoc out _ _
        ∙ ap (λ x. out ++ x) (sym (xor_stream-append H.openssl schedule nonce s t 0))

    header_first : (out magic n x : Bytes) → ((out ++ magic) ++ n) ++ x ≡ out ++ (magic ++ (n ++ x))
    header_first out magic n x = append_assoc (out ++ magic) n x ∙ append_assoc out magic (n ++ x)

    -- Once a file below 2 ^ 32 bytes is read, all of it is written, in memory or spilt.
    pub encrypt_plaintext_lem :
        (key : Entry) (p : Plaintext) (w : World)
        → hmac_get H.openssl p.hmac ≡ nonce
        → H.openssl.set_encrypt_key key.aes_key 256 ≡ some schedule
        → p.file_size ≡ length (contents p)
        → p.file_size < 2 ^ 32
        → encrypt_plaintext key p w ≡ (
          ok 0,
          record w {
            cout =
                w.cout
                ++ (encrypted_magic
                    ++ (take nonce_len nonce
                        ++ xor_stream H.openssl schedule nonce (contents p) 0));
          },
        )
    unfolding encrypt_plaintext
    encrypt_plaintext_lem key p w digest scheduled counted small =
        let room : leb max_crypt_bytes p.file_size ≡ false = ground arith in
        let (c0, e0, ready0, n0) =
          ctr_encryptor-IsReady H.openssl schedule nonce long key.aes_key scheduled in
        let start = (w.cout ++ encrypted_magic) ++ take nonce_len nonce in
        let sizes = length-append p.file_contents (spilt p.temp_file) in
        let (c1, e1, ready1, n1) =
          encrypt_out_lem (length p.file_contents) p.file_contents c0 (record w { cout = start })
            (omega arith) ready0 (omega (arith, counted, sizes)) in
        elim (Option-cases p.temp_file) [
          | inl e ↦
              rw (room, digest, e0, e1, e, n0, append-nil p.file_contents)
                (ap (returned w) (header_first w.cout encrypted_magic _ _))
          | inr (s, e) ↦
              let (c2, e2, ready2, n2) =
                encrypt_out_lem (length s) s c1
                  (record w {
                    cout =
                        start
                        ++ xor_stream H.openssl schedule nonce p.file_contents c0.byte_counter;
                  })
                  (omega arith) ready1
                  (omega (arith, counted, sizes, ap (λ t. length (spilt t)) e)) in
              rw (room, digest, e0, e1, e, e2, n1, n0)
                (ap (returned w)
                  (written_twice start p.file_contents s ∙ header_first w.cout encrypted_magic _ _))
        ]

  -- The encrypted form of a file: the header, the nonce and the bytes combined with the key stream.
  abbrev pub encrypted : H.openssl.Schedule → Entry → Bytes → Bytes
  encrypted schedule key s =
      let digest = H.openssl.hmac_sha1 key.hmac_key s in
      encrypted_magic ++ (take nonce_len digest ++ xor_stream H.openssl schedule digest s 0)

  -- What `clean` starts from.
  abbrev pub nothing_read : Entry → Plaintext
  nothing_read key = record {
    hmac = hmac_state H.openssl key.hmac_key;
    file_size = 0;
    file_contents = [];
    temp_file = none;
  }

  -- For a key that AES accepts, an HMAC of 12 bytes or more, an input below 2 ^ 32 bytes and a
  -- system where a temporary file can be made, `clean` ends with status 0 and has written the
  -- header, the first 12 bytes of the HMAC of the input, and the input combined with the key
  -- stream, whether the input stayed in memory or was spilt to a temporary file.
  pub clean_with_lem :
      (schedule : H.openssl.Schedule) (key : Entry) (w : World)
      → TempOpens
      → H.openssl.set_encrypt_key key.aes_key 256 ≡ some schedule
      → nonce_len ≤ length (H.openssl.hmac_sha1 key.hmac_key w.cin)
      → length w.cin < 2 ^ 32
      → (h : H.State) × (clean_with key w
          ≡ (ok 0, record w { host = h; cout = w.cout ++ encrypted schedule key w.cin }))
  unfolding clean_with
  clean_with_lem schedule key w opens scheduled long small =
      let (q, h, e, got) =
        read_plaintext_lem opens (suc (length w.cin)) w.cin (nothing_read key) w
          (record { in_memory = inl refl }) (omega arith) (omega arith) in
      let sized : q.file_size ≡ length (contents q) =
        omega (arith, got.counted, ap length got.collected) in
      let digest = H.openssl.hmac_sha1 key.hmac_key w.cin in
      let out =
        encrypt_plaintext_lem schedule digest long key q (record w { host = h })
          (rw got.hashed refl) scheduled sized (omega (arith, got.counted)) in
      (h, rw e (out ∙ rw got.collected refl))
