-- ===== src/Smudge/RoundTrip.antt =====
-- commands.cpp, `smudge` and `diff`: decrypting what was encrypted.
use git_crypt.Base.{
  ℕ, zero, suc, ◌+◌, ◌^◌, ◌≤◌, ◌<◌, ◌≡◌, refl, sym, ap, ◌∙◌, ◌≢◌, ◌↔◌, inl, inr, true, false, some,
  [], ◌∷◌, ◌++◌, append_assoc, Bytes, length, take, drop, ◌==◌, if◌then◌else◌, arith, Bool-cases,
  ==_iff, length-take, length-drop, take_of_le, take-append, drop-append,
}
use git_crypt.Base.Results.{Result, ok}
use git_crypt.Host.{Host}
use git_crypt.Exec.{World}
use git_crypt.Clean.{clean_with}
use git_crypt.Crypto.Chunks.{ctr_encryptor-IsReady, xor_stream_split}
use git_crypt.Crypto.Stream.{xor_stream, xor_stream_cancel, length-xor_stream, IsReady, process_lem}
use git_crypt.Crypto.{OpenSsl, nonce_len, CtrEncryptor, HmacState, hmac_state, hmac_add}
use git_crypt.Git.Attributes.{encrypted_magic}
use git_crypt.KeyFile.{KeyFile, Entry, get}
use git_crypt.Plumbing.{header_len}
use git_crypt.Util.{leakless_equals}
use git_crypt.Clean.Reading.{TempOpens}
use git_crypt.Clean.Output.{clean_with_lem}
use git_crypt.Smudge.{decrypt_out, decrypt_file_to_stdout, has_header, smudge_with}
use git_crypt.Util.Compare.{leakless_equals_iff}

zero≢one : ◌≢◌ {A = Result ℕ} (ok 0) (ok 1)
zero≢one e = ground arith

true≢false : true ≢ false
true≢false e = ground arith

-- Only the beginning of the nonce is used.
xor_stream_nonce :
    (O : OpenSsl) (schedule : O.Schedule) (m n s : Bytes) (i : ℕ)
    → take nonce_len m ≡ take nonce_len n
    → xor_stream O schedule m s i ≡ xor_stream O schedule n s i
unfolding xor_stream
xor_stream_nonce O schedule m n [] i h = refl
xor_stream_nonce O schedule m n (b ∷ s) i h =
    rw (h, xor_stream_nonce O schedule m n s (suc i) h) refl

module _ ⦃H : Host⦄ where
  module _ (schedule : H.openssl.Schedule) (nonce : Bytes) (long : nonce_len ≤ length nonce) where
    -- With enough fuel, the loop writes the input combined with the key stream, and takes the HMAC
    -- of what it writes.
    pub decrypt_out_lem :
        (fuel : ℕ) (s : Bytes) (c : CtrEncryptor H.openssl) (hmac : HmacState H.openssl) (w : World)
        → length s < fuel
        → IsReady H.openssl schedule nonce c
        → c.byte_counter + length s < 2 ^ 32
        → let plain = xor_stream H.openssl schedule nonce s c.byte_counter in
          decrypt_out fuel s c hmac w
          ≡ (ok (hmac_add H.openssl hmac plain), record w { cout = w.cout ++ plain })
    unfolding decrypt_out
    decrypt_out_lem zero s c hmac w enough ready small = absurd (omega arith)
    decrypt_out_lem (suc fuel) s c hmac w enough ready small =
        let taken = length-take 1024 s in
        let left = length-drop 1024 s in
        let (c1, e, ready', n) =
          process_lem H.openssl schedule nonce long (take 1024 s) c ready (omega arith) in
        let plain = xor_stream H.openssl schedule nonce (take 1024 s) c.byte_counter in
        let split =
          xor_stream_split H.openssl schedule nonce long 1024 s c.byte_counter c1.byte_counter n in
        elim (Bool-cases (length (take 1024 s) == 1024)) [
          | inl full ↦
              let k : length (take 1024 s) ≡ 1024 = (==_iff _ 1024).0 full in
              let e2 =
                decrypt_out_lem fuel (drop 1024 s) c1 (hmac_add H.openssl hmac plain)
                  (record w { cout = w.cout ++ plain }) (omega (arith, k, left)) ready'
                  (omega (arith, k, n, left)) in
              rw (e, full)
                (e2 ∙ rw (append_assoc hmac.message plain, append_assoc w.cout plain, split) refl)
          | inr last ↦
              let short : length (take 1024 s) ≢ 1024 = λ k. cc (last, (==_iff _ 1024).1 k) in
              let whole : take 1024 s ≡ s = take_of_le 1024 s (omega (arith, taken, short)) in
              rw (e, last, whole) refl
        ]

  -- The file whose header holds `nonce` decrypts to the input combined with the key stream, and the
  -- HMAC of that decides the status.
  decrypt_file_lem :
      (schedule : H.openssl.Schedule) (kf : KeyFile) (key : Entry) (header nonce s : Bytes)
      (w : World)
      → get kf 0 ≡ some key
      → H.openssl.set_encrypt_key key.aes_key 256 ≡ some schedule
      → drop 10 header ≡ nonce
      → length nonce ≡ 12
      → length s < 2 ^ 32
      → let plain = xor_stream H.openssl schedule nonce s 0 in
        let digest = H.openssl.hmac_sha1 key.hmac_key plain in
        let (r, w') = decrypt_file_to_stdout kf header s w in
        (w'.cout ≡ w.cout ++ plain)
        × (r ≡ (if leakless_equals digest nonce nonce_len then ok 0 else ok 1))
  unfolding decrypt_file_to_stdout
  decrypt_file_lem schedule kf key header nonce s w found scheduled holds twelve small =
      let (c0, e0, ready0, n0) =
        ctr_encryptor-IsReady H.openssl schedule nonce (omega arith) key.aes_key scheduled in
      let e1 =
        decrypt_out_lem schedule nonce (omega arith) (suc (length s)) s c0
          (hmac_state H.openssl key.hmac_key) w (omega arith) ready0 (omega arith) in
      let plain = xor_stream H.openssl schedule nonce s 0 in
      elim (Bool-cases (leakless_equals (H.openssl.hmac_sha1 key.hmac_key plain) nonce nonce_len)) [
        | inl same ↦ rw (holds, found, e0, e1, n0, same) (refl, refl)
        | inr other ↦ rw (holds, found, e0, e1, n0, other) (refl, refl)
      ]

  -- An encrypted file is recognised, and its header holds the nonce.
  has_header-encrypted :
      (nonce s : Bytes)
      → length nonce ≡ 12
      → let file = encrypted_magic ++ (nonce ++ s) in
        (has_header file ≡ true)
        × (drop 10 (take header_len file) ≡ nonce)
        × (drop header_len file ≡ s)
  unfolding has_header
  has_header-encrypted nonce s h =
      let t = take-append 12 nonce s h in let d = drop-append 12 nonce s h in (rw (t, h) refl, t, d)

  smudge_with_header :
      (kf : KeyFile) (w : World)
      → has_header w.cin ≡ true
      → smudge_with kf w
        ≡ decrypt_file_to_stdout kf (take header_len w.cin) (drop header_len w.cin) w
  unfolding smudge_with
  smudge_with_header kf w h = rw h refl

  smudge_file_lem :
      (schedule : H.openssl.Schedule) (kf : KeyFile) (key : Entry) (nonce s : Bytes) (w : World)
      → get kf 0 ≡ some key
      → H.openssl.set_encrypt_key key.aes_key 256 ≡ some schedule
      → length nonce ≡ 12
      → length s < 2 ^ 32
      → w.cin ≡ encrypted_magic ++ (nonce ++ s)
      → let plain = xor_stream H.openssl schedule nonce s 0 in
        let digest = H.openssl.hmac_sha1 key.hmac_key plain in
        let (r, w') = smudge_with kf w in
        (w'.cout ≡ w.cout ++ plain)
        × (r ≡ (if leakless_equals digest nonce nonce_len then ok 0 else ok 1))
  smudge_file_lem schedule kf key nonce s w found scheduled twelve small input =
      let (there, n, d) = has_header-encrypted nonce s twelve in
      let body : drop header_len w.cin ≡ s = rw input d in
      let out =
        decrypt_file_lem schedule kf key (take header_len w.cin) nonce (drop header_len w.cin) w
          found scheduled (rw input n) twelve (rw body small) in
      rw (smudge_with_header kf w (rw input there), ← body) out

  -- With a key under version 0 that AES accepts and an HMAC of 12 bytes or more, an encrypted
  -- file whose body is below 2 ^ 32 bytes is written out combined with the key stream of the
  -- nonce in its header; the status is 0 exactly if the HMAC of what was written begins with that
  -- nonce, and 1 exactly if it does not.
  pub smudge_status_iff :
      (schedule : H.openssl.Schedule) (kf : KeyFile) (key : Entry) (nonce s : Bytes) (w : World)
      → get kf 0 ≡ some key
      → H.openssl.set_encrypt_key key.aes_key 256 ≡ some schedule
      → length nonce ≡ 12
      → length s < 2 ^ 32
      → w.cin ≡ encrypted_magic ++ (nonce ++ s)
      → nonce_len
        ≤ length (H.openssl.hmac_sha1 key.hmac_key (xor_stream H.openssl schedule nonce s 0))
      → let plain = xor_stream H.openssl schedule nonce s 0 in
        let digest = H.openssl.hmac_sha1 key.hmac_key plain in
        let (r, w') = smudge_with kf w in
        (w'.cout ≡ w.cout ++ plain)
        × ((r ≡ ok 0) ↔ (take nonce_len digest ≡ nonce))
        × ((r ≡ ok 1) ↔ (take nonce_len digest ≢ nonce))
  smudge_status_iff schedule kf key nonce s w found scheduled twelve small input long =
      let (out, status) =
        smudge_file_lem schedule kf key nonce s w found scheduled twelve small input in
      let plain = xor_stream H.openssl schedule nonce s 0 in
      let digest = H.openssl.hmac_sha1 key.hmac_key plain in
      let (to, from) = leakless_equals_iff digest nonce nonce_len long (omega arith) in
      let whole : take nonce_len nonce ≡ nonce = take_of_le nonce_len nonce (omega arith) in
      elim (Bool-cases (leakless_equals digest nonce nonce_len)) [
        | inl same ↦ (
          out,
          (λ e. to same ∙ whole, λ e. status ∙ rw same refl),
          (
            λ e. absurd (zero≢one (sym (status ∙ rw same refl) ∙ e)),
            λ ne. absurd (ne (to same ∙ whole)),
          ),
        )
        | inr other ↦ (
          out,
          (
            λ e. absurd (zero≢one (sym e ∙ (status ∙ rw other refl))),
            λ e. absurd (true≢false (sym (from (e ∙ sym whole)) ∙ other)),
          ),
          (λ e p. true≢false (sym (from (p ∙ sym whole)) ∙ other), λ ne. status ∙ rw other refl),
        )
      ]

  -- For a key that stands under version 0 of the key file and that AES accepts, an HMAC of 12
  -- bytes or more, an input below 2 ^ 32 bytes and a system where a temporary file can be made,
  -- `clean` ends with status 0, and `smudge`, given what `clean` wrote from an empty standard
  -- output, ends with status 0 and writes the input back.
  pub smudge-clean :
      (schedule : H.openssl.Schedule) (kf : KeyFile) (key : Entry) (w w2 : World)
      → TempOpens
      → get kf 0 ≡ some key
      → H.openssl.set_encrypt_key key.aes_key 256 ≡ some schedule
      → nonce_len ≤ length (H.openssl.hmac_sha1 key.hmac_key w.cin)
      → length w.cin < 2 ^ 32
      → w.cout ≡ []
      → w2.cin ≡ (clean_with key w).1.cout
      → let (r, w3) = smudge_with kf w2 in
        ((clean_with key w).0 ≡ ok 0) × (r ≡ ok 0) × (w3.cout ≡ w2.cout ++ w.cin)
  smudge-clean schedule kf key w w2 opens found scheduled long small fresh fed =
      let (h, e) = clean_with_lem schedule key w opens scheduled long small in
      let digest = H.openssl.hmac_sha1 key.hmac_key w.cin in
      let nonce = take nonce_len digest in
      let s = xor_stream H.openssl schedule digest w.cin 0 in
      let back = xor_stream_cancel H.openssl schedule digest w.cin 0 in
      let same : xor_stream H.openssl schedule nonce s 0 ≡ w.cin =
        xor_stream_nonce H.openssl schedule nonce digest s 0
          (take_of_le nonce_len nonce (omega (arith, length-take nonce_len digest)))
        ∙ back in
      let input : w2.cin ≡ encrypted_magic ++ (nonce ++ s) = fed ∙ rw (e, fresh) refl in
      let (out, good, bad) =
        smudge_status_iff schedule kf key nonce s w2 found scheduled
          (omega (arith, length-take nonce_len digest))
          (omega (arith, length-xor_stream H.openssl schedule digest w.cin 0)) input
          (rw same long) in
      (rw e refl, good.1 (rw same refl), out ∙ ap (λ x. w2.cout ++ x) same)
