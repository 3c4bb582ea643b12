-- ===== src/Crypto.antt =====
-- crypto.hpp, crypto.cpp and crypto-openssl-11.cpp: AES in counter mode, and the HMAC state.
-- OpenSSL is a parameter: the key schedule, the block cipher and HMAC-SHA1 of a whole message.
pub mod Stream
pub mod Chunks
use git_crypt.Base.{
  ℕ, zero, suc, ◌+◌, ◌*◌, ◌/◌, ◌%◌, ◌^◌, Bool, true, false, Option, none, some, List, [], ◌∷◌, ◌++◌,
  Bytes, codes, length, take, drop, get_or, replicate, bit_xor, ◌==◌, if◌then◌else◌,
}
use git_crypt.Base.Results.{Result, ok, err, stuck, ◌>>=◌, crypto_error}
use git_crypt.Util.{store_be32, explicit_memset}

-- `AES_set_encrypt_key` of a raw key and its size in bits (`none`: it does not return 0),
-- `AES_encrypt` of one block, and what `HMAC_Final` gives after the updates, in order, with
-- `EVP_sha1`.
pub record OpenSsl : Type 1 where
  pub Schedule : Type 0
  pub set_encrypt_key : Bytes → ℕ → Option Schedule
  pub encrypt : Schedule → Bytes → Bytes
  pub hmac_sha1 : Bytes → Bytes → Bytes

abbrev pub nonce_len : ℕ
nonce_len = 12

abbrev pub block_len : ℕ
block_len = 16

abbrev pub max_crypt_bytes : ℕ
max_crypt_bytes = 2 ^ 32 * 16

module _ (O : OpenSsl) where
  open O use {Schedule, set_encrypt_key, encrypt, hmac_sha1}

  -- `Aes_ecb_encryptor::Aes_ecb_encryptor`
  unfoldable pub ecb_encryptor : Bytes → Result Schedule
  ecb_encryptor raw_key = elim (set_encrypt_key raw_key (32 * 8)) [
    | none ↦ err (
        crypto_error (codes "Aes_ctr_encryptor::Aes_ctr_encryptor")
          (codes "AES_set_encrypt_key failed"))
    | some schedule ↦ ok schedule
  ]

  pub record CtrEncryptor : Type 0 where
    pub ecb : Schedule
    pub ctr_value : Bytes
    pub pad : Bytes
    pub byte_counter : ℕ

  -- `Aes_ctr_encryptor::Aes_ctr_encryptor`. The last four bytes of `ctr_value` and the pad are not
  -- initialised; `process` writes both before it reads them, and they stand as zeros here.
  unfoldable pub ctr_encryptor : Bytes → Bytes → Result CtrEncryptor
  ctr_encryptor raw_key nonce = do
    ecb ← ecb_encryptor raw_key
    ok (record {
      ecb = ecb;
      ctr_value = take nonce_len nonce ++ replicate 4 0;
      pad = replicate block_len 0;
      byte_counter = 0;
    })

  -- A new block number and a new pad, once every 16 bytes.
  unfoldable pub refill : CtrEncryptor → CtrEncryptor
  refill c =
      if c.byte_counter % block_len == 0
      then (let ctr_value = take nonce_len c.ctr_value ++ store_be32 (c.byte_counter / block_len) in
          record c { ctr_value = ctr_value; pad = encrypt c.ecb ctr_value })
      else c

  -- `Aes_ctr_encryptor::process`: the bytes written, and the state after. `byte_counter++` wraps.
  unfoldable pub process : Bytes → CtrEncryptor → Result (Bytes × CtrEncryptor)
  process [] c = ok ([], c)
  process (b ∷ input) c = do
    let r = refill c
    let out = bit_xor b (get_or r.pad (r.byte_counter % block_len) 0)
    let counter = (r.byte_counter + 1) % 2 ^ 32
    if counter == 0
        then err (
            crypto_error (codes "Aes_ctr_encryptor::process")
              (codes "Too much data to encrypt securely"))
        else (do
          (rest, c') ← process input (record r { byte_counter = counter })
          ok (out ∷ rest, c'))

  -- The loop of `process_stream`: 1024 bytes at a time while the stream is good; a short read ends
  -- it. What was written before an exception is kept beside it.
  unfoldable pub process_chunks : ℕ → Bytes → CtrEncryptor → Bytes → Bytes × Result CtrEncryptor
  process_chunks zero input c out = (out, stuck)
  process_chunks (suc fuel) input c out = elim (process (take 1024 input) c) [
    | ok (written, c') ↦
        let more = process_chunks fuel (drop 1024 input) c' (out ++ written) in
        if length (take 1024 input) == 1024 then more else (out ++ written, ok c')
    | err e ↦ (out, err e)
    | stuck ↦ (out, stuck)
  ]

  -- `Aes_ctr_encryptor::process_stream`: what is written, and how it ends. Each round but the last
  -- takes 1024 bytes.
  unfoldable pub process_stream : Bytes → Bytes → Bytes → Bytes × Result CtrEncryptor
  process_stream input key nonce = elim (ctr_encryptor key nonce) [
    | ok aes ↦ process_chunks (suc (length input)) input aes []
    | err e ↦ ([], err e)
    | stuck ↦ ([], stuck)
  ]

  -- `Hmac_sha1_state`: the key, and what was added so far.
  pub record HmacState : Type 0 where
    pub key : Bytes
    pub message : Bytes

  abbrev pub hmac_state : Bytes → HmacState
  hmac_state key = record { key = key; message = [] }

  abbrev pub hmac_add : HmacState → Bytes → HmacState
  hmac_add h buffer = record h { message = h.message ++ buffer }

  abbrev pub hmac_get : HmacState → Bytes
  hmac_get h = hmac_sha1 h.key h.message
