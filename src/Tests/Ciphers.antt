-- ===== src/Tests/Ciphers.antt =====
-- The cipher, on a toy block cipher.
use git_crypt.Base.{◌+◌, ◌≡◌, refl, [], ◌∷◌, ◌++◌, Bytes, codes, length, replicate, arith}
use git_crypt.Base.Results.{ok, err}
use git_crypt.Util.{store_be32}
use git_crypt.Crypto.{
  CtrEncryptor, process, process_stream, ctr_encryptor, ecb_encryptor, process_chunks, refill,
}
use git_crypt.Crypto.Stream.{too_much, xor_stream, IsReady, process_lem, process_overflow}
use git_crypt.Crypto.Chunks.{process_stream_lem}
use git_crypt.Tests.Toy.{toy_openssl, toy_encrypt}

abbrev key : Bytes
key = replicate 32 3

abbrev nonce : Bytes
nonce = replicate 12 1

abbrev message : Bytes
message = codes "a message of more than sixteen bytes"

-- An encryptor with one byte to go.
abbrev full : CtrEncryptor toy_openssl
full = record {
  ecb = key;
  ctr_value = nonce ++ replicate 4 0;
  pad = toy_encrypt key (nonce ++ store_be32 268435455);
  byte_counter = 4294967295;
}

abbrev fresh : CtrEncryptor toy_openssl
fresh = record {
  ecb = key;
  ctr_value = nonce ++ replicate 4 0;
  pad = replicate 16 0;
  byte_counter = 0;
}

full-IsReady : IsReady toy_openssl key nonce full
unfolding store_be32
full-IsReady = record {
  same_key = refl;
  same_nonce = refl;
  current_pad = λ ne. refl;
  in_range = omega arith;
}

fresh-IsReady : IsReady toy_openssl key nonce fresh
fresh-IsReady = record {
  same_key = refl;
  same_nonce = refl;
  current_pad = λ ne. absurd (ne refl);
  in_range = omega arith;
}

process_lem_example :
    (c' : CtrEncryptor toy_openssl) × (process toy_openssl message fresh
      ≡ ok (xor_stream toy_openssl key nonce message 0, c'))
    × IsReady toy_openssl key nonce c'
    × (c'.byte_counter ≡ 0 + length message)
process_lem_example =
    process_lem toy_openssl key nonce (omega arith) message fresh fresh-IsReady (omega arith)

process_overflow_example : process toy_openssl message full ≡ err too_much
process_overflow_example =
    process_overflow toy_openssl key nonce (omega arith) message full full-IsReady (omega arith)

process_stream_lem_example :
    (c : CtrEncryptor toy_openssl) × (process_stream toy_openssl message key nonce
      ≡ (xor_stream toy_openssl key nonce message 0, ok c))
process_stream_lem_example =
    process_stream_lem toy_openssl key nonce (omega arith) message key refl (omega arith)

-- A byte of the stream: 1 for the nonce and 32 for the length of the key, in each block.
process-short : (process_stream toy_openssl (7 ∷ []) key nonce).0 ≡ 38 ∷ []
unfolding process_stream ctr_encryptor ecb_encryptor process_chunks process refill toy_encrypt
process-short = refl
