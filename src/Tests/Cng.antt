-- ===== src/Tests/Cng.antt =====
-- win-build/crypto-win32.cpp: the CNG backend on a small system with one object of each kind, whose calls all succeed.
use mathlib.Core.Option.{some-injective}
use git_crypt.Base.{
  ◌&&◌, Bool, false, ℕ, suc, ◌-◌, ◌≡◌, refl, inl, List, [], ◌∷◌, ◌++◌, Bytes, codes, take,
  replicate, map, arith, ap, equal, if◌then◌else◌,
}
use git_crypt.Base.Results.{err, crypto_error}
use git_crypt.Crypto.{OpenSsl, hmac_state}
use git_crypt.Crypto as OpenSslCrypto
use git_crypt.Windows.Crypto.{
  Cng, check_nt, call, resize, object_length, nt_success, aes_ecb_encryptor,
}
use git_crypt.Windows.Crypto.Calls.{Returns}
use git_crypt.Windows.Crypto.Digests.{Hashes, added, digest_of, digest_of-hmac_get}
use git_crypt.Windows.Crypto.Blocks.{Ciphers, blocks_of, blocks_of-encrypt}
use git_crypt.Windows.Crypto.Handles.{Handles}
use git_crypt.Tests.Toy.{toy_openssl, toy_encrypt}

record Objects : Type 0 where
  algorithm : Bytes
  flag : Bool
  key_algorithm : Bytes
  is_hmac : Bool
  mode : Bytes
  key_mode : Bytes
  secret : Bytes
  hash_key : Bytes
  hash_bytes : Bytes
  opened : ℕ

-- With any algorithm but AES, and in any mode but ECB, a block comes out as it is.
instance abbrev small_cng : Cng
small_cng = record {
  State = Objects;
  open_algorithm_provider =
      λ name hmac h. ((0, 1), record h { algorithm = name; flag = hmac; opened = suc h.opened });
  set_chaining_mode = λ alg mode h. ((0, tt), record h { mode = mode });
  get_object_length = λ alg h. ((0, 4), h);
  generate_symmetric_key = λ alg object size secret h. (
    (0, 2),
    record h {
      secret = secret;
      key_algorithm = h.algorithm;
      key_mode = h.mode;
      opened = suc h.opened;
    },
  );
  create_hash = λ alg object size key h. (
    (0, 3),
    record h {
      hash_key = key;
      hash_bytes = [];
      is_hmac = equal h.algorithm (codes "SHA1") && h.flag;
      opened = suc h.opened;
    },
  );
  encrypt = λ key block h. (
    (
      0,
      if equal h.key_mode (codes "ChainingModeECB") && equal h.key_algorithm (codes "AES")
          then toy_encrypt h.secret block
          else block,
    ),
    h,
  );
  hash_data = λ hash b h. ((0, tt), record h { hash_bytes = h.hash_bytes ++ b });
  finish_hash = λ hash n h.
      ((0, if h.is_hmac then take n (toy_openssl.hmac_sha1 h.hash_key h.hash_bytes) else []), h);
  gen_random = λ n h. ((0, replicate n 7), h);
  destroy_key = λ key h. record h { opened = h.opened - 1 };
  destroy_hash = λ hash h. record h { opened = h.opened - 1 };
  close_algorithm_provider = λ alg h. record h { opened = h.opened - 1 };
  allocate = λ size h. (100, h);
  wipe = λ p size h. h;
}

abbrev no_objects : Objects
no_objects = record {
  algorithm = [];
  flag = false;
  key_algorithm = [];
  is_hmac = false;
  mode = codes "ChainingModeCBC";
  key_mode = [];
  secret = [];
  hash_key = [];
  hash_bytes = [];
  opened = 0;
}

small-Hashes : Hashes toy_openssl
unfolding nt_success
small-Hashes = record {
  algorithm_of = λ alg h. h.algorithm;
  has_flag = λ alg h. h.flag;
  key_of = λ hash h. h.hash_key;
  bytes_of = λ hash h. h.hash_bytes;
  hmac_of = λ hash h. h.is_hmac;
  object_size = λ name flag. 4;
  opens = λ name flag h. record { success = refl; gives = (refl, refl) };
  has_length = λ alg h. record { success = refl; gives = (refl, refl, refl) };
  allocates = λ alg size h. (refl, refl);
  creates = λ alg object size key h sha1 flag fits. record {
    success = refl;
    gives = (rw (sha1, flag) refl, refl, refl);
  };
  hashes = λ hash b h. record { success = refl; gives = (refl, refl, refl) };
  finishes = λ hash n h made. record { success = refl; gives = rw made refl };
}

small-Ciphers : Ciphers toy_openssl
unfolding nt_success
small-Ciphers = record {
  algorithm_of = λ alg h. h.algorithm;
  mode_of = λ alg h. h.mode;
  secret_of = λ key h. h.secret;
  key_algorithm_of = λ key h. h.key_algorithm;
  key_mode_of = λ key h. h.key_mode;
  object_size = λ name. 4;
  opens = λ name h. record { success = refl; gives = refl };
  sets_mode = λ alg mode h. record { success = refl; gives = (refl, refl) };
  has_length = λ alg h. record { success = refl; gives = (refl, refl, refl) };
  allocates = λ alg size h. (refl, refl);
  generates =
      λ alg object size secret h fits. record { success = refl; gives = (refl, refl, refl) };
  encrypts = λ key block schedule h n aes mode accepted. record {
    success = refl;
    gives = (
      rw (aes, mode) (ap (λ s. toy_encrypt s block) (some-injective _ _ accepted)),
      refl,
      refl,
      refl,
    );
  };
}

small-Handles : Handles
unfolding nt_success
small-Handles = record {
  opened = λ h. h.opened;
  opens = λ name flag h. inl (refl, refl, refl);
  generates = λ alg object size secret h. inl (refl, refl, refl);
  creates = λ alg object size key h. inl (refl, refl, refl);
  destroys_key = λ key h. refl;
  destroys_hash = λ hash h. refl;
  closes = λ alg h. refl;
  sets_mode = λ alg mode h. refl;
  has_length = λ alg h. refl;
  allocates = λ size h. refl;
  wipes = λ p size h. refl;
}

-- A status that is negative, in hexadecimal.
status_message :
    check_nt 3221225485 (codes "random_bytes")
    ≡ err (crypto_error (codes "random_bytes") (codes "BCrypt error 0xc000000d"))
unfolding check_nt
status_message = refl

abbrev hmac_key : Bytes
hmac_key = replicate 64 5

abbrev buffers : List Bytes
buffers = codes "a buffer" ∷ ([] ∷ (codes "another" ∷ []))

digest_of-hmac_get_example :
    Returns
      (λ digest h1.
        digest
        ≡ take 20 (
            OpenSslCrypto.hmac_get toy_openssl
              (added toy_openssl (hmac_state toy_openssl hmac_key) buffers)))
      (digest_of hmac_key buffers no_objects)
digest_of-hmac_get_example =
    digest_of-hmac_get toy_openssl small-Hashes hmac_key buffers no_objects (omega arith)
      (omega arith, (omega arith, (omega arith, tt)))

abbrev aes_key : Bytes
aes_key = replicate 32 3

abbrev blocks : List Bytes
blocks = codes "0123456789abcdef" ∷ (replicate 16 0 ∷ [])

blocks_of-encrypt_example :
    Returns
      (λ ciphers h1. ciphers ≡ map (toy_encrypt aes_key) blocks)
      (blocks_of aes_key blocks no_objects)
blocks_of-encrypt_example =
    blocks_of-encrypt toy_openssl small-Ciphers aes_key aes_key blocks no_objects refl refl
      (refl, (refl, tt))

-- Where the key cannot be generated, the constructor throws and its provider stays open.
abbrev failing_cng : Cng
failing_cng = record small_cng {
  generate_symmetric_key = λ alg object size secret h. ((3221225485, 0), h);
}

failed_key_leaves_provider : (aes_ecb_encryptor ⦃C = failing_cng⦄ aes_key no_objects).1.opened ≡ 1
unfolding aes_ecb_encryptor object_length resize call check_nt
failed_key_leaves_provider = refl
