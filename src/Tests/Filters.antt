-- ===== src/Tests/Filters.antt =====
-- The filters, on the toy system.
use git_crypt.Base.{
  ap, get_or, ℕ, ◌^◌, ◌≡◌, refl, ◌≢◌, ◌↔◌, some, List, [], ◌∷◌, ◌++◌, Bytes, codes, length, take,
  replicate, arith, length-append, length-take,
}
use git_crypt.Base.Results.{ok, err}
use git_crypt.Exec.{World}
use git_crypt.KeyFile.{get}
use git_crypt.Crypto.{nonce_len}
use git_crypt.Crypto.Stream.{too_much, xor_stream}
use git_crypt.Git.Attributes.{encrypted_magic}
use git_crypt.Clean.{clean_with}
use git_crypt.Clean.Output.{encrypted, clean_with_lem}
use git_crypt.Clean.Limits.{clean_refuses_long_files, clean_throws_from_4_gib}
use git_crypt.Smudge.{smudge_with, diff_with}
use git_crypt.Smudge.RoundTrip.{smudge_status_iff, smudge-clean}
use git_crypt.Smudge.Plain.{IsEncrypted, smudge_copies_plain, diff-smudge}
use git_crypt.Tests.Toy.{
  toy_host, toy_openssl, find_file, length-replicate, world, toy_entry, toy_key_file, toy-TempOpens,
}

abbrev contents : Bytes
contents = codes "secret = 1\n"

abbrev before : World
before = world [] contents

-- What `clean` writes of it, on the standard input.
abbrev encrypted_world : World
encrypted_world = world [] (clean_with toy_entry before).1.cout

clean_with_lem_example :
    (h : List (Bytes × Bytes)) × (clean_with toy_entry before
      ≡ (ok 0, record before { host = h; cout = encrypted toy_entry.aes_key toy_entry contents }))
clean_with_lem_example =
    clean_with_lem toy_entry.aes_key toy_entry before toy-TempOpens refl (omega arith) (omega arith)

toy_key_file-0 : get toy_key_file 0 ≡ some toy_entry
unfolding get
toy_key_file-0 = refl

smudge-clean_example :
    ((clean_with toy_entry before).0 ≡ ok 0)
    × ((smudge_with toy_key_file encrypted_world).0 ≡ ok 0)
    × ((smudge_with toy_key_file encrypted_world).1.cout ≡ [] ++ contents)
smudge-clean_example =
    smudge-clean toy_entry.aes_key toy_key_file toy_entry before encrypted_world toy-TempOpens
      toy_key_file-0 refl (omega arith) (omega arith) refl refl

-- A file with a nonce that was made up.
abbrev forged : World
forged = world [] (encrypted_magic ++ (replicate 12 1 ++ contents))

smudge_status_iff_example :
    let plain = xor_stream toy_openssl toy_entry.aes_key (replicate 12 1) contents 0 in
    let digest = toy_openssl.hmac_sha1 toy_entry.hmac_key plain in
    ((smudge_with toy_key_file forged).1.cout ≡ [] ++ plain)
    × (((smudge_with toy_key_file forged).0 ≡ ok 0) ↔ (take nonce_len digest ≡ replicate 12 1))
    × (((smudge_with toy_key_file forged).0 ≡ ok 1) ↔ (take nonce_len digest ≢ replicate 12 1))
smudge_status_iff_example =
    smudge_status_iff toy_entry.aes_key toy_key_file toy_entry (replicate 12 1) contents forged
      toy_key_file-0 refl refl (omega arith) refl
      (omega (
        arith,
        length-take 20 (
            xor_stream toy_openssl toy_entry.aes_key (replicate 12 1) contents 0
            ++ toy_entry.hmac_key),
        length-append (xor_stream toy_openssl toy_entry.aes_key (replicate 12 1) contents 0)
            toy_entry.hmac_key,
      ))

contents-plain : ¬ IsEncrypted contents
contents-plain (nonce, rest, n, e) =
    let first : b's' ≡ 0 = ap (λ (s : Bytes). get_or s 0 0) e in ground arith

smudge_copies_plain_example :
    let (r, w') = smudge_with toy_key_file before in
    (r ≡ ok 0) × (w'.cout ≡ [] ++ contents) × (w'.host ≡ [])
smudge_copies_plain_example = smudge_copies_plain toy_key_file before contents-plain

-- A file that holds what is on the standard input.
abbrev on_disk : World
on_disk = world ((codes "file", contents) ∷ []) contents

on_disk-file : toy_host.open_input (codes "file") on_disk.host ≡ some contents
unfolding find_file
on_disk-file = refl

diff-smudge_example :
    ((diff_with toy_key_file (codes "file") on_disk).0 ≡ (smudge_with toy_key_file on_disk).0)
    × ((diff_with toy_key_file (codes "file") on_disk).1.cout
        ≡ (smudge_with toy_key_file on_disk).1.cout)
diff-smudge_example = diff-smudge toy_key_file (codes "file") on_disk on_disk-file

-- `n` zero bytes on the standard input.
zeros : ℕ → World
zeros n = world [] (replicate n 0)

zeros-length : (n : ℕ) → length (zeros n).cin ≡ n
unfolding zeros
zeros-length n = length-replicate n 0

clean_refuses_long_files_example :
    ((clean_with toy_entry (zeros (2 ^ 36))).0 ≡ ok 1)
    × ((clean_with toy_entry (zeros (2 ^ 36))).1.cout ≡ (zeros (2 ^ 36)).cout)
clean_refuses_long_files_example =
    clean_refuses_long_files toy_entry (zeros (2 ^ 36)) toy-TempOpens
      (omega (arith, zeros-length (2 ^ 36)))

clean_throws_from_4_gib_example : (clean_with toy_entry (zeros (2 ^ 32))).0 ≡ err too_much
clean_throws_from_4_gib_example =
    clean_throws_from_4_gib toy_entry.aes_key toy_entry (zeros (2 ^ 32)) toy-TempOpens refl
      (omega (
        arith,
        length-take 20 ((zeros (2 ^ 32)).cin ++ toy_entry.hmac_key),
        length-append (zeros (2 ^ 32)).cin toy_entry.hmac_key,
        zeros-length (2 ^ 32),
      ))
      (omega (arith, zeros-length (2 ^ 32))) (omega (arith, zeros-length (2 ^ 32)))
