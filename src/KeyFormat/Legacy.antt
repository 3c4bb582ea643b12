-- ===== src/KeyFormat/Legacy.antt =====
-- Legacy key files are the two keys and nothing else.
use git_crypt.Base.{
  ℕ, ◌+◌, ◌≤◌, ◌<◌, ◌≡◌, ◌≢◌, [], ◌∷◌, Bytes, length, take, drop, arith, length-take, length-drop,
  take_of_le, ◌==◌, false,
}
use git_crypt.Base.Results.{malformed, ok, err}
use native.Mathlib.Decide.{dec_lt}
use git_crypt.KeyFile.{aes_key_len, hmac_key_len}
use git_crypt.KeyFormat.{need_bytes, load_entry_legacy, load_legacy}

need_bytes_enough : (n : ℕ) (s : Bytes) → n ≤ length s → need_bytes n s ≡ ok (take n s, drop n s)
unfolding need_bytes
need_bytes_enough n s h = ground (arith, length-take n s)

need_bytes_short : (n : ℕ) (s : Bytes) → length s < n → need_bytes n s ≡ err malformed
unfolding need_bytes
need_bytes_short n s h = ground (arith, length-take n s)

positive : (n : ℕ) → 0 < n → (n == 0) ≡ false
positive n h = ground arith

-- The two keys are there, and more follows.
legacy_trailing :
    (s : Bytes) → aes_key_len + hmac_key_len < length s → load_legacy s ≡ err malformed
unfolding load_legacy load_entry_legacy
legacy_trailing s h =
    let left = length-drop aes_key_len s in
    let left' = length-drop hmac_key_len (drop aes_key_len s) in
    rw (
      need_bytes_enough aes_key_len s (omega arith),
      need_bytes_enough hmac_key_len (drop aes_key_len s) (omega arith),
      positive (length (drop hmac_key_len (drop aes_key_len s))) (omega arith),
    )

legacy_short : (s : Bytes) → length s < aes_key_len + hmac_key_len → load_legacy s ≡ err malformed
unfolding load_legacy load_entry_legacy
legacy_short s h = elim (dec_lt (length s) aes_key_len) [
  | yes short ↦ rw (need_bytes_short aes_key_len s short)
  | no enough ↦
      let left = length-drop aes_key_len s in
      rw (
        need_bytes_enough aes_key_len s (omega arith),
        need_bytes_short hmac_key_len (drop aes_key_len s) (omega arith),
      )
]

-- A legacy key file is read exactly if it has 96 bytes: the first 32 are the AES key and the rest
-- the HMAC key of version 0. Any other length, trailing bytes included, is Malformed.
pub load_legacy_iff :
    (s : Bytes)
    → (length s ≡ aes_key_len + hmac_key_len
        → load_legacy s
          ≡ ok (record {
            entries =
                (
                  0,
                  record {
                    version = 0;
                    aes_key = take aes_key_len s;
                    hmac_key = drop aes_key_len s;
                  },
                )
                ∷ [];
            key_name = [];
          }))
      × (length s ≢ aes_key_len + hmac_key_len → load_legacy s ≡ err malformed)
unfolding load_legacy load_entry_legacy
load_legacy_iff s =
    let rest = drop aes_key_len s in
    let left = length-drop aes_key_len s in
    (
      λ h. ground (
        arith,
        need_bytes_enough aes_key_len s (omega arith),
        need_bytes_enough hmac_key_len rest (omega arith),
        take_of_le hmac_key_len rest (omega arith),
        length-drop hmac_key_len rest,
      ),
      λ h. elim (dec_lt (length s) (aes_key_len + hmac_key_len)) [
        | yes short ↦ legacy_short s short
        | no enough ↦ legacy_trailing s (omega arith)
      ],
    )
