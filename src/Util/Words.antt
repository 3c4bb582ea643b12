-- ===== src/Util/Words.antt =====
-- A word survives being written and read, and four bytes survive the other way round.
use git_crypt.Base.{
  ℕ, ◌+◌, ◌*◌, ◌/◌, ◌%◌, ◌^◌, ◌<◌, ◌≡◌, refl, Option, some, [], ◌∷◌, ◌++◌, Bytes, IsByte, All,
  length, arith, ap,
}
use git_crypt.Base.Bits.{bit_or_shifted}
use git_crypt.Util.{load_be32, store_be32, read_be32}

-- Disjoint fields: the or of the shifted bytes is their sum.
pub load_be32-cons :
    (a b c d : ℕ) (rest : Bytes)
    → IsByte a
    → IsByte b
    → IsByte c
    → IsByte d
    → load_be32 (a ∷ b ∷ c ∷ d ∷ rest) ≡ d + c * 2 ^ 8 + b * 2 ^ 16 + a * 2 ^ 24
unfolding load_be32
load_be32-cons a b c d rest ha hb hc hd =
    let e0 : d * 1 % 2 ^ 32 ≡ d = omega arith in
    let e1 : c * 2 ^ 8 % 2 ^ 32 ≡ c * 2 ^ 8 = omega arith in
    let e2 : b * 2 ^ 16 % 2 ^ 32 ≡ b * 2 ^ 16 = omega arith in
    let e3 : a * 2 ^ 24 % 2 ^ 32 ≡ a * 2 ^ 24 = omega arith in
    rw (
      e0,
      e1,
      e2,
      e3,
      bit_or_shifted 8 d c hd,
      bit_or_shifted 16 (d + c * 2 ^ 8) b (omega arith),
      bit_or_shifted 24 (d + c * 2 ^ 8 + b * 2 ^ 16) a (omega arith),
    )

pub load_be32-store_be32 :
    (i : ℕ) (rest : Bytes) → i < 2 ^ 32 → load_be32 (store_be32 i ++ rest) ≡ i
unfolding store_be32
load_be32-store_be32 i rest h =
    rw
      (load_be32-cons (i / 2 ^ 8 / 2 ^ 8 / 2 ^ 8 % 256) (i / 2 ^ 8 / 2 ^ 8 % 256) (i / 2 ^ 8 % 256)
        (i % 256) rest (omega arith) (omega arith) (omega arith) (omega arith))
      (omega arith)

-- A 32-bit word that was stored is read back from the stream, and the rest of the stream is left.
pub read_be32-store_be32 :
    (i : ℕ) (rest : Bytes) → i < 2 ^ 32 → read_be32 (store_be32 i ++ rest) ≡ some (i, rest)
unfolding read_be32 store_be32
read_be32-store_be32 i rest h =
    ap {B = Option (ℕ × Bytes)} (λ v. some (v, rest)) (load_be32-store_be32 i [] h)

pub length-store_be32 : (i : ℕ) → length (store_be32 i) ≡ 4
unfolding store_be32
length-store_be32 i = refl

-- A read takes four bytes.
pub read_be32_takes :
    (s : Bytes) {v : ℕ} {rest : Bytes} → read_be32 s ≡ some (v, rest) → length s ≡ length rest + 4
unfolding read_be32
read_be32_takes [] e = cc
read_be32_takes (a ∷ []) e = cc
read_be32_takes (a ∷ b ∷ []) e = cc
read_be32_takes (a ∷ b ∷ c ∷ []) e = cc
read_be32_takes (a ∷ b ∷ c ∷ d ∷ r) e = ground arith

-- From a stream of bytes, a read that succeeds gives a word below 2 ^ 32 whose encoding is what
-- was taken from the stream, and what is left is bytes.
pub read_be32_bytes :
    (s : Bytes) {v : ℕ} {rest : Bytes}
    → All IsByte s
    → read_be32 s ≡ some (v, rest)
    → (v < 2 ^ 32) × (s ≡ store_be32 v ++ rest) × All IsByte rest
unfolding read_be32 store_be32
read_be32_bytes [] h e = cc
read_be32_bytes (a ∷ []) h e = cc
read_be32_bytes (a ∷ b ∷ []) h e = cc
read_be32_bytes (a ∷ b ∷ c ∷ []) h e = cc
read_be32_bytes (a ∷ b ∷ c ∷ d ∷ r) (ha, (hb, (hc, (hd, hr)))) e =
    ground (arith, load_be32-cons a b c d [] ha hb hc hd)
