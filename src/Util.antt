-- ===== src/Util.antt =====
-- util.cpp: words in big-endian order, quoting for the shell, constant-time comparison.
pub mod Words
pub mod Compare
pub mod Shell
use git_crypt.Base.{
  ℕ, zero, suc, ◌+◌, ◌*◌, ◌/◌, ◌%◌, ◌^◌, bit_or, bit_xor, Bool, true, false, ◌||◌, Option, none,
  some, List, [], ◌∷◌, ◌++◌, Bytes, length, take, drop, get_or, replicate, ◌==◌, if◌then◌else◌,
}

-- `static_cast<uint32_t>(b) << k`
abbrev pub shl32 : ℕ → ℕ → ℕ
shl32 b k = b * 2 ^ k % 2 ^ 32

unfoldable pub load_be32 : Bytes → ℕ
load_be32 p =
    bit_or
      (bit_or (bit_or (shl32 (get_or p 3 0) 0) (shl32 (get_or p 2 0) 8)) (shl32 (get_or p 1 0) 16))
      (shl32 (get_or p 0 0) 24)

-- The four bytes that are written, `p[0]` first; `i >>= 8` is `i / 2 ^ 8`.
unfoldable pub store_be32 : ℕ → Bytes
store_be32 i =
    let i1 = i / 2 ^ 8 in
    let i2 = i1 / 2 ^ 8 in
    let i3 = i2 / 2 ^ 8 in (i3 % 256) ∷ (i2 % 256) ∷ (i1 % 256) ∷ (i % 256) ∷ []

-- The word and what follows it in the stream, or `none` for the `false` of a short read.
unfoldable pub read_be32 : Bytes → Option (ℕ × Bytes)
read_be32 s = if length (take 4 s) == 4 then some (load_be32 (take 4 s), drop 4 s) else none

-- What is written to the stream.
abbrev pub write_be32 : ℕ → Bytes
write_be32 i = store_be32 i

unfoldable pub explicit_memset : ℕ → ℕ → Bytes
explicit_memset c zero = []
explicit_memset c (suc n) = (c % 256) ∷ explicit_memset c n

-- The characters that are special inside double quotes.
unfoldable pub needs_backslash : ℕ → Bool
needs_backslash c = c == b'"' || c == b'\\' || c == b'$' || c == b'`'

unfoldable pub escape_chars : Bytes → Bytes
unfolding needs_backslash
escape_chars [] = []
escape_chars (c ∷ s) = (if needs_backslash c then b'\\' ∷ [] else []) ++ (c ∷ escape_chars s)

unfoldable pub escape_shell_arg : Bytes → Bytes
unfolding escape_chars
escape_shell_arg s = b'"' ∷ (escape_chars s ++ (b'"' ∷ []))

-- The loop over `len`, with `diff` so far.
unfoldable pub leakless_equals_char : ℕ → Bytes → Bytes → ℕ → Bool
leakless_equals_char diff a b zero = diff == 0
leakless_equals_char diff a b (suc len) =
    leakless_equals_char (bit_or diff (bit_xor (get_or a 0 0) (get_or b 0 0))) (drop 1 a) (drop 1 b)
      len

unfoldable pub leakless_equals : Bytes → Bytes → ℕ → Bool
unfolding leakless_equals_char
leakless_equals a b len = leakless_equals_char 0 a b len
