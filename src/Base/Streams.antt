-- ===== src/Base/Streams.antt =====
-- Reading text from a stream: lines, words and numbers, as the standard library does.
-- What is left after the end of the stream was met is the empty list.
use Prim.Native.Nat.{ℕ, ◌+◌, ◌-◌, ◌*◌, ◌%◌, ◌^◌}
use mathlib.Core.Bool.{Bool, ◌&&◌, ◌||◌}
use mathlib.Core.List.{List, [], ◌∷◌}
use git_crypt.Base.Tests.{ltb, leb, ◌==◌, if◌then◌else◌}
use git_crypt.Base.Lists.{Bytes}
use git_crypt.Base.Int.{ℤ, pos, neg}

-- `std::getline(in, line, delim)`: the line, and what follows the delimiter.
unfoldable pub get_line : ℕ → Bytes → Bytes × Bytes
get_line delim [] = ([], [])
get_line delim (c ∷ s) =
    let rest = get_line delim s in if c == delim then ([], s) else (c ∷ rest.0, rest.1)

unfoldable pub isspace : ℕ → Bool
isspace c = c == b' ' || (leb 9 c && leb c 13)

-- `in >> std::ws`
unfoldable pub skip_space : Bytes → Bytes
unfolding isspace
skip_space [] = []
skip_space (c ∷ s) = if isspace c then skip_space s else c ∷ s

-- The characters up to white space, which stays in the stream.
unfoldable pub word : Bytes → Bytes × Bytes
unfolding isspace
word [] = ([], [])
word (c ∷ s) = let rest = word s in if isspace c then ([], c ∷ s) else (c ∷ rest.0, rest.1)

-- `in >> word`
unfoldable pub read_word : Bytes → Bytes × Bytes
unfolding skip_space word
read_word s = word (skip_space s)

-- The value of the leading digits of a base, from the value so far.
unfoldable pub digits_value : ℕ → Bytes → ℕ → ℕ
digits_value base [] n = n
digits_value base (c ∷ s) n =
    let more = digits_value base s (n * base + (c - b'0')) in
    if leb b'0' c && ltb (c - b'0') base then more else n

-- `std::atoi`, on numbers that an `int` holds.
unfoldable pub atoi_signed : Bytes → ℤ
unfolding digits_value
atoi_signed [] = pos 0
atoi_signed (c ∷ s) =
    if c == b'-'
    then neg (digits_value 10 s 0)
    else if c == b'+'
    then pos (digits_value 10 s 0)
    else pos (digits_value 10 (c ∷ s) 0)

unfoldable pub atoi : Bytes → ℤ
unfolding atoi_signed skip_space
atoi s = atoi_signed (skip_space s)

-- `std::strtoul(s, nullptr, 8)`, with its overflow and the sign that it accepts.
abbrev clamp_ulong : ℕ → ℕ
clamp_ulong n = if leb (2 ^ 64) n then 2 ^ 64 - 1 else n

unfoldable pub strtoul_signed : Bytes → ℕ
unfolding digits_value
strtoul_signed [] = 0
strtoul_signed (c ∷ s) =
    if c == b'-'
    then (let n = digits_value 8 s 0 in
        if leb (2 ^ 64) n then 2 ^ 64 - 1 else (2 ^ 64 - n) % 2 ^ 64)
    else if c == b'+'
    then clamp_ulong (digits_value 8 s 0)
    else clamp_ulong (digits_value 8 (c ∷ s) 0)

unfoldable pub strtoul_octal : Bytes → ℕ
unfolding strtoul_signed skip_space
strtoul_octal s = strtoul_signed (skip_space s)

-- The lines that `peek` and `std::getline` take from a stream, one after the other.
unfoldable pub first_char : ℕ → List Bytes → List Bytes
first_char c [] = (c ∷ []) ∷ []
first_char c (line ∷ lines) = (c ∷ line) ∷ lines

unfoldable pub lines_of : Bytes → List Bytes
unfolding first_char
lines_of [] = []
lines_of (c ∷ s) = let rest = lines_of s in if c == 10 then [] ∷ rest else first_char c rest
