-- ===== src/Windows/Runtime.antt =====
-- How a Windows program reads its command line, by the rules of the C runtime.
use git_crypt.Base.{
  ℕ, zero, suc, ◌+◌, ◌/◌, ◌%◌, Bool, true, false, not, ◌||◌, ◌&&◌, List, [], ◌∷◌, ◌++◌, Bytes,
  length, ◌==◌, if◌then◌else◌, replicate,
}

-- Outside quotes, between quotes, or just past a quote that closes.
pub data Mode : Type 0 where
  outside quoted closed : Mode

-- The mode after a character that is no quote.
abbrev pub settle : Mode → Mode
settle quoted = quoted
settle outside = outside
settle closed = outside

abbrev pub is_quoted : Mode → Bool
is_quoted quoted = true
is_quoted outside = false
is_quoted closed = false

abbrev pub is_blank : ℕ → Bool
is_blank c = c == b' ' || c == b'\t'

abbrev pub add_word : Bytes → Bytes × Bytes → Bytes × Bytes
add_word s (word, rest) = (s ++ word, rest)

-- A quote that is not escaped: what it adds, and the mode after it. Right after a closing quote it
-- is a character.
abbrev pub quote : Mode → Bytes × Mode
quote quoted = ([], closed)
quote outside = ([], quoted)
quote closed = (b'"' ∷ [], quoted)

-- The rest of an argument and what follows it; the number is that of the backslashes just read.
-- Before a quote each two of them are one, and one that is left over escapes the quote; elsewhere
-- they stand for themselves. A blank outside quotes ends the argument.
unfoldable pub read_argument : Mode → ℕ → Bytes → Bytes × Bytes
read_argument mode n [] = (replicate n b'\\', [])
read_argument mode n (c ∷ line) =
    let counted = read_argument (settle mode) (n + 1) line in
    let literal = read_argument (settle mode) 0 line in
    let (added, after) = quote mode in
    let unescaped = read_argument after 0 line in
    if c == b'\\'
    then counted
    else if c == b'"'
    then (if n % 2 == 1
        then add_word (replicate (n / 2) b'\\' ++ (b'"' ∷ [])) literal
        else add_word (replicate (n / 2) b'\\' ++ added) unescaped)
    else if is_blank c && not (is_quoted mode)
    then (replicate n b'\\', c ∷ line)
    else add_word (replicate n b'\\' ++ (c ∷ [])) literal

-- The arguments, with the blanks between them passed over.
unfoldable pub read_arguments : ℕ → Bytes → List Bytes
unfolding read_argument
read_arguments zero line = []
read_arguments (suc fuel) [] = []
read_arguments (suc fuel) (c ∷ line) =
    let blank = read_arguments fuel line in
    let (word, rest) = read_argument outside 0 (c ∷ line) in
    let more = word ∷ read_arguments fuel rest in if is_blank c then blank else more

-- The program's name is read up to the next quote, and backslashes mean nothing in it.
unfoldable pub read_quoted : Bytes → Bytes × Bytes
read_quoted [] = ([], [])
read_quoted (c ∷ line) = if c == b'"' then ([], line) else add_word (c ∷ []) (read_quoted line)

unfoldable pub read_cmdline : Bytes → List Bytes
unfolding read_quoted read_arguments
read_cmdline [] = []
read_cmdline (c ∷ line) =
    let (program, rest) = read_quoted line in
    if c == b'"' then program ∷ read_arguments (suc (length rest)) rest else []
