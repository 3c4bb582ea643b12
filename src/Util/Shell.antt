-- ===== src/Util/Shell.antt =====
-- The quoted argument is read back by the shell as the one word that was meant.
use git_crypt.Base.{
  ℕ, ◌≡◌, refl, Bool, true, false, ◌||◌, Option, some, none, [], ◌∷◌, ◌++◌, append_assoc, Bytes,
  arith, ◌==◌, if◌then◌else◌,
}
use git_crypt.Util.{escape_chars, escape_shell_arg}

-- The characters before which a backslash is an escape inside double quotes (POSIX 2.2.3); the
-- newline, which the code never escapes, is left out.
pub keeps_meaning : ℕ → Bool
keeps_meaning c = c == b'$' || c == b'`' || c == b'"' || c == b'\\'

abbrev with_char : ℕ → Option (Bytes × Bytes) → Option (Bytes × Bytes)
with_char c none = none
with_char c (some (w, r)) = some (c ∷ w, r)

-- The rest of a double-quoted word and what follows it; the flag says that a backslash was read.
-- An expansion gives no literal word.
pub inside_quotes : Bool → Bytes → Option (Bytes × Bytes)
unfolding keeps_meaning
inside_quotes escaped [] = none
inside_quotes true (c ∷ s) =
    let rest = inside_quotes false s in
    if keeps_meaning c then with_char c rest else with_char b'\\' (with_char c rest)
inside_quotes false (c ∷ s) =
    let plain = inside_quotes false s in
    let escape = inside_quotes true s in
    if c == b'"'
    then some ([], s)
    else if c == b'\\'
    then escape
    else if c == b'$' || c == b'`'
    then none
    else with_char c plain

pub shell_word : Bytes → Option (Bytes × Bytes)
unfolding inside_quotes
shell_word [] = none
shell_word (c ∷ s) = if c == b'"' then inside_quotes false s else none

inside_quotes-escape_chars :
    (s rest : Bytes) → inside_quotes false (escape_chars s ++ (b'"' ∷ rest)) ≡ some (s, rest)
unfolding inside_quotes escape_chars
inside_quotes-escape_chars [] rest = refl
inside_quotes-escape_chars (c ∷ s) rest = ground (arith, inside_quotes-escape_chars s rest)

-- Whatever the bytes of an argument, the shell reads its quoted form as that one word, and leaves
-- what follows it.
pub shell_word-escape_shell_arg :
    (s rest : Bytes) → shell_word (escape_shell_arg s ++ rest) ≡ some (s, rest)
unfolding shell_word escape_shell_arg
shell_word-escape_shell_arg s rest =
    rw (append_assoc (escape_chars s) (b'"' ∷ []) rest) (inside_quotes-escape_chars s rest)
