-- ===== src/Windows/Arguments.antt =====
-- coprocess-win32.cpp, `format_cmdline`: a Windows program finds the arguments that were meant.
use git_crypt.Base.{
  ℕ, zero, suc, ◌+◌, ◌*◌, ◌/◌, ◌%◌, ◌^◌, ◌<◌, ◌≡◌, refl, sym, ap, true, false, List, [], ◌∷◌, ◌++◌,
  append_assoc, append-nil, ◌∙◌, Bytes, All, length, arith, ◌==◌, replicate, ◌≢◌, Bool-cases, inl,
  inr, ==_iff, length-append,
}
use native.Mathlib.Nat.{zero-add}
use git_crypt.Windows.CommandLine.{
  escape_chars, escape_cmdline_argument, format_arguments, format_cmdline,
}
use git_crypt.Windows.Runtime.{
  outside, quoted, closed, is_blank, add_word, read_argument, read_arguments, read_quoted,
  read_cmdline,
}

-- One more backslash, after the others or before them.
replicate-suc :
    (n : ℕ) (s : Bytes) → replicate (n + 1) b'\\' ++ s ≡ replicate n b'\\' ++ (b'\\' ∷ s)
replicate-suc zero s = refl
replicate-suc (suc n) s = rw (← replicate-suc n s) (ap (λ (k : ℕ). replicate k b'\\' ++ s) e)
  where
    e : suc n + 1 ≡ suc (n + 1)
    e = omega arith

-- Backslashes are counted.
read_argument-replicate :
    (k n : ℕ) (line : Bytes)
    → read_argument quoted n (replicate k b'\\' ++ line) ≡ read_argument quoted (n + k) line
unfolding read_argument
read_argument-replicate zero n line = ap (λ (m : ℕ). read_argument quoted m line) (omega arith)
read_argument-replicate (suc k) n line =
    read_argument-replicate k (n + 1) line
    ∙ ap (λ (m : ℕ). read_argument quoted m line) (omega arith)

module _ (n : ℕ) (line : Bytes) where
  read_quote :
      read_argument quoted (n * 2) (b'"' ∷ line)
      ≡ add_word (replicate n b'\\') (read_argument closed 0 line)
  unfolding read_argument
  read_quote =
      let half : n * 2 / 2 ≡ n = omega arith in
      let even : (n * 2 % 2 == 1) ≡ false = ground arith in rw (even, half, append-nil)

  read_escaped :
      read_argument quoted (n * 2 + 1) (b'"' ∷ line)
      ≡ add_word (replicate n b'\\' ++ (b'"' ∷ [])) (read_argument quoted 0 line)
  unfolding read_argument
  read_escaped =
      let half : (n * 2 + 1) / 2 ≡ n = omega arith in
      let odd : ((n * 2 + 1) % 2 == 1) ≡ true = ground arith in rw (odd, half)

  read_plain :
      (c : ℕ)
      → (c == b'\\') ≡ false
      → (c == b'"') ≡ false
      → read_argument quoted n (c ∷ line)
        ≡ add_word (replicate n b'\\' ++ (c ∷ [])) (read_argument quoted 0 line)
  unfolding read_argument
  read_plain c p q = elim (Bool-cases (is_blank c)) [
    | inl blank ↦ rw (p, q, blank)
    | inr other ↦ rw (p, q, other)
  ]

-- The rounds of the loop, while the counter does not wrap.
module _ (n c : ℕ) (arg : Bytes) (small : n < 2 ^ 31) where
  escape_backslash : (c == b'\\') ≡ true → escape_chars n (c ∷ arg) ≡ escape_chars (n + 1) arg
  unfolding escape_chars
  escape_backslash back = let d : (n + 1) % 2 ^ 32 ≡ n + 1 = omega arith in rw (back, d)

  escape_quote :
      (c == b'\\') ≡ false
      → (c == b'"') ≡ true
      → escape_chars n (c ∷ arg) ≡ replicate (n * 2 + 1) b'\\' ++ (b'"' ∷ escape_chars 0 arg)
  unfolding escape_chars
  escape_quote other mark =
      let d : n * 2 % 2 ^ 32 ≡ n * 2 = omega arith in
      rw (other, mark, d) (sym (replicate-suc (n * 2) (b'"' ∷ escape_chars 0 arg)))

  escape_plain :
      (c == b'\\') ≡ false
      → (c == b'"') ≡ false
      → escape_chars n (c ∷ arg) ≡ replicate n b'\\' ++ (c ∷ escape_chars 0 arg)
  unfolding escape_chars
  escape_plain other plain = rw (other, plain)

-- What is read from inside the quotes, where a backslash or another byte was counted.
read_counted :
    (k c : ℕ) (rest line : Bytes)
    → read_argument quoted 0 ((replicate k b'\\' ++ (c ∷ rest)) ++ line)
      ≡ read_argument quoted k (c ∷ (rest ++ line))
read_counted k c rest line = rw (
  append_assoc (replicate k b'\\') (c ∷ rest) line,
  read_argument-replicate k 0 (c ∷ (rest ++ line)),
  zero-add,
)

module _ (line : Bytes) (ends : read_argument closed 0 line ≡ ([], line)) where
  -- The lines of the loop, read from inside the quotes, with the backslashes counted so far.
  read_argument-escape_chars :
      (n : ℕ) (arg : Bytes)
      → n + length arg < 2 ^ 31
      → read_argument quoted 0 (escape_chars n arg ++ (b'"' ∷ line))
        ≡ (replicate n b'\\' ++ arg, line)
  read_argument-escape_chars n [] h =
      let d : n * 2 % 2 ^ 32 ≡ n * 2 = omega arith in
      unfold escape_chars in
      rw (d, read_argument-replicate (n * 2) 0 (b'"' ∷ line), zero-add, read_quote, ends)
  read_argument-escape_chars n (c ∷ arg) h =
      let small : n < 2 ^ 31 = omega arith in
      let counted = read_argument-escape_chars (n + 1) arg (omega arith) in
      let fresh : read_argument quoted 0 (escape_chars 0 arg ++ (b'"' ∷ line)) ≡ (arg, line) =
        read_argument-escape_chars 0 arg (omega arith) in
      elim (Bool-cases (c == b'\\')) [
        | inl back ↦
            rw (escape_backslash n c arg small back, counted)
              (rw ((==_iff c b'\\').0 back, replicate-suc n arg))
        | inr other ↦ elim (Bool-cases (c == b'"')) [
          | inl mark ↦ rw (
            escape_quote n c arg small other mark,
            read_counted (n * 2 + 1) b'"' (escape_chars 0 arg) (b'"' ∷ line),
            read_escaped,
            fresh,
            (==_iff c b'"').0 mark,
            append_assoc,
          )
          | inr plain ↦ rw (
            escape_plain n c arg small other plain,
            read_counted n c (escape_chars 0 arg) (b'"' ∷ line),
            read_plain n (escape_chars 0 arg ++ (b'"' ∷ line)) c other plain,
            fresh,
            append_assoc,
          )
        ]
      ]

-- After a closing quote, the line ends or another argument follows.
read_argument-format_arguments :
    (command : List Bytes)
    → read_argument closed 0 (format_arguments command) ≡ ([], format_arguments command)
unfolding read_argument format_arguments
read_argument-format_arguments [] = refl
read_argument-format_arguments (arg ∷ command) = refl

-- An argument of fewer than 2 ^ 31 bytes.
abbrev pub IsArgument : Bytes → Type 0
IsArgument arg = length arg < 2 ^ 31

read_argument-escape_cmdline_argument :
    (arg : Bytes) (command : List Bytes)
    → IsArgument arg
    → read_argument outside 0 (escape_cmdline_argument arg ++ format_arguments command)
      ≡ (arg, format_arguments command)
unfolding escape_cmdline_argument read_argument
read_argument-escape_cmdline_argument arg command h =
    let line = format_arguments command in
    let inside : read_argument quoted 0 (escape_chars 0 arg ++ (b'"' ∷ line)) ≡ (arg, line) =
      read_argument-escape_chars line (read_argument-format_arguments command) 0 arg
        (omega arith) in
    rw (append_assoc (escape_chars 0 arg) (b'"' ∷ []) line, inside)

read_word :
    (fuel : ℕ) (line word rest : Bytes)
    → read_argument outside 0 (b'"' ∷ line) ≡ (word, rest)
    → read_arguments (suc fuel) (b'"' ∷ line) ≡ word ∷ read_arguments fuel rest
unfolding read_arguments
read_word fuel line word rest e = rw e

read_arguments-format_arguments :
    (fuel : ℕ) (command : List Bytes)
    → All IsArgument command
    → length (format_arguments command) < fuel
    → read_arguments fuel (format_arguments command) ≡ command
unfolding read_arguments format_arguments escape_cmdline_argument
read_arguments-format_arguments zero command h f = absurd (omega arith)
read_arguments-format_arguments (suc fuel) [] h f = refl
read_arguments-format_arguments (suc zero) (arg ∷ command) h f = absurd (omega arith)
read_arguments-format_arguments (suc (suc fuel)) (arg ∷ command) (h, hs) f =
    let tail = format_arguments command in
    let shorter = length-append (escape_cmdline_argument arg) tail in
    let others = read_arguments-format_arguments fuel command hs (omega arith) in
    read_word fuel ((escape_chars 0 arg ++ (b'"' ∷ [])) ++ tail) arg tail
      (read_argument-escape_cmdline_argument arg command h)
    ∙ ap (◌∷◌ arg) others

-- A name that the program's own rules read back: no quote in it, and no backslash at its end.
abbrev pub IsProgram : Bytes → Type 0
IsProgram [] = Unit {0}
IsProgram (c ∷ []) = (c ≢ b'"') × (c ≢ b'\\')
IsProgram (c ∷ (d ∷ name)) = (c ≢ b'"') × IsProgram (d ∷ name)

-- Such a name is written as it is.
escape_chars-IsProgram :
    (n c : ℕ) (name : Bytes)
    → n + length (c ∷ name) < 2 ^ 31
    → IsProgram (c ∷ name)
    → escape_chars n (c ∷ name) ≡ replicate n b'\\' ++ (c ∷ name)
escape_chars-IsProgram n c [] h (p, q) =
    let small : n < 2 ^ 31 = omega arith in
    rw (escape_plain n c [] small (ground arith) (ground arith)) (unfold escape_chars in refl)
escape_chars-IsProgram n c (d ∷ name) h (p, r) =
    let small : n < 2 ^ 31 = omega arith in
    let plain : (c == b'"') ≡ false = ground arith in
    elim (Bool-cases (c == b'\\')) [
      | inl back ↦ rw (
        escape_backslash n c (d ∷ name) small back,
        escape_chars-IsProgram (n + 1) d name (omega arith) r,
        (==_iff c b'\\').0 back,
        replicate-suc,
      )
      | inr other ↦ rw (
        escape_plain n c (d ∷ name) small other plain,
        escape_chars-IsProgram 0 d name (omega arith) r,
      )
    ]

escape_chars_of_program :
    (name : Bytes) → length name < 2 ^ 31 → IsProgram name → escape_chars 0 name ≡ name
escape_chars_of_program [] h r = unfold escape_chars in refl
escape_chars_of_program (c ∷ name) h r = escape_chars-IsProgram 0 c name (omega arith) r

read_quoted-IsProgram :
    (name rest : Bytes) → IsProgram name → read_quoted (name ++ (b'"' ∷ rest)) ≡ (name, rest)
unfolding read_quoted
read_quoted-IsProgram [] rest r = refl
read_quoted-IsProgram (c ∷ []) rest (p, q) = ground arith
read_quoted-IsProgram (c ∷ (d ∷ name)) rest (p, r) =
    ground (arith, read_quoted-IsProgram (d ∷ name) rest r)

-- The command line that is formatted for `CreateProcess` is split by the rules of the C runtime
-- into the program and the arguments that were meant, whatever bytes they hold; the program's
-- name holds no quote and does not end with a backslash, and each of them is shorter than 2^31
-- bytes.
pub read_cmdline-format_cmdline :
    (program : Bytes) (args : List Bytes)
    → IsArgument program
    → IsProgram program
    → All IsArgument args
    → read_cmdline (format_cmdline (program ∷ args)) ≡ program ∷ args
unfolding read_cmdline format_cmdline escape_cmdline_argument
read_cmdline-format_cmdline program args small r h =
    let tail = format_arguments args in
    let written = escape_chars_of_program program small r in
    let others = read_arguments-format_arguments (suc (length tail)) args h (omega arith) in
    rw
      (
        append_assoc (escape_chars 0 program) (b'"' ∷ []) tail,
        written,
        read_quoted-IsProgram program tail r,
      )
      (ap (◌∷◌ program) others)
