-- ===== src/Windows/CommandLine.antt =====
-- coprocess-win32.cpp: the command line that `CreateProcess` is given.
use git_crypt.Base.{
  ℕ, ◌+◌, ◌*◌, ◌%◌, ◌^◌, List, [], ◌∷◌, ◌++◌, Bytes, ◌==◌, if◌then◌else◌, replicate,
}

-- The loop of `escape_cmdline_argument`, with the backslashes that its inner loop has counted and
-- not yet written; `num_backslashes` is an `unsigned int`.
unfoldable pub escape_chars : ℕ → Bytes → Bytes
escape_chars num_backslashes [] = replicate (num_backslashes * 2 % 2 ^ 32) b'\\'
escape_chars num_backslashes (c ∷ arg) =
    let counted = escape_chars ((num_backslashes + 1) % 2 ^ 32) arg in
    let rest = escape_chars 0 arg in
    if c == b'\\'
    then counted
    else if c == b'"'
    then replicate (num_backslashes * 2 % 2 ^ 32) b'\\' ++ (b'\\' ∷ (b'"' ∷ rest))
    else replicate num_backslashes b'\\' ++ (c ∷ rest)

-- What `escape_cmdline_argument` adds to the command line.
unfoldable pub escape_cmdline_argument : Bytes → Bytes
unfolding escape_chars
escape_cmdline_argument arg = b'"' ∷ (escape_chars 0 arg ++ (b'"' ∷ []))

-- The arguments after the first.
unfoldable pub format_arguments : List Bytes → Bytes
format_arguments [] = []
format_arguments (arg ∷ command) = b' ' ∷ (escape_cmdline_argument arg ++ format_arguments command)

unfoldable pub format_cmdline : List Bytes → Bytes
unfolding escape_cmdline_argument format_arguments
format_cmdline [] = []
format_cmdline (arg ∷ command) = escape_cmdline_argument arg ++ format_arguments command
