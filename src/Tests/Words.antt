-- ===== src/Tests/Words.antt =====
-- Words, quoting, columns and options.
use git_crypt.Base.{
  ◌≡◌, refl, ◌↔◌, true, false, some, List, [], ◌∷◌, ◌++◌, Bytes, codes, take, arith,
}
use git_crypt.Base.Results.{ok}
use git_crypt.Util.{escape_shell_arg, leakless_equals}
use git_crypt.Util.Compare.{leakless_equals_iff}
use git_crypt.Util.Shell.{shell_word, shell_word-escape_shell_arg}
use git_crypt.Gpg.{gpg_nth_column}
use git_crypt.Options.{
  OptionsList, flag_option, value_option, find_option, kind, parse_options, short_options,
  short_value, take_next, set_flag,
}
use git_crypt.Options.Total.{Parses, Read, parse_options-Consumes}

-- An argument with quotes, spaces and a dollar sign.
abbrev phrase : Bytes
phrase = codes "a \"b\" $HOME"

shell_word-escape_shell_arg_example :
    shell_word (escape_shell_arg phrase ++ codes " smudge") ≡ some (phrase, codes " smudge")
shell_word-escape_shell_arg_example = shell_word-escape_shell_arg phrase (codes " smudge")

abbrev first : Bytes
first = 1 ∷ (2 ∷ (3 ∷ []))

abbrev second : Bytes
second = 1 ∷ (2 ∷ (4 ∷ []))

leakless_equals_iff_example :
    (leakless_equals first second 2 ≡ true) ↔ (take 2 first ≡ take 2 second)
leakless_equals_iff_example = leakless_equals_iff first second 2 (omega arith) (omega arith)

leakless_equals-same : leakless_equals first second 2 ≡ true
unfolding leakless_equals
leakless_equals-same = refl

leakless_equals-other : leakless_equals first second 3 ≡ false
unfolding leakless_equals
leakless_equals-other = refl

-- A line of gpg.
abbrev uid_line : Bytes
uid_line = codes "uid:u::::1395975462::AB97::John:"

gpg_nth_column-uid : gpg_nth_column uid_line 9 ≡ ok (codes "John")
unfolding gpg_nth_column
gpg_nth_column-uid = refl

-- A flag and an option with a value.
abbrev options : OptionsList
options =
    value_option (codes "-k") 0
    ∷ (value_option (codes "--key-name") 0 ∷ (flag_option (codes "-a") 1 ∷ []))

abbrev arguments : List Bytes
arguments = codes "-ak" ∷ (codes "team" ∷ (codes "file" ∷ []))

parse_options-Consumes_example : Parses (Read arguments) (parse_options options arguments)
parse_options-Consumes_example = parse_options-Consumes options arguments

parse_options-arguments :
    parse_options options arguments
    ≡ ok (record { flags = 1 ∷ []; values = (0, codes "team") ∷ [] }, codes "file" ∷ [])
unfolding parse_options kind short_options find_option short_value take_next set_flag
parse_options-arguments = refl
