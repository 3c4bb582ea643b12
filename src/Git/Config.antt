-- ===== src/Git/Config.antt =====
-- commands.cpp: versions and configuration of git.
use git_crypt.Base.{
  ℕ, zero, suc, Bool, true, false, not, Option, none, some, List, [], ◌∷◌, ◌++◌, Bytes, codes,
  length, ◌==◌, if◌then◌else◌,
}
use git_crypt.Base.Results.{error}
use git_crypt.Host.{Host}
use git_crypt.Exec.{Exec, ◌>>=◌, ◌>>◌, pure, throw, when}
use git_crypt.Base.Streams.{get_line, read_word, atoi}
use git_crypt.Exec.System.{exit_status, successful_exit, our_exe_path}
use git_crypt.Exec.Process.{exec_command, exec_command_output}
use git_crypt.Base.Int.{ℤ, pos, ltb_ℤ}
use git_crypt.Util.{escape_shell_arg}

-- `attribute_name`; a null key name is the default key.
unfoldable pub attribute_name : Option Bytes → Bytes
attribute_name none = codes "git-crypt"
attribute_name (some key_name) = codes "git-crypt-" ++ key_name

-- The loop over `getline(in, component, '.')`; each round takes a character.
unfoldable pub parse_components : ℕ → Bytes → List ℤ
unfolding get_line atoi
parse_components fuel [] = []
parse_components zero (c ∷ s) = []
parse_components (suc fuel) (c ∷ s) =
    let (component, rest) = get_line b'.' (c ∷ s) in atoi component ∷ parse_components fuel rest

unfoldable pub parse_version : Bytes → List ℤ
unfolding parse_components
parse_version str = parse_components (length str) str

abbrev pub make_version : ℕ → ℕ → ℕ → List ℤ
make_version a b c = pos a ∷ (pos b ∷ (pos c ∷ []))

-- `operator<` of vectors.
unfoldable pub version_less : List ℤ → List ℤ → Bool
version_less v [] = false
version_less [] (b ∷ w) = true
version_less (a ∷ v) (b ∷ w) =
    let rest = version_less v w in if ltb_ℤ a b then true else if ltb_ℤ b a then false else rest

module _ ⦃H : Host⦄ where
  -- `if (!successful_exit(exec_command(command))) { throw Error(message); }`
  abbrev pub must_run : List Bytes → Bytes → Exec (Unit {0})
  must_run command message = do
    status ← exec_command command
    when (not (successful_exit status)) (throw (error message))

  -- The same with the output.
  abbrev pub must_output : List Bytes → Bytes → Exec Bytes
  must_output command message = do
    (status, output) ← exec_command_output command
    when (not (successful_exit status)) (throw (error message))
    pure output

  -- The third word of `git version`.
  unfoldable pub git_version_string : Exec Bytes
  unfolding read_word
  git_version_string = do
    output ←
        must_output (codes "git" ∷ (codes "version" ∷ []))
          (codes "'git version' failed - is Git installed?")
    pure (read_word (read_word (read_word output).1).1).0

  unfoldable pub git_version : Exec (List ℤ)
  unfolding git_version_string
  git_version = do str ← git_version_string; pure (parse_version str)

  unfoldable pub git_config : Bytes → Bytes → Exec (Unit {0})
  git_config name value =
      must_run (codes "git" ∷ (codes "config" ∷ (name ∷ (value ∷ []))))
        (codes "'git config' failed")

  -- Status 0 is true and 1 is false.
  has_config_status : Option ℕ → Exec Bool
  has_config_status none = throw (error (codes "'git config' failed"))
  has_config_status (some s) =
      if s == 0
      then pure true
      else if s == 1
      then pure false
      else throw (error (codes "'git config' failed"))

  unfoldable pub git_has_config : Bytes → Exec Bool
  unfolding has_config_status
  git_has_config name = do
    (status, output) ←
        exec_command_output (codes "git" ∷ (codes "config" ∷ (codes "--get-all" ∷ (name ∷ []))))
    has_config_status (exit_status status)

  unfoldable pub git_deconfig : Bytes → Exec (Unit {0})
  git_deconfig name =
      must_run (codes "git" ∷ (codes "config" ∷ (codes "--remove-section" ∷ (name ∷ []))))
        (codes "'git config' failed")

  unfoldable pub get_git_config : Bytes → Exec Bytes
  unfolding get_line
  get_git_config name = do
    output ←
        must_output (codes "git" ∷ (codes "config" ∷ (codes "--get" ∷ (name ∷ []))))
          (codes "'git config' missing value for key '" ++ (name ++ codes "'"))
    pure (get_line 10 output).0

  unfoldable pub configure_git_filters : Option Bytes → Exec (Unit {0})
  unfolding git_config
  configure_git_filters (some key_name) = do
    path ← our_exe_path
    let exe = escape_shell_arg path
    git_config (codes "filter.git-crypt-" ++ (key_name ++ codes ".smudge"))
        (exe ++ (codes " smudge --key-name=" ++ key_name))
    git_config (codes "filter.git-crypt-" ++ (key_name ++ codes ".clean"))
        (exe ++ (codes " clean --key-name=" ++ key_name))
    git_config (codes "filter.git-crypt-" ++ (key_name ++ codes ".required")) (codes "true")
    git_config (codes "diff.git-crypt-" ++ (key_name ++ codes ".textconv"))
        (exe ++ (codes " diff --key-name=" ++ key_name))
  configure_git_filters none = do
    path ← our_exe_path
    let exe = escape_shell_arg path
    git_config (codes "filter.git-crypt.smudge") (exe ++ codes " smudge")
    git_config (codes "filter.git-crypt.clean") (exe ++ codes " clean")
    git_config (codes "filter.git-crypt.required") (codes "true")
    git_config (codes "diff.git-crypt.textconv") (exe ++ codes " diff")

  -- `a || b`, where `b` is asked only if `a` is false.
  abbrev pub or_else : Exec Bool → Exec Bool → Exec Bool
  or_else a b = a >>= λ found. elim found [ true ↦ pure true | false ↦ b ]

  unfoldable pub deconfigure_git_filters : Option Bytes → Exec (Unit {0})
  unfolding git_has_config git_deconfig
  deconfigure_git_filters key_name = do
    let filter = codes "filter." ++ attribute_name key_name
    let diff = codes "diff." ++ attribute_name key_name
    filtered ← or_else (git_has_config (filter ++ codes ".smudge")) (
        or_else (git_has_config (filter ++ codes ".clean"))
          (git_has_config (filter ++ codes ".required")))
    when filtered (git_deconfig filter)
    converted ← git_has_config (diff ++ codes ".textconv")
    when converted (git_deconfig diff)
