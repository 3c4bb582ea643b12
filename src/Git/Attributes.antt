-- ===== src/Git/Attributes.antt =====
-- commands.cpp: the filter attributes of files, and which blobs are encrypted.
pub mod Lines
pub mod Fields
pub mod Dialogue
use git_crypt.Base.{
  ℕ, zero, suc, ◌+◌, ◌-◌, ◌/◌, ◌%◌, ◌^◌, Bool, true, false, not, ◌&&◌, ◌||◌, Option, none, some,
  List, [], ◌∷◌, ◌++◌, Bytes, codes, length, take, drop, equal, ◌==◌, leb, if◌then◌else◌, is_nil,
}
use git_crypt.Base.Results.{error, stuck}
use git_crypt.Host.{Host}
use git_crypt.Exec.{Exec, ◌>>=◌, ◌>>◌, pure, throw, lift, ask, call, skip, when}
use git_crypt.Base.Streams.{lines_of, get_line, skip_space, read_word, strtoul_octal}
use git_crypt.Exec.System.{successful_exit}
use git_crypt.Exec.Process.{exec_command_output}
use git_crypt.Git.Config.{attribute_name, make_version, version_less, must_output, git_version}
use git_crypt.Git.Paths.{get_path_to_top}

-- `line.rfind(": ", limit)`: the last position up to `limit`, from the position `i` of `s`.
unfoldable pub rfind_colon : ℕ → ℕ → Bytes → Option ℕ
rfind_colon i limit [] = none
rfind_colon i limit (c ∷ []) = none
rfind_colon i limit (c ∷ (d ∷ s)) = elim (rfind_colon (i + 1) limit (d ∷ s)) [
  | some pos ↦ some pos
  | none ↦ if c == b':' && d == b' ' && leb i limit then some i else none
]

-- The attributes found so far: filter and diff.
abbrev pub Attributes : Type 0
Attributes = Bytes × Bytes

unfoldable pub set_attribute : Bytes → Bytes → Attributes → Attributes
set_attribute attr_name attr_value (filter_attr, diff_attr) =
    if equal attr_value (codes "unspecified")
      || equal attr_value (codes "unset")
      || equal attr_value (codes "set")
    then (filter_attr, diff_attr)
    else if equal attr_name (codes "filter")
    then (attr_value, diff_attr)
    else if equal attr_name (codes "diff")
    then (filter_attr, attr_value)
    else (filter_attr, diff_attr)

-- The name and the value on a line `filename: attr_name: attr_value`, read backwards.
unfoldable pub split_line : Bytes → Option (Bytes × Bytes)
unfolding rfind_colon
split_line line = elim (rfind_colon 0 (length line) line) [
  | none ↦ none
  | some value_pos ↦ if value_pos == 0 then none else elim (rfind_colon 0 (value_pos - 1) line) [
    | none ↦ none
    | some name_pos ↦
        some
          (take (value_pos - (name_pos + 2)) (drop (name_pos + 2) line), drop (value_pos + 2) line)
  ]
]

unfoldable pub line_attributes : Bytes → Attributes → Attributes
unfolding split_line set_attribute
line_attributes line found = elim (split_line line) [
  | none ↦ found
  | some (attr_name, attr_value) ↦ set_attribute attr_name attr_value found
]

-- The loop over the lines of `git check-attr`.
unfoldable pub lines_attributes : List Bytes → Attributes → Attributes
unfolding line_attributes
lines_attributes [] found = found
lines_attributes (line ∷ lines) found = lines_attributes lines (line_attributes line found)

-- One of the two rounds over the fields of `git check-attr -z`, and what is left.
unfoldable pub field_attributes : Bytes → Attributes → Attributes × Bytes
field_attributes s found =
    let (filename, s1) = get_line 0 s in
    let (attr_name, s2) = get_line 0 s1 in
    let (attr_value, s3) = get_line 0 s2 in (set_attribute attr_name attr_value found, s3)

-- `(strtoul(mode, nullptr, 8) & 0170000) == 0100000`
unfoldable pub is_git_file_mode : Bytes → Bool
unfolding strtoul_octal
is_git_file_mode mode = strtoul_octal mode / 2 ^ 12 % 2 ^ 4 == 8

abbrev pub encrypted_magic : Bytes
encrypted_magic = 0 ∷ (codes "GITCRYPT" ++ (0 ∷ []))

-- A running `git check-attr --stdin -z filter diff`: what it was given, and how much of what it
-- wrote has been read.
pub record CheckAttr : Type 0 where
  pub given : Bytes
  pub position : ℕ

abbrev pub check_attr_command : List Bytes
check_attr_command =
    codes "git"
    ∷ (codes "check-attr"
        ∷ (codes "--stdin" ∷ (codes "-z" ∷ (codes "filter" ∷ (codes "diff" ∷ [])))))

module _ ⦃H : Host⦄ where
  -- With one process for each file.
  unfoldable pub get_file_attributes : Bytes → Exec Attributes
  unfolding lines_attributes lines_of
  get_file_attributes filename = do
    output ←
        must_output
          (codes "git"
            ∷ (codes "check-attr"
                ∷ (codes "filter" ∷ (codes "diff" ∷ (codes "--" ∷ (filename ∷ []))))))
          (codes "'git check-attr' failed - is this a Git repository?")
    pure (lines_attributes (lines_of output) ([], []))

  -- Over the pipes of one process for all files.
  unfoldable pub ask_file_attributes : Bytes → CheckAttr → Exec (Attributes × CheckAttr)
  ask_file_attributes filename p = do
    let given = p.given ++ (filename ++ (0 ∷ []))
    written ← ask (H.respond check_attr_command given)
    let unread = drop p.position written
    let (found, s1) = field_attributes unread ([], [])
    let (found', s2) = field_attributes s1 found
    pure (found', record { given = given; position = p.position + (length unread - length s2) })

  unfoldable pub check_if_blob_is_encrypted : Bytes → Exec Bool
  check_if_blob_is_encrypted object_id = do
    output ←
        must_output (codes "git" ∷ (codes "cat-file" ∷ (codes "blob" ∷ (object_id ∷ []))))
          (codes "'git cat-file' failed - is this a Git repository?")
    pure (length (take 10 output) == 10 && equal (take 10 output) encrypted_magic)

  unfoldable pub check_if_file_is_encrypted : Bytes → Exec Bool
  unfolding check_if_blob_is_encrypted read_word
  check_if_file_is_encrypted filename = do
    output ←
        must_output
          (codes "git" ∷ (codes "ls-files" ∷ (codes "-sz" ∷ (codes "--" ∷ (filename ∷ [])))))
          (codes "'git ls-files' failed - is this a Git repository?")
    if is_nil output
        then pure false
        else check_if_blob_is_encrypted (read_word (read_word output).1).0

  -- `none` for git before 1.8.5.
  unfoldable pub file_filter : Option CheckAttr → Bytes → Exec (Bytes × Option CheckAttr)
  file_filter (some p) filename = do
    (found, p') ← ask_file_attributes filename p
    pure (found.0, some p')
  file_filter none filename = do found ← get_file_attributes filename; pure (found.0, none)

  -- The loop over the output of `git ls-files -csz`: the files found, and the dialogue so far.
  -- Each round takes a character, and a stream that fails ends the loop.
  unfoldable pub encrypted_files_loop :
      ℕ
      → Bytes
      → Option Bytes
      → Option CheckAttr
      → List Bytes
      → Exec (List Bytes × Option CheckAttr)
  encrypted_files_loop fuel [] key_name p files = pure (files, p)
  encrypted_files_loop zero (c ∷ s) key_name p files = lift stuck
  encrypted_files_loop (suc fuel) (c ∷ s) key_name p files = do
    let (mode, s1) = read_word (c ∷ s)
    let (object_id, s2) = read_word s1
    let (stage, s3) = read_word s2
    let (filename, rest) = get_line 0 (skip_space s3)
    elim (is_git_file_mode mode) [
      | true ↦ (do
        (filter_attribute, p') ← file_filter p filename
        encrypted_files_loop fuel rest key_name p' (
            if equal filter_attribute (attribute_name key_name)
            then files ++ (filename ∷ [])
            else files))
      | false ↦ encrypted_files_loop fuel rest key_name p files
    ]

  -- `check_attr.close_stdin()` and `wait`.
  finish_check_attr : Option CheckAttr → Exec (Unit {0})
  finish_check_attr none = skip
  finish_check_attr (some p) = do
    r ← call (H.finish check_attr_command p.given)
    status ← lift r
    when (not (successful_exit status))
        (throw (error (codes "'git check-attr' failed - is this a Git repository?")))

  -- The files found are added to those given.
  unfoldable pub get_encrypted_files : List Bytes → Option Bytes → Exec (List Bytes)
  unfolding finish_check_attr
  get_encrypted_files files key_name = do
    path_to_top ← get_path_to_top
    let paths = if is_nil path_to_top then [] else path_to_top ∷ []
    (status, listing) ←
        exec_command_output
          (codes "git" ∷ (codes "ls-files" ∷ (codes "-csz" ∷ (codes "--" ∷ paths))))
    version ← git_version
    let p : Option CheckAttr =
        if not (version_less version (make_version 1 8 5))
        then some (record { given = []; position = 0 })
        else none
    (found, p') ← encrypted_files_loop (length listing) listing key_name p files
    when (not (successful_exit status))
        (throw (error (codes "'git ls-files' failed - is this a Git repository?")))
    finish_check_attr p'
    pure found
