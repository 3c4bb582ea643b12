-- ===== src/Commands/Listing.antt =====
-- commands.cpp: the options of `status` and the listing that it reads.
use git_crypt.Base.{
  ℕ, Bool, false, not, ◌&&◌, ◌||◌, Option, none, some, List, [], ◌∷◌, Bytes, codes, length, take,
  equal, ◌==◌, if◌then◌else◌,
}
use git_crypt.Base.Streams.{get_line, skip_space, read_word}
use git_crypt.Options.{OptionsList, Settings, flag_option, flag}
use git_crypt.Git.Attributes.{is_git_file_mode}

abbrev pub status_options : OptionsList
status_options =
    flag_option (codes "-r") 0
    ∷ (flag_option (codes "-e") 1
        ∷ (flag_option (codes "-u") 2
            ∷ (flag_option (codes "-f") 3
                ∷ (flag_option (codes "--fix") 3 ∷ (flag_option (codes "-z") 4 ∷ [])))))

pub record StatusOptions : Type 0 where
  pub repo_status_only : Bool
  pub show_encrypted_only : Bool
  pub show_unencrypted_only : Bool
  pub fix_problems : Bool
  pub machine_output : Bool

abbrev pub from_settings : Settings → StatusOptions
from_settings s = record {
  repo_status_only = flag 0 s;
  show_encrypted_only = flag 1 s;
  show_unencrypted_only = flag 2 s;
  fix_problems = flag 3 s;
  machine_output = flag 4 s;
}

-- The first complaint about the options, where there is one.
unfoldable pub options_error : StatusOptions → List Bytes → Option Bytes
options_error o files =
    if o.repo_status_only && (o.show_encrypted_only || o.show_unencrypted_only)
    then some (codes "Error: -e and -u options cannot be used with -r")
    else if o.repo_status_only && o.fix_problems
    then some (codes "Error: -f option cannot be used with -r")
    else if o.repo_status_only && not (length files == 0)
    then some (codes "Error: filenames cannot be specified when -r is used")
    else if o.show_encrypted_only && o.show_unencrypted_only
    then some (codes "Error: -e and -u options are mutually exclusive")
    else if o.fix_problems && (o.show_encrypted_only || o.show_unencrypted_only)
    then some (codes "Error: -e and -u options cannot be used with -f")
    else if o.machine_output
    then some (codes "Sorry, machine-parseable output is not yet implemented")
    else none

-- The rest of an entry of `git ls-files`: the object ID and the file name.
unfoldable pub read_filename : Bytes → Bytes → Option (Bytes × Bytes) × Bytes
unfolding skip_space get_line
read_filename object_id s =
    let line = get_line 0 (skip_space s) in (some (object_id, line.0), line.1)

-- An entry that is in the index. Where the mode is not a file's, the loop goes on with the file
-- name still to read.
unfoldable pub read_staged : Bytes → Option (Bytes × Bytes) × Bytes
unfolding read_word is_git_file_mode read_filename
read_staged s =
    let mode = read_word s in
    let object_id = read_word mode.1 in
    let stage = read_word object_id.1 in
    if is_git_file_mode mode.0 then read_filename object_id.0 stage.1 else (none, stage.1)

-- One round of reading: what it found, and what is left of the listing.
unfoldable pub read_entry : Bytes → Option (Bytes × Bytes) × Bytes
unfolding read_word read_filename read_staged
read_entry s =
    let tag = read_word s in
    if equal tag.0 (codes "?") then read_filename [] tag.1 else read_staged tag.1

pub record Report : Type 0 where
  pub attribute_errors : Bool
  pub unencrypted_blob_errors : Bool
  pub fixed_blobs : ℕ
  pub fix_errors : ℕ

abbrev pub no_report : Report
no_report = record {
  attribute_errors = false;
  unencrypted_blob_errors = false;
  fixed_blobs = 0;
  fix_errors = 0;
}

-- The filter is that of the default key or of a named one.
unfoldable pub is_crypt_filter : Bytes → Bool
is_crypt_filter filter =
    equal filter (codes "git-crypt") || equal (take 10 filter) (codes "git-crypt-")
