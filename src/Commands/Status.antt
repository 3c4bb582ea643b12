-- ===== src/Commands/Status.antt =====
-- commands.cpp: `status`.
use git_crypt.Base.{
  ℕ, zero, suc, ◌+◌, ◌%◌, ◌^◌, Bool, false, not, ◌&&◌, ◌||◌, none, some, List, [], ◌∷◌, ◌++◌, Bytes,
  codes, length, equal, ◌==◌, if◌then◌else◌, is_nil, decimal,
}
use git_crypt.Base.Results.{stuck}
use git_crypt.Host.{Host}
use git_crypt.Exec.{Exec, ◌>>=◌, ◌>>◌, pure, lift, ask, log, put_line, when}
use git_crypt.Exec.System.{touch_file}
use git_crypt.Options.{parse_options}
use git_crypt.Git.Config.{must_run, must_output}
use git_crypt.Git.Paths.{get_path_to_top}
use git_crypt.Git.Attributes.{
  get_file_attributes, check_if_blob_is_encrypted, check_if_file_is_encrypted,
}
use git_crypt.Commands.Listing.{
  StatusOptions, status_options, from_settings, options_error, read_entry, Report, no_report,
  is_crypt_filter,
}

-- `"    encrypted: "` and the warnings.
encrypted_line : Bytes → Bytes → Bool → Bool → Bytes
encrypted_line filename filter no_diff unencrypted =
    codes "    encrypted: "
    ++ (filename
        ++ ((if no_diff
              then codes " *** WARNING: diff=" ++ (filter ++ codes " attribute not set ***")
              else [])
            ++ (if unencrypted
                then codes " *** WARNING: staged/committed version is NOT ENCRYPTED! ***"
                else [])))

plural : ℕ → Bytes
plural n = if not (n == 1) then codes "s" else []

module _ ⦃H : Host⦄ where
  -- `!object_id.empty() && !check_if_blob_is_encrypted(object_id)`
  unfoldable pub blob_is_unencrypted : Bytes → Exec Bool
  blob_is_unencrypted [] = pure false
  blob_is_unencrypted (c ∷ s) = do
    encrypted ← check_if_blob_is_encrypted (c ∷ s)
    pure (not encrypted)

  unfoldable pub fix_blob : Bytes → Report → Exec Report
  fix_blob filename r = do
    errno ← ask (H.access filename)
    if not (errno == 0)
        then (do
          log (
              codes "Error: "
              ++ (filename
                  ++ codes
                      ": cannot stage encrypted version because not present in working tree - please 'git rm' or 'git checkout' it"))
          pure (record r { fix_errors = (r.fix_errors + 1) % 2 ^ 32 }))
        else (do
          touch_file filename
          must_run (codes "git" ∷ (codes "add" ∷ (codes "--" ∷ (filename ∷ []))))
              (codes "'git-add' failed")
          encrypted ← check_if_file_is_encrypted filename
          if encrypted
              then (do
                put_line (filename ++ codes ": staged encrypted version")
                pure (record r { fixed_blobs = (r.fixed_blobs + 1) % 2 ^ 32 }))
              else (do
                log (
                    codes "Error: " ++ (filename ++ codes ": still unencrypted even after staging"))
                pure (record r { fix_errors = (r.fix_errors + 1) % 2 ^ 32 })))

  unfoldable pub report_encrypted :
      StatusOptions → Bytes × Bytes → Bytes → Bytes → Report → Exec Report
  unfolding blob_is_unencrypted fix_blob encrypted_line
  report_encrypted o file_attrs object_id filename r = do
    unencrypted ← blob_is_unencrypted object_id
    let no_diff = not (equal file_attrs.1 file_attrs.0)
    if o.fix_problems && unencrypted
        then fix_blob filename r
        else if not o.fix_problems && not o.show_unencrypted_only
        then (do
          put_line (encrypted_line filename file_attrs.0 no_diff unencrypted)
          pure (record r {
            attribute_errors = r.attribute_errors || no_diff;
            unencrypted_blob_errors = r.unencrypted_blob_errors || unencrypted;
          }))
        else pure r

  unfoldable pub report_file : StatusOptions → Bytes → Bytes → Report → Exec Report
  unfolding report_encrypted is_crypt_filter
  report_file o object_id filename r = do
    file_attrs ← get_file_attributes filename
    if is_crypt_filter file_attrs.0
        then report_encrypted o file_attrs object_id filename r
        else if not o.fix_problems && not o.show_encrypted_only
        then (do put_line (codes "not encrypted: " ++ filename); pure r)
        else pure r

  -- Each round takes a character, and a stream that fails ends the loop.
  unfoldable pub status_loop : ℕ → Bytes → StatusOptions → Report → Exec Report
  unfolding report_file read_entry
  status_loop fuel [] o r = pure r
  status_loop zero (c ∷ s) o r = lift stuck
  status_loop (suc fuel) (c ∷ s) o r =
      let entry = read_entry (c ∷ s) in
      elim entry.0 [
        | none ↦ status_loop fuel entry.1 o r
        | some (object_id, filename) ↦ (do
          r' ← report_file o object_id filename r
          status_loop fuel entry.1 o r')
      ]

  -- What is printed after the loop.
  summary : Report → Exec (Unit {0})
  unfolding plural
  summary r = do
    when r.attribute_errors (do
      put_line []
      put_line (codes "Warning: one or more files has a git-crypt filter attribute but not a")
      put_line (codes "corresponding git-crypt diff attribute.  For proper 'git diff' operation")
      put_line
          (codes "you should fix the .gitattributes file to specify the correct diff attribute.")
      put_line (codes "Consult the git-crypt documentation for help."))
    when r.unencrypted_blob_errors (do
      put_line []
      put_line (codes "Warning: one or more files is marked for encryption via .gitattributes but")
      put_line (codes "was staged and/or committed before the .gitattributes file was in effect.")
      put_line (codes "Run 'git-crypt status' with the '-f' option to stage an encrypted version."))
    when (not (r.fixed_blobs == 0)) (do
      put_line (
          codes "Staged "
          ++ (decimal r.fixed_blobs
              ++ (codes " encrypted file" ++ (plural r.fixed_blobs ++ codes "."))))
      put_line (
          codes
            "Warning: if these files were previously committed, unencrypted versions still exist in the repository's history."))
    when (not (r.fix_errors == 0)) (
        put_line (
          codes "Unable to stage "
          ++ (decimal r.fix_errors ++ (codes " file" ++ (plural r.fix_errors ++ codes ".")))))

  unfoldable pub report_status : Report → ℕ
  report_status r =
      if r.attribute_errors || r.unencrypted_blob_errors || not (r.fix_errors == 0) then 1 else 0

  -- `status` where the options are compatible.
  unfoldable pub status_files : StatusOptions → List Bytes → Exec ℕ
  unfolding status_loop summary report_status
  status_files o files = do
    path_to_top ← if length files == 0 then get_path_to_top else pure []
    let paths =
        if length files == 0 then (if is_nil path_to_top then [] else path_to_top ∷ []) else files
    output ←
        must_output
          (codes "git"
            ∷ (codes "ls-files"
                ∷ (codes "-cotsz" ∷ (codes "--exclude-standard" ∷ (codes "--" ∷ paths)))))
          (codes "'git ls-files' failed - is this a Git repository?")
    r ← status_loop (length output) output o no_report
    summary r
    pure (report_status r)

  unfoldable pub status_with : StatusOptions → List Bytes → Exec ℕ
  unfolding status_files
  status_with o files = elim (options_error o files) [
    | some message ↦ (do log message; pure 2)
    | none ↦ if length files == 0 && o.repo_status_only then pure 0 else status_files o files
  ]

  unfoldable pub status : List Bytes → Exec ℕ
  unfolding status_with
  status args = do
    (settings, rest) ← lift (parse_options status_options args)
    status_with (from_settings settings) rest
