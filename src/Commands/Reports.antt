-- ===== src/Commands/Reports.antt =====
-- commands.cpp, `status`: its loop comes to an end.
use git_crypt.Base.{false, not, ◌&&◌, List, [], ◌∷◌, Bytes, codes, length, ◌==◌, arith, is_nil}
use git_crypt.Base.Results.{error, system_error}
use git_crypt.Host.{Host}
use git_crypt.Exec.{World, pure}
use git_crypt.Base.Streams.{read_word}
use git_crypt.Exec.System.{successful_exit, touch_file, enoent}
use git_crypt.Exec.Process.{exec_command}
use git_crypt.Git.Config.{must_output, must_run}
use git_crypt.Git.Attributes.{
  get_file_attributes, check_if_blob_is_encrypted, check_if_file_is_encrypted,
}
use git_crypt.Commands.Listing.{StatusOptions, Report, is_crypt_filter}
use git_crypt.Commands.Status.{
  status_loop, report_file, report_encrypted, fix_blob, blob_is_unencrypted,
}
use git_crypt.Commands.Fuel.{
  Finishes, Answers, continue-Finishes, if-Finishes, exec_command-Finishes, check-Finishes,
  must_output-Finishes, get_file_attributes-Finishes, status_loop-Finishes,
}

module _ ⦃H : Host⦄ where
  must_run-Finishes :
      (command : List Bytes) (complaint : Bytes) (w : World)
      → Answers
      → Finishes (must_run command complaint w).0
  must_run-Finishes command complaint w answers =
      continue-Finishes (exec_command command w).0 _ (exec_command command w).1
        (exec_command-Finishes command w answers)
        (λ status.
          check-Finishes (not (successful_exit status)) (error complaint)
            (exec_command command w).1)

  touch_file-Finishes : (filename : Bytes) (w : World) → Finishes (touch_file filename w).0
  unfolding touch_file
  touch_file-Finishes filename w =
      let errno = (H.utimes filename w.host).0 in
      check-Finishes (not (errno == 0) && not (errno == enoent))
        (system_error (codes "utimes") filename errno)
        (record w { host = (H.utimes filename w.host).1 })

  check_if_blob_is_encrypted-Finishes :
      (object_id : Bytes) (w : World)
      → Answers
      → Finishes (check_if_blob_is_encrypted object_id w).0
  unfolding check_if_blob_is_encrypted
  check_if_blob_is_encrypted-Finishes object_id w answers =
      let command = codes "git" ∷ (codes "cat-file" ∷ (codes "blob" ∷ (object_id ∷ []))) in
      let complaint = codes "'git cat-file' failed - is this a Git repository?" in
      continue-Finishes (must_output command complaint w).0 _ _
        (must_output-Finishes command complaint w answers) (λ output. tt)

  check_if_file_is_encrypted-Finishes :
      (filename : Bytes) (w : World) → Answers → Finishes (check_if_file_is_encrypted filename w).0
  unfolding check_if_file_is_encrypted
  check_if_file_is_encrypted-Finishes filename w answers =
      let command =
        codes "git" ∷ (codes "ls-files" ∷ (codes "-sz" ∷ (codes "--" ∷ (filename ∷ [])))) in
      let complaint = codes "'git ls-files' failed - is this a Git repository?" in
      let listed = must_output command complaint w in
      continue-Finishes listed.0 _ listed.1 (must_output-Finishes command complaint w answers)
        (λ output.
          if-Finishes (is_nil output) (pure false)
            (check_if_blob_is_encrypted (read_word (read_word output).1).0) listed.1 tt
            (check_if_blob_is_encrypted-Finishes (read_word (read_word output).1).0 listed.1
              answers))

  blob_is_unencrypted-Finishes :
      (object_id : Bytes) (w : World) → Answers → Finishes (blob_is_unencrypted object_id w).0
  unfolding blob_is_unencrypted
  blob_is_unencrypted-Finishes [] w answers = tt
  blob_is_unencrypted-Finishes (c ∷ s) w answers =
      continue-Finishes (check_if_blob_is_encrypted (c ∷ s) w).0 _ _
        (check_if_blob_is_encrypted-Finishes (c ∷ s) w answers) (λ encrypted. tt)

  fix_blob-Finishes :
      (filename : Bytes) (r : Report) (w : World) → Answers → Finishes (fix_blob filename r w).0
  unfolding fix_blob
  fix_blob-Finishes filename r w answers =
      let add = codes "git" ∷ (codes "add" ∷ (codes "--" ∷ (filename ∷ []))) in
      let complaint = codes "'git-add' failed" in
      let w1 = (touch_file filename w).1 in
      let w2 = (must_run add complaint w1).1 in
      let w3 = (check_if_file_is_encrypted filename w2).1 in
      if-Finishes (not (H.access filename w.host == 0)) _ _ w tt (
        continue-Finishes (touch_file filename w).0 _ w1 (touch_file-Finishes filename w) (λ t.
          continue-Finishes (must_run add complaint w1).0 _ w2
            (must_run-Finishes add complaint w1 answers)
            (λ u.
              continue-Finishes (check_if_file_is_encrypted filename w2).0 _ w3
                (check_if_file_is_encrypted-Finishes filename w2 answers)
                (λ encrypted. if-Finishes encrypted _ _ w3 tt tt))))

  report_encrypted-Finishes :
      (o : StatusOptions) (file_attrs : Bytes × Bytes) (object_id filename : Bytes) (r : Report)
      (w : World)
      → Answers
      → Finishes (report_encrypted o file_attrs object_id filename r w).0
  unfolding report_encrypted
  report_encrypted-Finishes o file_attrs object_id filename r w answers =
      let w1 = (blob_is_unencrypted object_id w).1 in
      continue-Finishes (blob_is_unencrypted object_id w).0 _ w1
        (blob_is_unencrypted-Finishes object_id w answers)
        (λ unencrypted.
          if-Finishes (o.fix_problems && unencrypted) (fix_blob filename r) _ w1
            (fix_blob-Finishes filename r w1 answers)
            (if-Finishes (not o.fix_problems && not o.show_unencrypted_only) _ _ w1 tt tt))

  report_file-Finishes :
      (o : StatusOptions) (object_id filename : Bytes) (r : Report) (w : World)
      → Answers
      → Finishes (report_file o object_id filename r w).0
  unfolding report_file
  report_file-Finishes o object_id filename r w answers =
      let w1 = (get_file_attributes filename w).1 in
      continue-Finishes (get_file_attributes filename w).0 _ w1
        (get_file_attributes-Finishes filename w answers)
        (λ file_attrs.
          if-Finishes (is_crypt_filter file_attrs.0)
            (report_encrypted o file_attrs object_id filename r) _ w1
            (report_encrypted-Finishes o file_attrs object_id filename r w1 answers)
            (if-Finishes (not o.fix_problems && not o.show_encrypted_only) _ _ w1 tt tt))

  -- Where every run of a child ends, the loop of `status` ends on any listing, with its reports
  -- and its repairs: it returns or throws, and the length of the listing is fuel enough.
  pub status_loop_ends :
      (s : Bytes) (o : StatusOptions) (r : Report) (w : World)
      → Answers
      → Finishes (status_loop (length s) s o r w).0
  status_loop_ends s o r w answers =
      status_loop-Finishes (length s) s o r w
        (λ object_id filename r' w'. report_file-Finishes o object_id filename r' w' answers)
        (omega arith)
