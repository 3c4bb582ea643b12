-- ===== src/Commands/Fuel.antt =====
-- commands.cpp: the loops over a listing of git take a character in each round.
use git_crypt.Base.{
  ℕ, zero, suc, ◌≤◌, ◌<◌, inl, inr, Bool, true, false, not, Option, none, some, List, [], ◌∷◌,
  Bytes, codes, length, take, drop, equal, leb, if◌then◌else◌, arith, Bool-cases, Option-cases,
  length-drop,
}
use git_crypt.Base.Results.{Exception, error, Result, ok, err, stuck}
use git_crypt.Host.{Host}
use git_crypt.Exec.{World, Exec, continue, pure, throw, when}
use git_crypt.Base.Streams.{get_line, isspace, skip_space, word, read_word}
use git_crypt.Exec.Process.{exec_command, exec_command_output}
use git_crypt.Git.Paths.{git_checkout_batch, checkout_batches, git_checkout}
use git_crypt.Exec.System.{successful_exit}
use git_crypt.Git.Config.{must_output}
use git_crypt.Git.Attributes.{
  is_git_file_mode, CheckAttr, get_file_attributes, ask_file_attributes, file_filter,
  encrypted_files_loop,
}
use git_crypt.Commands.Listing.{StatusOptions, Report, read_entry, read_staged, read_filename}
use git_crypt.Commands.Status.{status_loop, report_file}

get_line_takes : (delim : ℕ) (s : Bytes) → length (get_line delim s).1 ≤ length s
unfolding get_line
get_line_takes delim [] = omega arith
get_line_takes delim (c ∷ s) = ground (arith, get_line_takes delim s)

skip_space_takes : (s : Bytes) → length (skip_space s) ≤ length s
unfolding skip_space
skip_space_takes [] = omega arith
skip_space_takes (c ∷ s) = ground (arith, skip_space_takes s)

word_takes : (s : Bytes) → length (word s).1 ≤ length s
unfolding word
word_takes [] = omega arith
word_takes (c ∷ s) = ground (arith, word_takes s)

read_word_takes : (s : Bytes) → length (read_word s).1 ≤ length s
unfolding read_word
read_word_takes s = omega (arith, skip_space_takes s, word_takes (skip_space s))

-- A character is taken where there is one: white space is passed over, and any other is read.
read_word_moves : (c : ℕ) (s : Bytes) → length (read_word (c ∷ s)).1 ≤ length s
unfolding read_word
read_word_moves c s = elim (Bool-cases (isspace c)) [
  | inl space ↦ unfold skip_space in rw space (read_word_takes s)
  | inr other ↦ unfold skip_space word in rw (other, other) (word_takes s)
]

read_filename_takes : (object_id s : Bytes) → length (read_filename object_id s).1 ≤ length s
unfolding read_filename
read_filename_takes object_id s = omega (arith, skip_space_takes s, get_line_takes 0 (skip_space s))

read_staged_takes : (s : Bytes) → length (read_staged s).1 ≤ length s
unfolding read_staged
read_staged_takes s =
    let s1 = (read_word s).1 in
    let s2 = (read_word s1).1 in
    let s3 = (read_word s2).1 in
    let left : length s3 ≤ length s =
      omega (arith, read_word_takes s, read_word_takes s1, read_word_takes s2) in
    elim (Bool-cases (is_git_file_mode (read_word s).0)) [
      | inl file ↦ rw file (omega (arith, left, read_filename_takes (read_word s1).0 s3))
      | inr other ↦ rw other left
    ]

read_entry_moves : (c : ℕ) (s : Bytes) → length (read_entry (c ∷ s)).1 ≤ length s
unfolding read_entry
read_entry_moves c s =
    let tag = read_word (c ∷ s) in
    elim (Bool-cases (equal tag.0 (codes "?"))) [
      | inl untracked ↦
          rw untracked (omega (arith, read_word_moves c s, read_filename_takes [] tag.1))
      | inr staged ↦ rw staged (omega (arith, read_word_moves c s, read_staged_takes tag.1))
    ]

-- The run gives a value or throws: no fuel has run out in it.
abbrev pub Finishes : {A : Type 0} → Result A → Type 0
Finishes (ok a) = Unit
Finishes (err e) = Unit
Finishes stuck = ⊥

module _ ⦃H : Host⦄ where
  pub continue-Finishes :
      {A B : Type 0} (r : Result A) (f : A → Exec B) (w : World)
      → Finishes r
      → ((a : A) → Finishes (f a w).0)
      → Finishes (continue r f w).0
  continue-Finishes (ok a) f w h k = k a
  continue-Finishes (err e) f w h k = tt
  continue-Finishes stuck f w h k = h

  -- Where the report on each file finishes, so does the loop of `status` over any listing: the length of the
  -- listing is fuel enough.
  pub status_loop-Finishes :
      (fuel : ℕ) (s : Bytes) (o : StatusOptions) (r : Report) (w : World)
      → ((object_id filename : Bytes) (r : Report) (w : World)
          → Finishes (report_file o object_id filename r w).0)
      → length s ≤ fuel
      → Finishes (status_loop fuel s o r w).0
  unfolding status_loop
  status_loop-Finishes fuel [] o r w h enough = tt
  status_loop-Finishes zero (c ∷ s) o r w h enough = absurd (omega arith)
  status_loop-Finishes (suc fuel) (c ∷ s) o r w h enough =
      let left : length (read_entry (c ∷ s)).1 ≤ fuel = omega (arith, read_entry_moves c s) in
      elim (Option-cases (read_entry (c ∷ s)).0) [
        | inl e ↦
            rw (e, status_loop) (status_loop-Finishes fuel (read_entry (c ∷ s)).1 o r w h left)
        | inr ((object_id, filename), e) ↦
            rw (e, status_loop)
              (continue-Finishes (report_file o object_id filename r w).0 _
                (report_file o object_id filename r w).1 (h object_id filename r w)
                (λ r'. status_loop-Finishes fuel (read_entry (c ∷ s)).1 o r' _ h left))
      ]

  pub if-Finishes :
      {A : Type 0} (b : Bool) (m n : Exec A) (w : World)
      → Finishes (m w).0
      → Finishes (n w).0
      → Finishes ((if b then m else n) w).0
  if-Finishes true m n w hm hn = hm
  if-Finishes false m n w hm hn = hn

  branch-Finishes :
      {A : Type 0} (b : Bool) (m n : Exec A) (w : World)
      → Finishes (m w).0
      → Finishes (n w).0
      → let k : Exec A = elim b [ true ↦ m | false ↦ n ] in Finishes (k w).0
  branch-Finishes true m n w hm hn = hm
  branch-Finishes false m n w hm hn = hn

  -- Documented behaviour of the system: each run of a child comes to an end.
  abbrev pub Answers : Type 0
  Answers = (args : List Bytes) (input : Bytes) (h : H.State) → Finishes (H.run args input h).0

  pub exec_command-Finishes :
      (args : List Bytes) (w : World) → Answers → Finishes (exec_command args w).0
  unfolding exec_command
  exec_command-Finishes args w answers =
      continue-Finishes (H.run args [] w.host).0 _ _ (answers args [] w.host) (λ r. tt)

  git_checkout_batch-Finishes :
      (paths : List Bytes) (w : World) → Answers → Finishes (git_checkout_batch paths w).0
  unfolding git_checkout_batch
  git_checkout_batch-Finishes [] w answers = tt
  git_checkout_batch-Finishes (path ∷ paths) w answers =
      let command = codes "git" ∷ (codes "checkout" ∷ (codes "--" ∷ (path ∷ paths))) in
      continue-Finishes (exec_command command w).0 _ _ (exec_command-Finishes command w answers)
        (λ r. tt)

  checkout_batches-Finishes :
      (fuel : ℕ) (paths : List Bytes) (w : World)
      → Answers
      → length paths < fuel
      → Finishes (checkout_batches fuel paths w).0
  unfolding checkout_batches
  checkout_batches-Finishes zero paths w answers enough = absurd (omega arith)
  checkout_batches-Finishes (suc fuel) paths w answers enough =
      elim (Bool-cases (leb 100 (length paths))) [
        | inr few ↦ rw few (git_checkout_batch-Finishes paths w answers)
        | inl many ↦
            let hundred : 100 ≤ length paths = ground arith in
            let left = length-drop 100 paths in
            let batch = take 100 paths in
            let r = git_checkout_batch batch w in
            rw many (
              continue-Finishes r.0 _ r.1 (git_checkout_batch-Finishes batch w answers) (λ done.
                branch-Finishes done (checkout_batches fuel (drop 100 paths)) (pure false) r.1
                  (checkout_batches-Finishes fuel (drop 100 paths) r.1 answers
                    (omega (arith, left, hundred)))
                  tt))
      ]

  -- Where every run of a child ends, `git_checkout` ends on any list of paths: it returns or
  -- throws, and the fuel is enough for all batches.
  pub git_checkout-Finishes :
      (paths : List Bytes) (w : World) → Answers → Finishes (git_checkout paths w).0
  unfolding git_checkout
  git_checkout-Finishes paths w answers =
      checkout_batches-Finishes (suc (length paths)) paths w answers (omega arith)

  pub check-Finishes : (b : Bool) (e : Exception) (w : World) → Finishes (when b (throw e) w).0
  check-Finishes true e w = tt
  check-Finishes false e w = tt

  pub must_output-Finishes :
      (command : List Bytes) (complaint : Bytes) (w : World)
      → Answers
      → Finishes (must_output command complaint w).0
  unfolding exec_command_output
  must_output-Finishes command complaint w answers =
      continue-Finishes (H.run command [] w.host).0 _
        (record w { host = (H.run command [] w.host).1 }) (answers command [] w.host)
        (λ (status, output).
          continue-Finishes
            (when (not (successful_exit status)) (throw (error complaint))
              (record w { host = (H.run command [] w.host).1 })).0
            _ _
            (check-Finishes (not (successful_exit status)) (error complaint)
              (record w { host = (H.run command [] w.host).1 }))
            (λ u. tt))

  pub get_file_attributes-Finishes :
      (filename : Bytes) (w : World) → Answers → Finishes (get_file_attributes filename w).0
  unfolding get_file_attributes
  get_file_attributes-Finishes filename w answers =
      let command =
        codes "git"
        ∷ (codes "check-attr"
            ∷ (codes "filter" ∷ (codes "diff" ∷ (codes "--" ∷ (filename ∷ []))))) in
      let complaint = codes "'git check-attr' failed - is this a Git repository?" in
      continue-Finishes (must_output command complaint w).0 _ _
        (must_output-Finishes command complaint w answers) (λ output. tt)

  file_filter-Finishes :
      (p : Option CheckAttr) (filename : Bytes) (w : World)
      → Answers
      → Finishes (file_filter p filename w).0
  unfolding file_filter ask_file_attributes
  file_filter-Finishes (some p) filename w answers = tt
  file_filter-Finishes none filename w answers =
      continue-Finishes (get_file_attributes filename w).0 _ _
        (get_file_attributes-Finishes filename w answers) (λ found. tt)

  -- Where every run of a child ends, the loop of `get_encrypted_files` ends on any listing: it
  -- returns or throws, and the length of the listing is fuel enough.
  pub encrypted_files_loop-Finishes :
      (fuel : ℕ) (s : Bytes) (key_name : Option Bytes) (p : Option CheckAttr) (files : List Bytes)
      (w : World)
      → Answers
      → length s ≤ fuel
      → Finishes (encrypted_files_loop fuel s key_name p files w).0
  unfolding encrypted_files_loop
  encrypted_files_loop-Finishes fuel [] key_name p files w answers enough = tt
  encrypted_files_loop-Finishes zero (c ∷ s) key_name p files w answers enough =
      absurd (omega arith)
  encrypted_files_loop-Finishes (suc fuel) (c ∷ s) key_name p files w answers enough =
      let s1 = (read_word (c ∷ s)).1 in
      let s2 = (read_word s1).1 in
      let s3 = (read_word s2).1 in
      let line = get_line 0 (skip_space s3) in
      let left : length line.1 ≤ fuel = omega (
        arith,
        read_word_moves c s,
        read_word_takes s1,
        read_word_takes s2,
        skip_space_takes s3,
        get_line_takes 0 (skip_space s3),
      ) in
      let filtered = file_filter p line.0 w in
      elim (Bool-cases (is_git_file_mode (read_word (c ∷ s)).0)) [
        | inr other ↦
            rw (other, encrypted_files_loop)
              (encrypted_files_loop-Finishes fuel line.1 key_name p files w answers left)
        | inl file ↦
            rw (file, encrypted_files_loop)
              (continue-Finishes filtered.0 _ filtered.1 (file_filter-Finishes p line.0 w answers)
                (λ (found, p').
                  encrypted_files_loop-Finishes fuel line.1 key_name p' _ filtered.1 answers left))
      ]
