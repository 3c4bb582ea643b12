-- ===== src/Tests/Commands.antt =====
-- The commands, on the toy system.
use git_crypt.Base.{
  length, ◌≡◌, refl, true, false, none, some, List, [], ◌∷◌, ◌++◌, Bytes, codes, arith, inr,
}
use git_crypt.Base.Results.{ok}
use git_crypt.Exec.{World}
use git_crypt.Base.Streams.{isspace}
use git_crypt.Commands.Fuel.{Finishes}
use git_crypt.Commands.Reports.{status_loop_ends}
use git_crypt.Commands.Listing.{no_report}
use git_crypt.Commands.Status.{status_loop}
use git_crypt.Git.Attributes.{is_git_file_mode}
use git_crypt.Commands.Keys.{write_key_file}
use git_crypt.Commands.Unlock.{unlock_key}
use git_crypt.KeyFormat.{store}
use git_crypt.Commands.Listing.{StatusOptions, read_entry}
use git_crypt.Base.Words.{IsWord}
use git_crypt.Commands.Entries.{
  Listed, staged, print_entry, seen, IsFile, IsListed, is_staged, read_entry-print_entry,
  read_entry_leaves_name,
}
use git_crypt.Commands.Shared.{unlock_key-write_key_file}
use git_crypt.Tests.Toy.{
  toy-Answers, toy_host, world, find_file, toy_key_file, toy_key_file-IsWellFormed,
}

abbrev team : Bytes
team = codes "team"

-- A repository with that key, and with a change that is not committed.
abbrev changed_repository : World
changed_repository =
    world ((codes ".git/git-crypt/keys/team", []) ∷ ((codes "changed", codes " M file\n") ∷ [])) []

-- The toy system after the key file is written to a file.
abbrev exported : List (Bytes × Bytes)
exported = (codes "my key", store toy_key_file) ∷ []

exported-found : toy_host.open_input (codes "my key") exported ≡ some (store toy_key_file)
unfolding find_file
exported-found = refl

unlock_key-write_key_file_example :
    let (r, w1) = write_key_file toy_key_file (codes "my key") (world [] []) in
    (r ≡ ok 0)
    × (w1 ≡ record (world [] []) { host = exported })
    × (unlock_key (codes "my key") w1 ≡ (ok (inr toy_key_file), w1))
unlock_key-write_key_file_example =
    unlock_key-write_key_file toy_key_file (codes "my key") (world [] []) [] exported
      toy_key_file-IsWellFormed (λ e. ground arith) refl refl exported-found

-- A regular file and a symbolic link, as git lists them.
abbrev file_entry : Listed
file_entry = staged (codes "H") (codes "100644") (codes "06ec") (codes "0") (codes "a file")

abbrev link_mode : Bytes
link_mode = codes "120000"

IsWord-digits : IsWord (codes "06ec")
unfolding isspace
IsWord-digits = (λ e. ground arith, (refl, (refl, (refl, (refl, tt)))))

file_entry-IsListed :
    (mode : Bytes)
    → IsWord mode
    → IsListed (staged (codes "H") mode (codes "06ec") (codes "0") (codes "a file"))
unfolding isspace
file_entry-IsListed mode m =
    is_staged (codes "H") mode (codes "06ec") (codes "0") (codes "a file")
      (λ e. ground arith, (refl, tt)) (λ e. ground arith) m IsWord-digits
      (λ e. ground arith, (refl, tt))
      (record {
        no_nul = (refl, (refl, (refl, (refl, (refl, (refl, tt))))));
        not_empty = λ e. ground arith;
        no_space = refl;
      })

IsWord-mode : IsWord (codes "100644")
unfolding isspace
IsWord-mode = (λ e. ground arith, (refl, (refl, (refl, (refl, (refl, (refl, tt)))))))

IsWord-link_mode : IsWord link_mode
unfolding isspace
IsWord-link_mode = (λ e. ground arith, (refl, (refl, (refl, (refl, (refl, (refl, tt)))))))

file_entry-IsFile : IsFile file_entry
unfolding is_git_file_mode
file_entry-IsFile = refl

link_mode-other : is_git_file_mode link_mode ≡ false
unfolding is_git_file_mode
link_mode-other = refl

read_entry-print_entry_example :
    read_entry (print_entry file_entry (codes "? new\n"))
    ≡ (some (seen file_entry), codes "? new\n")
read_entry-print_entry_example =
    read_entry-print_entry file_entry (codes "? new\n")
      (file_entry-IsListed (codes "100644") IsWord-mode) file_entry-IsFile

read_entry_leaves_name_example :
    read_entry
      (print_entry (staged (codes "H") link_mode (codes "06ec") (codes "0") (codes "a file")) [])
    ≡ (none, 9 ∷ (codes "a file" ++ (0 ∷ [])))
read_entry_leaves_name_example =
    read_entry_leaves_name (codes "H") link_mode (codes "06ec") (codes "0") (codes "a file") []
      (file_entry-IsListed link_mode IsWord-link_mode) link_mode-other

-- `-r -e`
abbrev clashing : StatusOptions
clashing = record {
  repo_status_only = true;
  show_encrypted_only = true;
  show_unencrypted_only = false;
  fix_problems = false;
  machine_output = false;
}

abbrev listing : Bytes
listing = print_entry file_entry (codes "? new")

status_loop_ends_example :
    Finishes (status_loop (length listing) listing clashing no_report changed_repository).0
status_loop_ends_example =
    status_loop_ends listing clashing no_report changed_repository toy-Answers

-- A symbolic link whose name has a space, and then a regular file.
abbrev link_first : Bytes
link_first = codes "H 120000 06ec 0\tmy link" ++ (0 ∷ (codes "H 100644 06ed 0\tfile" ++ (0 ∷ [])))

-- The file is not found in the rounds that follow: its mode is read as a tag, and nothing is left.
link_hides_file :
    ((read_entry link_first).0 ≡ none)
    × ((read_entry (read_entry link_first).1).0 ≡ none)
    × (read_entry (read_entry (read_entry link_first).1).1 ≡ (none, []))
unfolding read_entry
link_hides_file = (refl, refl, refl)
