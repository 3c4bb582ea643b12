-- ===== src/Commands/Entries.antt =====
-- commands.cpp, `status`: what it reads of the listing of git.
use git_crypt.Base.{
  equal-false, ℕ, ◌≡◌, refl, ◌∙◌, ◌≢◌, true, false, none, some, [], ◌∷◌, ◌++◌, Bytes, codes,
  if◌then◌else◌,
}
use git_crypt.Base.Words.{
  IsWord, IsName, first_char_kept, read_word-append, read_word-space, get_line-append,
}
use git_crypt.Base.Streams.{isspace}
use git_crypt.Git.Attributes.{is_git_file_mode}
use git_crypt.Commands.Listing.{read_entry, read_staged, read_filename}

-- A listing in which every file is seen: untracked names, and entries of the index.
pub data Listed : Type 0 where
  untracked : Bytes → Listed
  staged : Bytes → Bytes → Bytes → Bytes → Bytes → Listed

-- How `git ls-files -cotsz` prints one entry in front of the others: `tag name\0`, or
-- `tag mode object stage\tname\0`.
pub print_entry : Listed → Bytes → Bytes
print_entry (untracked filename) rest = codes "? " ++ (filename ++ (0 ∷ rest))
print_entry (staged tag mode object_id stage filename) rest =
    tag ++ (32 ∷ (mode ++ (32 ∷ (object_id ++ (32 ∷ (stage ++ (9 ∷ (filename ++ (0 ∷ rest)))))))))

pub data IsListed : Listed → Type 0 where
  is_untracked : (filename : Bytes) → IsName filename → IsListed (untracked filename)
  is_staged :
      (tag mode object_id stage filename : Bytes)
      → IsWord tag
      → tag ≢ codes "?"
      → IsWord mode
      → IsWord object_id
      → IsWord stage
      → IsName filename
      → IsListed (staged tag mode object_id stage filename)

read_filename-append :
    (object_id : Bytes) (sp : ℕ) (filename rest : Bytes)
    → isspace sp ≡ true
    → IsName filename
    → read_filename object_id (sp ∷ (filename ++ (0 ∷ rest))) ≡ (some (object_id, filename), rest)
unfolding read_filename
read_filename-append object_id sp [] rest space n = absurd (n.not_empty refl)
read_filename-append object_id sp (c ∷ s) rest space n =
    rw
      (
        first_char_kept sp c (s ++ (0 ∷ rest)) space n.no_space,
        get_line-append 0 (c ∷ s) rest n.no_nul,
      )
      refl

-- What the loop should see of an entry: its object ID, where it has one, and its name.
pub seen : Listed → Bytes × Bytes
seen (untracked filename) = ([], filename)
seen (staged tag mode object_id stage filename) = (object_id, filename)

-- The entry is of a regular file, as far as the listing says.
abbrev pub IsFile : Listed → Type 0
IsFile (untracked filename) = Unit
IsFile (staged tag mode object_id stage filename) = is_git_file_mode mode ≡ true

read_staged_lem :
    (tag mode object_id stage filename rest : Bytes)
    → IsListed (staged tag mode object_id stage filename)
    → read_staged
        (32 ∷ (mode ++ (32 ∷ (object_id ++ (32 ∷ (stage ++ (9 ∷ (filename ++ (0 ∷ rest)))))))))
      ≡ (if is_git_file_mode mode
          then (some (object_id, filename), rest)
          else (none, 9 ∷ (filename ++ (0 ∷ rest))))
unfolding read_staged isspace
read_staged_lem tag mode object_id stage filename rest (is_staged _ _ _ _ _ t ne m o s n) =
    rw
      (
        read_word-space 32 mode 32 (object_id ++ (32 ∷ (stage ++ (9 ∷ (filename ++ (0 ∷ rest))))))
            refl m refl,
        read_word-space 32 object_id 32 (stage ++ (9 ∷ (filename ++ (0 ∷ rest)))) refl o refl,
        read_word-space 32 stage 9 (filename ++ (0 ∷ rest)) refl s refl,
        read_filename-append object_id 9 filename rest refl n,
      )
      refl

read_entry-staged :
    (tag mode object_id stage filename rest : Bytes)
    → IsListed (staged tag mode object_id stage filename)
    → read_entry (print_entry (staged tag mode object_id stage filename) rest) ≡ (
        if is_git_file_mode mode
        then (some (object_id, filename), rest)
        else (none, 9 ∷ (filename ++ (0 ∷ rest))))
unfolding read_entry print_entry isspace
read_entry-staged tag mode object_id stage filename rest (is_staged _ _ _ _ _ t ne m o s n) =
    rw
      (
        read_word-append tag 32
            (mode ++ (32 ∷ (object_id ++ (32 ∷ (stage ++ (9 ∷ (filename ++ (0 ∷ rest)))))))) t refl,
        equal-false tag (codes "?") ne,
      )
      (read_staged_lem tag mode object_id stage filename rest (is_staged _ _ _ _ _ t ne m o s n))

-- One round of the loop of `status` reads one entry of a listing that git printed, of an
-- untracked file or of a regular file in the index, as its object ID and its name, and leaves the
-- listing that follows it; the words are not empty and hold no white space, and the name holds no
-- NUL, is not empty and does not begin with white space.
pub read_entry-print_entry :
    (e : Listed) (rest : Bytes)
    → IsListed e
    → IsFile e
    → read_entry (print_entry e rest) ≡ (some (seen e), rest)
unfolding seen
read_entry-print_entry (untracked filename) rest (is_untracked _ n) file =
    unfold read_entry print_entry isspace in read_filename-append [] 32 filename rest refl n
read_entry-print_entry (staged tag mode object_id stage filename) rest l file =
    read_entry-staged tag mode object_id stage filename rest l ∙ rw file refl

-- Under the same conditions on the words and the name, where the mode is not that of a regular
-- file, the name of the entry stays in the listing, in front of the next entry.
pub read_entry_leaves_name :
    (tag mode object_id stage filename rest : Bytes)
    → IsListed (staged tag mode object_id stage filename)
    → is_git_file_mode mode ≡ false
    → read_entry (print_entry (staged tag mode object_id stage filename) rest)
      ≡ (none, 9 ∷ (filename ++ (0 ∷ rest)))
read_entry_leaves_name tag mode object_id stage filename rest l link =
    read_entry-staged tag mode object_id stage filename rest l ∙ rw link refl
