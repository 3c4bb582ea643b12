-- ===== src/Git/EncryptedFiles.antt =====
-- commands.cpp, `get_encrypted_files`: the files that it finds in a listing of git.
use git_crypt.Base.{
  ℕ, zero, suc, ◌≤◌, ◌≡◌, refl, ◌∙◌, inl, inr, Bool, true, false, Option, some, List, [], ◌∷◌, ◌++◌,
  append_assoc, append-nil, Bytes, All, length, All-append, length-append, equal, if◌then◌else◌,
  arith, Bool-cases,
}
use git_crypt.Base.Words.{
  IsWord, IsName, first_char_kept, read_word-append, read_word-space, get_line-append,
}
use git_crypt.Base.Streams.{isspace, get_line, skip_space}
use git_crypt.Base.Results.{ok}
use git_crypt.Host.{Host}
use git_crypt.Exec.{World}
use git_crypt.Git.Config.{attribute_name}
use git_crypt.Git.Attributes.{CheckAttr, is_git_file_mode, encrypted_files_loop}
use git_crypt.Git.Attributes.Fields.{NoNul, equal-said}
use git_crypt.Git.Attributes.Dialogue.{CheckAttrs, dialogue, file_filter-dialogue}

-- An entry of `git ls-files -csz`.
pub record Item : Type 0 where
  pub mode : Bytes
  pub object_id : Bytes
  pub stage : Bytes
  pub filename : Bytes

pub record IsItem (i : Item) : Type 0 where
  pub mode : IsWord i.mode
  pub object_id : IsWord i.object_id
  pub stage : IsWord i.stage
  pub filename : IsName i.filename

-- `mode object stage\tname\0`, in front of the other entries.
abbrev pub print_item : Item → Bytes → Bytes
print_item i rest =
    i.mode ++ (32 ∷ (i.object_id ++ (32 ∷ (i.stage ++ (9 ∷ (i.filename ++ (0 ∷ rest)))))))

abbrev pub listing : List Item → Bytes
listing [] = []
listing (i ∷ items) = print_item i (listing items)

-- The names of the regular files, which are asked about.
abbrev pub asked : List Item → List Bytes
asked [] = []
asked (i ∷ items) = if is_git_file_mode i.mode then i.filename ∷ asked items else asked items

-- The regular files whose filter is that of the key.
abbrev pub chosen : (Bytes → Bytes) → Option Bytes → List Item → List Bytes
chosen filter_of key_name [] = []
chosen filter_of key_name (i ∷ items) =
    let more = chosen filter_of key_name items in
    if is_git_file_mode i.mode
    then (if equal (filter_of i.filename) (attribute_name key_name)
        then i.filename ∷ more
        else more)
    else more

module _ ⦃H : Host⦄ where
  module _ (A : CheckAttrs) where
    -- What a round of the loop reads.
    read_name :
        (sp : ℕ) (filename rest : Bytes)
        → isspace sp ≡ true
        → IsName filename
        → get_line 0 (skip_space (sp ∷ (filename ++ (0 ∷ rest)))) ≡ (filename, rest)
    read_name sp [] rest space n = absurd (n.not_empty refl)
    read_name sp (c ∷ s) rest space n =
        rw (first_char_kept sp c (s ++ (0 ∷ rest)) space n.no_space)
          (get_line-append 0 (c ∷ s) rest n.no_nul)

    -- One round, over an entry of a file that is asked about, and over one that is not.
    loop-file :
        (fuel : ℕ) (mode object_id stage filename rest : Bytes) (key_name : Option Bytes)
        (names files : List Bytes) (w : World)
        → IsWord mode
        → IsWord object_id
        → IsWord stage
        → IsName filename
        → All NoNul names
        → is_git_file_mode mode ≡ true
        → encrypted_files_loop
            (suc fuel)
            (mode ++ (32 ∷ (object_id ++ (32 ∷ (stage ++ (9 ∷ (filename ++ (0 ∷ rest))))))))
            key_name
            (some (dialogue A names))
            files
            w
          ≡ encrypted_files_loop fuel rest key_name
              (some (dialogue A (names ++ (filename ∷ []))))
              (if equal (A.filter_of filename) (attribute_name key_name)
                then files ++ (filename ∷ [])
                else files)
              w
    unfolding encrypted_files_loop isspace
    loop-file fuel [] object_id stage filename rest key_name names files w m o t n before file =
        absurd (m.0 refl)
    loop-file fuel (c ∷ s) object_id stage filename rest key_name names files w m o t n before
          file =
        let after_stage = filename ++ (0 ∷ rest) in
        let after_id = stage ++ (9 ∷ after_stage) in
        rw
          (
            encrypted_files_loop,
            read_word-append (c ∷ s) 32 (object_id ++ (32 ∷ after_id)) m refl,
            file,
            read_word-append (c ∷ s) 32 (object_id ++ (32 ∷ after_id)) m refl,
            read_word-space 32 object_id 32 after_id refl o refl,
            read_word-space 32 stage 9 after_stage refl t refl,
            read_name 9 filename rest refl n,
            file_filter-dialogue A names filename w before n.no_nul,
            equal-said (A.filter_of filename) key_name,
          )
          refl

    loop-other :
        (fuel : ℕ) (mode object_id stage filename rest : Bytes) (key_name : Option Bytes)
        (p : Option CheckAttr) (files : List Bytes) (w : World)
        → IsWord mode
        → IsWord object_id
        → IsWord stage
        → IsName filename
        → is_git_file_mode mode ≡ false
        → encrypted_files_loop
            (suc fuel)
            (mode ++ (32 ∷ (object_id ++ (32 ∷ (stage ++ (9 ∷ (filename ++ (0 ∷ rest))))))))
            key_name
            p
            files
            w
          ≡ encrypted_files_loop fuel rest key_name p files w
    unfolding encrypted_files_loop isspace
    loop-other fuel [] object_id stage filename rest key_name p files w m o t n other =
        absurd (m.0 refl)
    loop-other fuel (c ∷ s) object_id stage filename rest key_name p files w m o t n other =
        let after_stage = filename ++ (0 ∷ rest) in
        let after_id = stage ++ (9 ∷ after_stage) in
        rw
          (
            encrypted_files_loop,
            read_word-append (c ∷ s) 32 (object_id ++ (32 ∷ after_id)) m refl,
            other,
            read_word-append (c ∷ s) 32 (object_id ++ (32 ∷ after_id)) m refl,
            read_word-space 32 object_id 32 after_id refl o refl,
            read_word-space 32 stage 9 after_stage refl t refl,
            read_name 9 filename rest refl n,
          )
          refl

    -- Each round adds the file to those found, or does not.
    add_chosen :
        (b : Bool) (files : List Bytes) (filename : Bytes) (more : List Bytes)
        → (if b then files ++ (filename ∷ []) else files) ++ more
          ≡ files ++ (if b then filename ∷ more else more)
    add_chosen true files filename more = append_assoc files (filename ∷ []) more
    add_chosen false files filename more = refl

    loop-listing :
        (fuel : ℕ) (items : List Item) (key_name : Option Bytes) (names files : List Bytes)
        (w : World)
        → All IsItem items
        → All NoNul names
        → length items ≤ fuel
        → encrypted_files_loop fuel (listing items) key_name (some (dialogue A names)) files w ≡ (
          ok (files ++ chosen A.filter_of key_name items, some (dialogue A (names ++ asked items))),
          w,
        )
    loop-listing fuel [] key_name names files w l before enough =
        unfold encrypted_files_loop in rw (append-nil files, append-nil names) refl
    loop-listing zero (i ∷ items) key_name names files w l before enough = absurd (omega arith)
    loop-listing (suc fuel) (i ∷ items) key_name names files w (l, ls) before enough =
        elim (Bool-cases (is_git_file_mode i.mode)) [
          | inl file ↦
              let here = equal (A.filter_of i.filename) (attribute_name key_name) in
              let more = chosen A.filter_of key_name items in
              let files1 = if here then files ++ (i.filename ∷ []) else files in
              let e =
                loop-file fuel i.mode i.object_id i.stage i.filename (listing items) key_name names
                  files w l.mode l.object_id l.stage l.filename before file in
              let ih =
                loop-listing fuel items key_name (names ++ (i.filename ∷ [])) files1 w ls
                  (All-append NoNul names (i.filename ∷ []) before (l.filename.no_nul, tt))
                  (omega (arith, enough)) in
              e
              ∙ ih
              ∙ rw
                  (
                    file,
                    add_chosen here files i.filename more,
                    append_assoc names (i.filename ∷ []) (asked items),
                  )
                  refl
          | inr other ↦
              loop-other fuel i.mode i.object_id i.stage i.filename (listing items) key_name
                (some (dialogue A names)) files w l.mode l.object_id l.stage l.filename other
              ∙ loop-listing fuel items key_name names files w ls before (omega (arith, enough))
              ∙ rw other refl
        ]

    length-listing : (items : List Item) → length items ≤ length (listing items)
    length-listing [] = omega arith
    length-listing (i ∷ items) =
        let after_stage = i.filename ++ (0 ∷ listing items) in
        let after_id = i.stage ++ (9 ∷ after_stage) in
        let after_mode = i.object_id ++ (32 ∷ after_id) in
        omega (
          arith,
          length-append i.mode (32 ∷ after_mode),
          length-append i.object_id (32 ∷ after_id),
          length-append i.stage (9 ∷ after_stage),
          length-append i.filename (0 ∷ listing items),
          length-listing items,
        )

    -- From the start of the dialogue, with the fuel that `get_encrypted_files` gives.
    pub encrypted_files_loop-listing :
        (items : List Item) (key_name : Option Bytes) (files : List Bytes) (w : World)
        → All IsItem items
        → encrypted_files_loop
            (length (listing items))
            (listing items)
            key_name
            (some (record { given = []; position = 0 }))
            files
            w
          ≡ (ok (files ++ chosen A.filter_of key_name items, some (dialogue A (asked items))), w)
    encrypted_files_loop-listing items key_name files w l =
        loop-listing (length (listing items)) items key_name [] files w l tt (length-listing items)
