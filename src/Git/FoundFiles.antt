-- ===== src/Git/FoundFiles.antt =====
-- commands.cpp, `get_encrypted_files`: the whole of it, with the runs of git around its loop.
use git_crypt.Base.{
  ◌≡◌, refl, false, Option, List, [], ◌∷◌, ◌++◌, Bytes, codes, All, is_nil, if◌then◌else◌,
}
use git_crypt.Base.Results.{ok}
use git_crypt.Base.Int.{ℤ}
use git_crypt.Host.{Host}
use git_crypt.Exec.{World}
use git_crypt.Exec.Process.{exec_command_output}
use git_crypt.Exec.System.{successful_exit}
use git_crypt.Git.Paths.{get_path_to_top}
use git_crypt.Git.Config.{git_version, version_less, make_version}
use git_crypt.Git.Attributes.{get_encrypted_files, check_attr_command}
use git_crypt.Git.Attributes.Fields.{gather, question}
use git_crypt.Git.Attributes.Dialogue.{CheckAttrs}
use git_crypt.Git.EncryptedFiles.{
  Item, IsItem, listing, asked, chosen, encrypted_files_loop-listing,
}

module _ ⦃H : Host⦄ where
  -- The runs of git around the loop.
  pub record Runs (items : List Item) (w : World) : Type 0 where
    pub top : Bytes
    pub version : List ℤ
    pub finds_top : get_path_to_top w ≡ (ok top, w)
    pub lists :
        exec_command_output
          (codes "git"
            ∷ (codes "ls-files"
                ∷ (codes "-csz" ∷ (codes "--" ∷ (if is_nil top then [] else top ∷ [])))))
          w
        ≡ (ok (0, listing items), w)
    pub has_version : git_version w ≡ (ok version, w)
    pub is_new : version_less version (make_version 1 8 5) ≡ false
    pub finishes :
        H.finish check_attr_command (gather question (asked items)) w.host ≡ (ok 0, w.host)

  -- Where git is version 1.8.5 or later, its runs succeed and change nothing, its listing is that
  -- of some entries, and `git check-attr` writes for each name that it is given the two
  -- attributes of that file, `get_encrypted_files` returns, asks about the regular files only,
  -- and adds to the files it was given exactly those whose filter attribute is that of the key,
  -- in the order of the listing. The mode, object ID and stage are words, and a name holds no
  -- NUL, is not empty and does not begin with white space.
  pub get_encrypted_files-listing :
      (A : CheckAttrs) (items : List Item) (key_name : Option Bytes) (files : List Bytes)
      (w : World)
      → All IsItem items
      → Runs items w
      → get_encrypted_files files key_name w ≡ (ok (files ++ chosen A.filter_of key_name items), w)
  unfolding get_encrypted_files successful_exit
  get_encrypted_files-listing A items key_name files w l r =
      rw
        (
          r.finds_top,
          r.lists,
          r.has_version,
          r.is_new,
          encrypted_files_loop-listing A items key_name files w l,
          r.finishes,
        )
        refl
