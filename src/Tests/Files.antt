-- ===== src/Tests/Files.antt =====
-- `get_encrypted_files` with a `git check-attr` that answers.
use git_crypt.Base.{
  ◌≡◌, refl, ap, ◌∙◌, inl, inr, none, List, [], ◌∷◌, ◌++◌, Bytes, codes, All, equal, ◌==◌,
  if◌then◌else◌, Bool-cases, arith,
}
use git_crypt.Base.Results.{ok}
use git_crypt.Base.Streams.{first_char, isspace}
use git_crypt.Base.Words.{IsWord, IsName}
use git_crypt.Host.{Host}
use git_crypt.Exec.{World}
use git_crypt.Git.Attributes.{is_git_file_mode}
use git_crypt.Git.Config.{attribute_name}
use git_crypt.Git.Attributes.Fields.{NoNul, gather, question}
use git_crypt.Git.Attributes.Dialogue.{answer, CheckAttrs}
use git_crypt.Git.Paths.{get_path_to_top}
use git_crypt.Exec.Process.{exec_command_output}
use git_crypt.Exec.System.{successful_exit}
use git_crypt.Git.Config.{make_version, git_version, parse_version, version_less}
use git_crypt.Git.Attributes.{get_encrypted_files}
use git_crypt.Git.FoundFiles.{Runs, get_encrypted_files-listing}
use git_crypt.Git.EncryptedFiles.{Item, IsItem, listing}
use git_crypt.Tests.Toy.{toy_host}

-- The names between NULs.
names_of : Bytes → List Bytes
unfolding first_char
names_of [] = []
names_of (c ∷ s) = let rest = names_of s in if c == 0 then [] ∷ rest else first_char c rest

names_of-question :
    (s rest : Bytes) → NoNul s → names_of ((s ++ (0 ∷ [])) ++ rest) ≡ s ∷ names_of rest
unfolding names_of first_char
names_of-question [] rest h = refl
names_of-question (c ∷ s) rest (p, h) = rw (p, names_of-question s rest h) refl

names_of-gather : (names : List Bytes) → All NoNul names → names_of (gather question names) ≡ names
names_of-gather [] h = unfold names_of in refl
names_of-gather (s ∷ names) (p, h) =
    names_of-question s (gather question names) p ∙ ap (◌∷◌ s) (names_of-gather names h)

-- One file is encrypted.
abbrev filter_of : Bytes → Bytes
filter_of f = if equal f (codes "secret") then codes "git-crypt" else codes "unspecified"

abbrev diff_of : Bytes → Bytes
diff_of f = codes "unspecified"

filter_of-NoNul : (f : Bytes) → NoNul (filter_of f)
filter_of-NoNul f = elim (Bool-cases (equal f (codes "secret"))) [
  | inl e ↦ rw e (refl, (refl, (refl, (refl, (refl, (refl, (refl, (refl, (refl, tt)))))))))
  | inr e ↦
      rw e
        (refl, (refl, (refl, (refl, (refl, (refl, (refl, (refl, (refl, (refl, (refl, tt)))))))))))
]

abbrev entry : Bytes → Bytes → Item
entry mode filename = record {
  mode = mode;
  object_id = codes "e6";
  stage = codes "0";
  filename = filename;
}

-- A file that is encrypted, one that is not, and a symbolic link.
abbrev items : List Item
items =
    entry (codes "100644") (codes "secret")
    ∷ (entry (codes "100755") (codes "run me") ∷ (entry (codes "120000") (codes "link") ∷ []))

abbrev reply : List Bytes → Bytes
reply [] = []
reply (git ∷ []) = []
reply (git ∷ (command ∷ args)) =
    if equal command (codes "ls-files")
    then listing items
    else if equal command (codes "version")
    then codes "git version 2.39.2\n"
    else codes "\n"

abbrev answering_host : Host
answering_host = record toy_host {
  run = λ args input files. (ok (0, reply args), files);
  respond = λ args input files. gather (answer filter_of diff_of) (names_of input);
}

answering-CheckAttrs : CheckAttrs ⦃H = answering_host⦄
answering-CheckAttrs = record {
  filter_of = filter_of;
  diff_of = diff_of;
  no_nul = λ f. (
    filter_of-NoNul f,
    (refl, (refl, (refl, (refl, (refl, (refl, (refl, (refl, (refl, (refl, (refl, tt))))))))))),
  );
  responds = λ names h n. ap (gather (answer filter_of diff_of)) (names_of-gather names n);
}

abbrev here : World ⦃H = answering_host⦄
here = record { host = []; cin = []; cout = []; clog = []; argv0 = [] }

entry-IsItem :
    (mode filename : Bytes) → IsWord mode → IsName filename → IsItem (entry mode filename)
unfolding isspace
entry-IsItem mode filename m n = record {
  mode = m;
  object_id = (λ e. ground arith, (refl, (refl, tt)));
  stage = (λ e. ground arith, (refl, tt));
  filename = n;
}

items-IsItem : All IsItem items
unfolding isspace
items-IsItem = (
  entry-IsItem (codes "100644") (codes "secret")
      (λ e. ground arith, (refl, (refl, (refl, (refl, (refl, (refl, tt)))))))
      (record {
        no_nul = (refl, (refl, (refl, (refl, (refl, (refl, tt))))));
        not_empty = λ e. ground arith;
        no_space = refl;
      }),
  (
    entry-IsItem (codes "100755") (codes "run me")
        (λ e. ground arith, (refl, (refl, (refl, (refl, (refl, (refl, tt)))))))
        (record {
          no_nul = (refl, (refl, (refl, (refl, (refl, (refl, tt))))));
          not_empty = λ e. ground arith;
          no_space = refl;
        }),
    (
      entry-IsItem (codes "120000") (codes "link")
          (λ e. ground arith, (refl, (refl, (refl, (refl, (refl, (refl, tt)))))))
          (record {
            no_nul = (refl, (refl, (refl, (refl, tt))));
            not_empty = λ e. ground arith;
            no_space = refl;
          }),
      tt,
    ),
  ),
)

here-Runs : Runs ⦃H = answering_host⦄ items here
unfolding get_path_to_top exec_command_output successful_exit git_version parse_version version_less
here-Runs = record {
  top = [];
  version = make_version 2 39 2;
  finds_top = refl;
  lists = refl;
  has_version = refl;
  is_new = refl;
  finishes = refl;
}

get_encrypted_files-listing_example :
    get_encrypted_files ⦃H = answering_host⦄ [] none here ≡ (ok (codes "secret" ∷ []), here)
unfolding is_git_file_mode answering-CheckAttrs attribute_name
get_encrypted_files-listing_example =
    get_encrypted_files-listing ⦃H = answering_host⦄ answering-CheckAttrs items none [] here
      items-IsItem here-Runs
