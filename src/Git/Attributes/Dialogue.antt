-- ===== src/Git/Attributes/Dialogue.antt =====
-- commands.cpp, `get_file_attributes`: the dialogue with one `git check-attr` for all files.
use git_crypt.Base.{
  ◌+◌, ◌-◌, ◌≡◌, refl, ap, ◌∙◌, some, List, [], ◌∷◌, ◌++◌, Bytes, codes, All, length, drop-append,
  All-append, length-append, arith,
}
use git_crypt.Base.Results.{ok}
use git_crypt.Host.{Host}
use git_crypt.Exec.{World}
use git_crypt.Git.Attributes.{
  Attributes, field_attributes, CheckAttr, check_attr_command, ask_file_attributes, file_filter,
}
use git_crypt.Git.Attributes.Fields.{
  NoNul, gather, gather-append, question, field, said, field_attributes-field, set_attribute-filter,
  set_attribute-diff,
}

-- The two attributes of a file.
abbrev pub answer : (Bytes → Bytes) → (Bytes → Bytes) → Bytes → Bytes
answer filter_of diff_of f =
    field f (codes "filter") (filter_of f) (field f (codes "diff") (diff_of f) [])

module _ ⦃H : Host⦄ where
  -- Documented behaviour of `git check-attr --stdin -z filter diff`: for each name that it was given,
  -- it has written the two attributes of that file.
  pub record CheckAttrs : Type 0 where
    pub filter_of : Bytes → Bytes
    pub diff_of : Bytes → Bytes
    pub no_nul : (filename : Bytes) → NoNul (filter_of filename) × NoNul (diff_of filename)
    pub responds :
        (names : List Bytes) (h : H.State)
        → All NoNul names
        → H.respond check_attr_command (gather question names) h
          ≡ gather (answer filter_of diff_of) names

  module _ (A : CheckAttrs) where
    -- The dialogue once these names were asked about and all of the answers were read.
    abbrev pub dialogue : List Bytes → CheckAttr
    dialogue names = record {
      given = gather question names;
      position = length (gather (answer A.filter_of A.diff_of) names);
    }

    field_attributes-answer :
        (f : Bytes)
        → NoNul f
        → (field_attributes (answer A.filter_of A.diff_of f) ([], [])
            ≡ ((said (A.filter_of f), []), field f (codes "diff") (A.diff_of f) []))
          × (field_attributes (field f (codes "diff") (A.diff_of f) []) (said (A.filter_of f), [])
              ≡ ((said (A.filter_of f), said (A.diff_of f)), []))
    field_attributes-answer f n =
        let rest = field f (codes "diff") (A.diff_of f) [] in
        let (filter, diff) = A.no_nul f in
        (
          field_attributes-field f (codes "filter") (A.filter_of f) rest ([], []) n
                (refl, (refl, (refl, (refl, (refl, (refl, tt)))))) filter
              ∙ ap (λ (a : Attributes). (a, rest)) (set_attribute-filter (A.filter_of f) []),
          field_attributes-field f (codes "diff") (A.diff_of f) [] (said (A.filter_of f), []) n
                (refl, (refl, (refl, (refl, tt)))) diff
              ∙ ap (λ (a : Attributes). (a, []))
                  (set_attribute-diff (said (A.filter_of f)) (A.diff_of f)),
        )

    pub ask_file_attributes-dialogue :
        (names : List Bytes) (f : Bytes) (w : World)
        → All NoNul names
        → NoNul f
        → ask_file_attributes f (dialogue names) w
          ≡ (ok ((said (A.filter_of f), said (A.diff_of f)), dialogue (names ++ (f ∷ []))), w)
    unfolding ask_file_attributes
    ask_file_attributes-dialogue names f w before n =
        let write = answer A.filter_of A.diff_of in
        let (filter, diff) = field_attributes-answer f n in
        rw
          (
            ← gather-append question names f,
            A.responds (names ++ (f ∷ [])) w.host (All-append NoNul names (f ∷ []) before (n, tt)),
            gather-append write names f,
            drop-append (length (gather write names)) (gather write names) (write f) refl,
            filter,
            diff,
          )
          (let e : length (gather write names) + (length (write f) - 0)
                ≡ length (gather write names ++ write f) =
              omega (arith, length-append (gather write names) (write f)) in
            rw e refl)

    pub file_filter-dialogue :
        (names : List Bytes) (f : Bytes) (w : World)
        → All NoNul names
        → NoNul f
        → file_filter (some (dialogue names)) f w
          ≡ (ok (said (A.filter_of f), some (dialogue (names ++ (f ∷ [])))), w)
    unfolding file_filter
    file_filter-dialogue names f w before n =
        rw (ask_file_attributes-dialogue names f w before n) refl
