-- ===== src/Git/Attributes/Fields.antt =====
-- commands.cpp, `get_file_attributes`: the fields that `git check-attr -z` writes.
use git_crypt.Base.{
  ℕ, ◌≡◌, refl, sym, ap, ◌∙◌, inl, inr, Bool, true, false, ◌||◌, Option, some, none, List, [], ◌∷◌,
  ◌++◌, append_assoc, append-nil, Bytes, codes, All, equal, equal_iff, if◌then◌else◌, ◌==◌,
  Bool-cases,
}
use git_crypt.Base.Words.{get_line-append}
use git_crypt.Git.Config.{attribute_name}
use git_crypt.Git.Attributes.{Attributes, set_attribute, field_attributes}

abbrev pub NoNul : Bytes → Type 0
NoNul s = All (λ c. (c == 0) ≡ false) s

-- What is written for these names, one after another.
abbrev pub gather : (Bytes → Bytes) → List Bytes → Bytes
gather write [] = []
gather write (filename ∷ rest) = write filename ++ gather write rest

pub gather-append :
    (write : Bytes → Bytes) (names : List Bytes) (filename : Bytes)
    → gather write (names ++ (filename ∷ [])) ≡ gather write names ++ write filename
gather-append write [] filename = append-nil (write filename)
gather-append write (other ∷ names) filename =
    ap (◌++◌ (write other)) (gather-append write names filename)
    ∙ sym (append_assoc (write other) (gather write names) (write filename))

abbrev pub question : Bytes → Bytes
question filename = filename ++ (0 ∷ [])

-- The three fields of one attribute of a file, in front of what follows.
abbrev pub field : Bytes → Bytes → Bytes → Bytes → Bytes
field filename attr_name attr_value rest =
    filename ++ (0 ∷ (attr_name ++ (0 ∷ (attr_value ++ (0 ∷ rest)))))

-- What stands for no value of its own.
abbrev pub is_unset : Bytes → Bool
is_unset attr_value =
    equal attr_value (codes "unspecified")
    || equal attr_value (codes "unset")
    || equal attr_value (codes "set")

abbrev pub said : Bytes → Bytes
said attr_value = if is_unset attr_value then [] else attr_value

pub field_attributes-field :
    (filename attr_name attr_value rest : Bytes) (found : Attributes)
    → NoNul filename
    → NoNul attr_name
    → NoNul attr_value
    → field_attributes (field filename attr_name attr_value rest) found
      ≡ (set_attribute attr_name attr_value found, rest)
unfolding field_attributes
field_attributes-field filename attr_name attr_value rest found f n v =
    rw
      (
        get_line-append 0 filename (attr_name ++ (0 ∷ (attr_value ++ (0 ∷ rest)))) f,
        get_line-append 0 attr_name (attr_value ++ (0 ∷ rest)) n,
        get_line-append 0 attr_value rest v,
      )
      refl

pub set_attribute-filter :
    (attr_value diff : Bytes)
    → set_attribute (codes "filter") attr_value ([], diff) ≡ (said attr_value, diff)
unfolding set_attribute
set_attribute-filter attr_value diff = elim (Bool-cases (is_unset attr_value)) [
  | inl unset ↦ rw unset refl
  | inr set ↦ rw set refl
]

pub set_attribute-diff :
    (filter attr_value : Bytes)
    → set_attribute (codes "diff") attr_value (filter, []) ≡ (filter, said attr_value)
unfolding set_attribute
set_attribute-diff filter attr_value = elim (Bool-cases (is_unset attr_value)) [
  | inl unset ↦ rw unset refl
  | inr set ↦ rw set refl
]

-- The filter of a key begins with a 'g'.
not_named :
    (c : ℕ) (s : Bytes) (key_name : Option Bytes)
    → (c == b'g') ≡ false
    → equal (c ∷ s) (attribute_name key_name) ≡ false
unfolding attribute_name
not_named c s none h = rw h refl
not_named c s (some key_name) h = rw h refl

nothing_named : (key_name : Option Bytes) → equal [] (attribute_name key_name) ≡ false
unfolding attribute_name
nothing_named none = refl
nothing_named (some key_name) = refl

-- The filter of a key is none of these values.
filter-literal :
    (v : Bytes) (key_name : Option Bytes)
    → equal v (attribute_name key_name) ≡ false
    → (value : Bytes) → equal value v ≡ true
    → equal value (attribute_name key_name) ≡ false
filter-literal v key_name other value e = rw ((equal_iff value v).0 e) other

not_filter :
    (value : Bytes) (key_name : Option Bytes)
    → is_unset value ≡ true
    → equal value (attribute_name key_name) ≡ false
not_filter value key_name h = elim (Bool-cases (equal value (codes "unspecified"))) [
  | inl e ↦
      filter-literal (codes "unspecified") key_name
        (not_named b'u' (codes "nspecified") key_name refl) value e
  | inr a ↦ elim (Bool-cases (equal value (codes "unset"))) [
    | inl e ↦
        filter-literal (codes "unset") key_name (not_named b'u' (codes "nset") key_name refl) value
          e
    | inr b ↦
        filter-literal (codes "set") key_name (not_named b's' (codes "et") key_name refl) value
          (rw (a, b) at h)
  ]
]

-- A value that stands for none is not the filter of git-crypt.
pub equal-said :
    (attr_value : Bytes) (key_name : Option Bytes)
    → equal (said attr_value) (attribute_name key_name) ≡ equal attr_value (attribute_name key_name)
equal-said attr_value key_name = elim (Bool-cases (is_unset attr_value)) [
  | inl unset ↦ rw (unset, not_filter attr_value key_name unset) (nothing_named key_name)
  | inr set ↦ rw set refl
]
