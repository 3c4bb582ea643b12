-- ===== src/Windows/Protected.antt =====
-- util-win32.cpp, `create_protected_file`: a key file is made under an owner-only list or not at all.
use git_crypt.Base.{
  ℕ, ◌^◌, ◌≡◌, refl, ◌∙◌, ◌⊎◌, inl, inr, Bool, true, Bool-cases, Option, none, some, List, [], ◌∷◌,
  Bytes,
}
use git_crypt.Base.Results.{Result, ok, err, stuck}
use git_crypt.Windows.Win32.{Win32, ExplicitAccess}
use git_crypt.Windows.System.{
  OwnerOnly, owner_only, for_user, with_dacl, initialized, attached, protected, explicit_access,
  token_user_of, attributes, protected_handle, create_protected_file,
}

-- Documented behaviour of Windows: a list has the entries that it was made of; a descriptor has no
-- list and is not protected at first, and then what is set; a file that CreateFile makes has the
-- descriptor that it was given, one that was there keeps its own, and closing a handle leaves both.
pub record Security (W : Win32) : Type 0 where
  pub entries : W.Acl → List ExplicitAccess
  pub list_of : W.Descriptor → Option W.Acl
  pub is_protected : W.Descriptor → Bool
  pub descriptor_of : Bytes → W.State → Option W.Descriptor
  pub makes_list :
      (access : ExplicitAccess) (h : W.State) (l : W.Acl)
      → W.set_entries_in_acl access h ≡ some l
      → entries l ≡ access ∷ []
  pub sets_list :
      (d d1 : W.Descriptor) (l : W.Acl) (h : W.State)
      → W.set_descriptor_dacl d l h ≡ some d1
      → list_of d1 ≡ some l
  pub protects :
      (d d1 : W.Descriptor) (h : W.State)
      → W.set_descriptor_control d h ≡ some d1
      → (list_of d1 ≡ list_of d) × (is_protected d1 ≡ true)
  pub creates :
      (path : Bytes) (d : W.Descriptor) (h h1 : W.State) (fh : W.Handle)
      → descriptor_of path h ≡ none
      → W.open_always path (some d) h ≡ (inr fh, h1)
      → descriptor_of path h1 ≡ some d
  pub keeps :
      (path : Bytes) (d old : W.Descriptor) (h h1 : W.State) (fh : W.Handle)
      → descriptor_of path h ≡ some old
      → W.open_always path (some d) h ≡ (inr fh, h1)
      → descriptor_of path h1 ≡ some old
  pub closes :
      (path : Bytes) (fh : W.Handle) (h : W.State)
      → descriptor_of path (W.close_handle fh h) ≡ descriptor_of path h

module _ (W : Win32) (S : Security W) (last_error : ℕ) (path : Bytes) (h : W.State) where
  -- The descriptor lets this user do everything and nobody else anything, and takes no entries from
  -- the directory: GENERIC_ALL, SET_ACCESS and NO_INHERITANCE as Windows numbers them.
  pub record IsOwnerOnly (user_sid : Bytes) (d : W.Descriptor) : Type 0 where
    pub is_protected : S.is_protected d ≡ true
    pub list : W.Acl
    pub has_list : S.list_of d ≡ some list
    pub entries :
        S.entries list
        ≡ record { permissions = 2 ^ 28; mode = 2; inheritance = 0; trustee = user_sid } ∷ []

  -- The attributes carry such a descriptor for the user of the token.
  abbrev IsLocked : OwnerOnly W → Type 0
  IsLocked security =
      (user_sid : Bytes) × (d : W.Descriptor) × (token_user_of W h ≡ some user_sid)
      × (attributes W security ≡ some d)
      × IsOwnerOnly user_sid d

  protected-IsLocked :
      (user_sid : Bytes) (l : W.Acl) (d1 : W.Descriptor) (r : Option W.Descriptor)
      → token_user_of W h ≡ some user_sid
      → S.entries l ≡ explicit_access W user_sid ∷ []
      → S.list_of d1 ≡ some l
      → W.set_descriptor_control d1 h ≡ r
      → (protected W l r).good ≡ true
      → IsLocked (protected W l r)
  unfolding attributes
  protected-IsLocked user_sid l d1 none t e a p good = cc
  protected-IsLocked user_sid l d1 (some d2) t e a p good =
      let (kept, locked) = S.protects d1 d2 h p in
      (
        user_sid,
        d2,
        t,
        refl,
        record { is_protected = locked; list = l; has_list = kept ∙ a; entries = e },
      )

  attached-IsLocked :
      (user_sid : Bytes) (l : W.Acl) (d : W.Descriptor) (r : Option W.Descriptor)
      → token_user_of W h ≡ some user_sid
      → S.entries l ≡ explicit_access W user_sid ∷ []
      → W.set_descriptor_dacl d l h ≡ r
      → (attached W l r h).good ≡ true
      → IsLocked (attached W l r h)
  attached-IsLocked user_sid l d none t e a good = cc
  attached-IsLocked user_sid l d (some d1) t e a good =
      protected-IsLocked user_sid l d1 (W.set_descriptor_control d1 h) t e (S.sets_list d d1 l h a)
        refl good

  initialized-IsLocked :
      (user_sid : Bytes) (l : W.Acl) (r : Option W.Descriptor)
      → token_user_of W h ≡ some user_sid
      → S.entries l ≡ explicit_access W user_sid ∷ []
      → (initialized W l r h).good ≡ true
      → IsLocked (initialized W l r h)
  initialized-IsLocked user_sid l none t e good = cc
  initialized-IsLocked user_sid l (some d) t e good =
      attached-IsLocked user_sid l d (W.set_descriptor_dacl d l h) t e refl good

  with_dacl-IsLocked :
      (user_sid : Bytes) (r : Option W.Acl)
      → token_user_of W h ≡ some user_sid
      → W.set_entries_in_acl (explicit_access W user_sid) h ≡ r
      → (with_dacl W r h).good ≡ true
      → IsLocked (with_dacl W r h)
  with_dacl-IsLocked user_sid none t e good = cc
  with_dacl-IsLocked user_sid (some l) t e good =
      initialized-IsLocked user_sid l (W.initialize_descriptor h) t
        (S.makes_list (explicit_access W user_sid) h l e) good

  for_user-IsLocked :
      (user : Option Bytes)
      → token_user_of W h ≡ user
      → (for_user W user h).good ≡ true
      → IsLocked (for_user W user h)
  for_user-IsLocked none t good = cc
  for_user-IsLocked (some user_sid) t good =
      with_dacl-IsLocked user_sid (W.set_entries_in_acl (explicit_access W user_sid) h) t refl good

  owner_only-IsLocked : (owner_only W h).good ≡ true → IsLocked (owner_only W h)
  unfolding owner_only
  owner_only-IsLocked good = for_user-IsLocked (token_user_of W h) refl good

  -- What is known of the file once it could be created or opened: it was there with this descriptor
  -- and has it still, or it was not and is for the user of the token only.
  abbrev pub FileIs : Option W.Descriptor → W.State → Type 0
  FileIs (some old) h1 = S.descriptor_of path h1 ≡ some old
  FileIs none h1 =
      (user_sid : Bytes) × (d : W.Descriptor) × (token_user_of W h ≡ some user_sid)
      × (S.descriptor_of path h1 ≡ some d)
      × IsOwnerOnly user_sid d

  -- Where it throws, no call was made that changes the system, or CreateFile failed.
  abbrev pub Protected : Option W.Descriptor → Result (Unit {0}) × W.State → Type 0
  Protected before (ok done, h1) = FileIs before h1
  Protected before (err e, h1) =
      (h1 ≡ h)
      ⊎ ((user_sid : Bytes) × (d : W.Descriptor) × (code : ℕ) × (token_user_of W h ≡ some user_sid)
          × IsOwnerOnly user_sid d
          × (W.open_always path (some d) h ≡ (inl code, h1)))
  Protected before (stuck, h1) = ⊥

  protected_handle-Protected :
      (user_sid : Bytes) (d : W.Descriptor) (before : Option W.Descriptor)
      (r : (ℕ ⊎ W.Handle) × W.State)
      → token_user_of W h ≡ some user_sid
      → IsOwnerOnly user_sid d
      → S.descriptor_of path h ≡ before
      → W.open_always path (some d) h ≡ r
      → Protected before (protected_handle W path r)
  protected_handle-Protected user_sid d before (inl code, h1) t o b e =
      inr (user_sid, d, code, t, o, e)
  protected_handle-Protected user_sid d none (inr fh, h1) t o b e =
      (user_sid, d, t, S.closes path fh h1 ∙ S.creates path d h h1 fh b e, o)
  protected_handle-Protected user_sid d (some old) (inr fh, h1) t o b e =
      S.closes path fh h1 ∙ S.keeps path d old h h1 fh b e

  -- On Windows, `create_protected_file` returns only where a file that was there keeps its
  -- descriptor, or where the new file has a descriptor that is protected and whose list has one
  -- entry: all rights for the user of the token, not inherited. Otherwise it throws, before any
  -- call that changes the system or where CreateFile, under such a descriptor, failed. The calls
  -- on descriptors and CreateFile do as documented.
  pub create_protected_file-Protected :
      Protected (S.descriptor_of path h) (create_protected_file W last_error path h)
  unfolding create_protected_file
  create_protected_file-Protected = elim (Bool-cases (owner_only W h).good) [
    | inl good ↦
        let (user_sid, d, t, carried, o) = owner_only-IsLocked good in
        rw (carried, good)
          (protected_handle-Protected user_sid d (S.descriptor_of path h)
            (W.open_always path (some d) h) t o refl refl)
    | inr bad ↦ rw bad (inl refl)
  ]
