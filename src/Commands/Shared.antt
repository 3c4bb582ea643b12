-- ===== src/Commands/Shared.antt =====
-- commands.cpp: a key file that one command writes, in the repository's keys or to a file of its
-- own, is one that `unlock` reads.
use git_crypt.Base.{
  ◌≡◌, refl, ap, ◌∙◌, inl, inr, Option, none, some, [], ◌∷◌, Bytes, All, equal_refl, arith, ==_refl,
}
use git_crypt.Base.Results.{ok}
use git_crypt.KeyFile.{
  KeyFile, Entry, new_key_file, set_key_name, get_key_name, c_str, add, get, validate_key_name,
  valid,
}
use git_crypt.KeyFile.Names.{IsNameChar, validate_key_name_iff}
use git_crypt.KeyFile.Versions.{IsEntry, IsWellFormed, add-IsWellFormed, get-add}
use git_crypt.KeyFormat.{store}
use git_crypt.KeyFormat.RoundTrip.{load-store}
use git_crypt.Exec.{World, catch}
use git_crypt.Exec.System.{create_protected_file}
use git_crypt.KeyStore.{load_from_file, store_to_file}
use git_crypt.Commands.Keys.{write_key_file}
use git_crypt.Commands.Unlock.{unlock_key}
use git_crypt.Host.{Host}
use git_crypt.Base.{equal-false, ◌≢◌, codes, true}
use git_crypt.Commands.Repo.{read_repo_key, expected_entry, same_key_name}

-- A key name as a command is given one: null, or a valid name.
abbrev pub IsGiven : Option Bytes → Type 0
IsGiven none = Unit
IsGiven (some name) = validate_key_name name ≡ valid

c_str-whole : (s : Bytes) → All IsNameChar s → c_str s ≡ s
unfolding c_str
c_str-whole [] h = refl
c_str-whole (c ∷ s) (p, h) = ground (arith, c_str-whole s h)

given_c_str : (name : Bytes) → validate_key_name name ≡ valid → c_str name ≡ name
given_c_str name v = c_str-whole name ((validate_key_name_iff name).0 v).3

pub get_key_name-set_key_name :
    (key_name : Option Bytes)
    → IsGiven key_name
    → get_key_name (set_key_name new_key_file key_name) ≡ key_name
unfolding get_key_name
get_key_name-set_key_name none g = refl
get_key_name-set_key_name (some []) g = absurd (((validate_key_name_iff []).0 g).0 refl)
get_key_name-set_key_name (some (c ∷ s)) g = ap some (given_c_str (c ∷ s) g)

pub get_key_name-add : (k : KeyFile) (e : Entry) → get_key_name (add k e) ≡ get_key_name k
unfolding get_key_name add
get_key_name-add k e = refl

same_key_name_refl : (key_name : Option Bytes) → same_key_name key_name key_name ≡ true
unfolding same_key_name
same_key_name_refl none = refl
same_key_name_refl (some name) = equal_refl name

set_key_name-IsWellFormed :
    (key_name : Option Bytes) → IsGiven key_name → IsWellFormed (set_key_name new_key_file key_name)
set_key_name-IsWellFormed none g = record { sorted = tt; named = inl refl }
set_key_name-IsWellFormed (some name) g = record {
  sorted = tt;
  named = inr (((validate_key_name_iff name).0 g).2, rw (given_c_str name g) g);
}

-- The key file that is handed to gpg, read back.
pub read_repo_key-store :
    (key_name : Option Bytes) (key : Entry)
    → IsEntry key
    → IsGiven key_name
    → let k = add (set_key_name new_key_file key_name) key in
      read_repo_key key_name key.version (store k) ≡ ok k
unfolding read_repo_key expected_entry
read_repo_key-store key_name key e g =
    let empty = set_key_name new_key_file key_name in
    let k = add empty key in
    let loaded =
      load-store k (add-IsWellFormed empty key (set_key_name-IsWellFormed key_name g) e) in
    let there : get k key.version ≡ some key =
      get-add empty key key.version ∙ rw (==_refl key.version) refl in
    let named : get_key_name k ≡ key_name =
      get_key_name-add empty key ∙ get_key_name-set_key_name key_name g in
    rw (loaded, read_repo_key, there, named, same_key_name_refl key_name) refl

module _ ⦃H : Host⦄ where
  -- Where a well-formed key file is written to a file that is not `-`, with the file created and
  -- written in full, and that file then reads as it was written, `write_key_file` (of
  -- `export-key`, `keygen` and `migrate-key`) ends with status 0 and changes nothing but the
  -- system, and `unlock` reads the same key file back from that file.
  pub unlock_key-write_key_file :
      (k : KeyFile) (name : Bytes) (w : World) (h1 h2 : H.State)
      → IsWellFormed k
      → name ≢ codes "-"
      → H.open_create name w.host ≡ (0, h1)
      → H.write_output name (store k) h1 ≡ (true, h2)
      → H.open_input name h2 ≡ some (store k)
      → let (r, w1) = write_key_file k name w in
        (r ≡ ok 0) × (w1 ≡ record w { host = h2 }) × (unlock_key name w1 ≡ (ok (inr k), w1))
  unfolding write_key_file unlock_key load_from_file store_to_file create_protected_file catch
  unlock_key-write_key_file k name w h1 h2 f ne created written found =
      let other = equal-false name (codes "-") ne in
      let loaded = load-store k f in
      rw (other, created, written) (refl, refl, rw (found, loaded) refl)
