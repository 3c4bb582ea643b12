-- ===== src/Commands/Safety.antt =====
-- commands.cpp: what the commands leave alone when they give up.
use git_crypt.Base.{
  equal-false, ℕ, ◌≡◌, refl, ◌≢◌, Bool, false, Option, some, List, [], ◌∷◌, Bytes, codes, equal,
}
use git_crypt.Base.Results.{ok}
use git_crypt.Host.{Host}
use git_crypt.Exec.{World}
use git_crypt.KeyFile.{validate_key_name, valid}
use git_crypt.Git.Paths.{get_internal_key_path, get_git_status}
use git_crypt.Commands.Repo.{validate_key_name_or_throw}
use git_crypt.Commands.Keys.{init_with, keygen, keygen_to}
use git_crypt.Commands.Unlock.{unlock}
use git_crypt.Commands.Lock.{lock_with}

-- What a command leaves alone when it gives up: the system and the standard output.
abbrev pub Untouched : ⦃H : Host⦄ → World → World → Type 0
Untouched before after = (after.host ≡ before.host) × (after.cout ≡ before.cout)

module _ ⦃H : Host⦄ where
  -- Where a valid key name is given and its key file is already there, `init` ends with status 1:
  -- after the path was looked up, the system and the standard output are left as they are, so
  -- that no key is generated and no file is written.
  pub init_keeps_key :
      (key_name : Bytes) (w w1 : World) (path : Bytes)
      → validate_key_name key_name ≡ valid
      → get_internal_key_path (some key_name) w ≡ (ok path, w1)
      → H.access path w1.host ≡ 0
      → let (r, w2) = init_with (some key_name) w in (r ≡ ok 1) × Untouched w1 w2
  unfolding init_with validate_key_name_or_throw
  init_keeps_key key_name w w1 path v e there = rw (v, e, there) (refl, (refl, refl))

  -- `keygen` on a file that exists, whose name is not `-`, ends with status 1 and leaves the
  -- system and the standard output as they are.
  pub keygen_keeps_file :
      (name : Bytes) (w : World)
      → name ≢ codes "-"
      → H.access name w.host ≡ 0
      → let (r, w2) = keygen (name ∷ []) w in (r ≡ ok 1) × Untouched w w2
  unfolding keygen keygen_to
  keygen_keeps_file name w ne there =
      let other : equal name (codes "-") ≡ false = equal-false name (codes "-") ne in
      rw (other, there) (refl, (refl, refl))

  -- Where `git status` finds changes, `unlock` ends with status 1 whatever its arguments are;
  -- after that question the system and the standard output are left as they are.
  pub unlock_refuses_changes :
      (args : List Bytes) (w w1 : World) (c : ℕ) (changes : Bytes)
      → get_git_status w ≡ (ok (c ∷ changes), w1)
      → let (r, w2) = unlock args w in (r ≡ ok 1) × Untouched w1 w2
  unfolding unlock
  unlock_refuses_changes args w w1 c changes e = rw e (refl, (refl, refl))

  -- Where `git status` finds changes, `lock` without force ends with status 1, for one key or for
  -- all; after that question the system and the standard output are left as they are.
  pub lock_refuses_changes :
      (key_name : Option Bytes) (all_keys : Bool) (w w1 : World) (c : ℕ) (changes : Bytes)
      → get_git_status w ≡ (ok (c ∷ changes), w1)
      → let (r, w2) = lock_with key_name all_keys false w in (r ≡ ok 1) × Untouched w1 w2
  unfolding lock_with
  lock_refuses_changes key_name all_keys w w1 c changes e = rw e (refl, (refl, refl))
