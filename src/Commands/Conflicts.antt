-- ===== src/Commands/Conflicts.antt =====
-- commands.cpp, `status`: the options that exclude each other.
use git_crypt.Base.{
  ◌≡◌, refl, ◌↔◌, inl, inr, Bool, true, false, none, List, [], ◌∷◌, Bytes, arith, Option-cases,
}
use git_crypt.Base.Results.{ok}
use git_crypt.Host.{Host}
use git_crypt.Exec.{World}
use git_crypt.Base.Results.{ok}
use git_crypt.Commands.Status.{status_with}
use git_crypt.Commands.Safety.{Untouched}
use git_crypt.Commands.Listing.{StatusOptions, options_error}

-- Which options of `status` go together: -r with none of the others and no file, -e without -u,
-- -f with neither of them, and -z never.
abbrev pub IsCompatible : StatusOptions → List Bytes → Type 0
IsCompatible o files =
    (o.repo_status_only ≡ true
      → (o.show_encrypted_only ≡ false)
        × (o.show_unencrypted_only ≡ false)
        × (o.fix_problems ≡ false)
        × (files ≡ []))
    × (o.show_encrypted_only ≡ true → o.show_unencrypted_only ≡ false)
    × (o.fix_problems ≡ true → (o.show_encrypted_only ≡ false) × (o.show_unencrypted_only ≡ false))
    × (o.machine_output ≡ false)

no_error_iff :
    (r e u f z : Bool) (files : List Bytes)
    → let o : StatusOptions = record {
      repo_status_only = r;
      show_encrypted_only = e;
      show_unencrypted_only = u;
      fix_problems = f;
      machine_output = z;
    } in
      (options_error o files ≡ none) ↔ IsCompatible o files
unfolding options_error
no_error_iff r e u f z [] = ground arith
no_error_iff r e u f z (file ∷ files) = ground arith

-- `status` complains of no option exactly if they go together: -r with none of the others and no
-- file, -e without -u, -f with neither of them, and never -z.
pub options_error_iff :
    (o : StatusOptions) (files : List Bytes) → (options_error o files ≡ none) ↔ IsCompatible o files
options_error_iff o files =
    no_error_iff o.repo_status_only o.show_encrypted_only o.show_unencrypted_only o.fix_problems
      o.machine_output files

module _ ⦃H : Host⦄ where
  -- With options that do not go together, `status` ends with status 2 and leaves the system and
  -- the standard output as they are.
  pub status_refuses :
      (o : StatusOptions) (files : List Bytes) (w : World)
      → ¬ IsCompatible o files
      → let (r, w2) = status_with o files w in (r ≡ ok 2) × Untouched w w2
  unfolding status_with
  status_refuses o files w bad = elim (Option-cases (options_error o files)) [
    | inl e ↦ absurd (bad ((options_error_iff o files).0 e))
    | inr (message, e) ↦ rw (e, status_with) (refl, (refl, refl))
  ]
