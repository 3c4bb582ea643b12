-- ===== src/Git/Batches.antt =====
-- commands.cpp, `git_checkout`: the batches make up the paths.
use mathlib.Core.Path.{subst}
use git_crypt.Base.{
  ℕ, zero, suc, ◌≤◌, ◌≡◌, ◌⊎◌, refl, sym, ap, ◌∙◌, inl, inr, Bool, true, false, List, [], ◌∷◌, ◌++◌,
  append_assoc, append-nil, map, Bytes, codes, All, length, take, drop, leb, arith, Bool-cases,
  length-take, take-append-drop,
}
use git_crypt.Base.Results.{Result, ok, err, stuck}
use git_crypt.Host.{Host}
use git_crypt.Exec.{World, Exec, continue, pure}
use git_crypt.Exec.Process.{exec_command}
use git_crypt.Git.Paths.{git_checkout_batch, checkout_batches, git_checkout}

-- The command of a batch.
abbrev pub checkout_command : List Bytes → List Bytes
checkout_command paths = codes "git" ∷ (codes "checkout" ∷ (codes "--" ∷ paths))

-- A system that keeps the commands that were run, the latest last.
pub record Log ⦃H : Host⦄ : Type 0 where
  pub commands : H.State → List (List Bytes)
  pub runs :
      (args : List Bytes) (input : Bytes) (h : H.State)
      → commands (H.run args input h).1 ≡ commands h ++ (args ∷ [])

abbrev pub concat : List (List Bytes) → List Bytes
concat [] = []
concat (paths ∷ batches) = paths ++ concat batches

-- A batch has a path at least, and 100 of them at most.
abbrev pub IsBatch : List Bytes → Type 0
IsBatch paths = (1 ≤ length paths) × (length paths ≤ 100)

module _ ⦃H : Host⦄ (L : Log) where
  -- The commands that were run are those of some batches, which are the paths in their order; where
  -- the result is true that is all of the paths, and else the rest of them was left out.
  pub record Covers (paths : List Bytes) (w w1 : World) (all : Bool) : Type 0 where
    pub batches : List (List Bytes)
    pub rest : List Bytes
    pub logged : L.commands w1.host ≡ L.commands w.host ++ map checkout_command batches
    pub covered : concat batches ++ rest ≡ paths
    pub whole : All IsBatch batches
    pub complete : (all ≡ false) ⊎ (rest ≡ [])

  -- After a run of `git_checkout`, whether it returns or throws.
  abbrev pub Checked : List Bytes → World → Result Bool × World → Type 0
  Checked paths w (ok done, w1) = Covers paths w w1 done
  Checked paths w (err e, w1) = Covers paths w w1 false
  Checked paths w (stuck, w1) = Covers paths w w1 false

  continue-host :
      {A B : Type 0} (r : Result A) (f : A → Exec B) (w : World)
      → ((a : A) → (f a w).1.host ≡ w.host)
      → (continue r f w).1.host ≡ w.host
  continue-host (ok a) f w e = e a
  continue-host (err x) f w e = refl
  continue-host stuck f w e = refl

  exec_command-log :
      (args : List Bytes) (w : World)
      → L.commands (exec_command args w).1.host ≡ L.commands w.host ++ (args ∷ [])
  unfolding exec_command
  exec_command-log args w =
      let (r, h) = H.run args [] w.host in
      ap L.commands (continue-host r _ (record w { host = h }) (λ a. refl)) ∙ L.runs args [] w.host

  git_checkout_batch-log :
      (paths : List Bytes) (w : World)
      → 1 ≤ length paths
      → L.commands (git_checkout_batch paths w).1.host
        ≡ L.commands w.host ++ (checkout_command paths ∷ [])
  unfolding git_checkout_batch
  git_checkout_batch-log [] w h = absurd (omega arith)
  git_checkout_batch-log (path ∷ paths) w h =
      let (r, w1) = exec_command (checkout_command (path ∷ paths)) w in
      ap L.commands (continue-host r _ w1 (λ a. refl))
      ∙ exec_command-log (checkout_command (path ∷ paths)) w

  -- One batch, and what is left out after it.
  Covers-one :
      (batch rest : List Bytes) (w w1 : World) (all : Bool)
      → IsBatch batch
      → L.commands w1.host ≡ L.commands w.host ++ (checkout_command batch ∷ [])
      → (all ≡ false) ⊎ (rest ≡ [])
      → Covers (batch ++ rest) w w1 all
  Covers-one batch rest w w1 all b e c = record {
    batches = batch ∷ [];
    rest = rest;
    logged = e;
    covered = ap (λ (s : List Bytes). s ++ rest) (append-nil batch);
    whole = (b, tt);
    complete = c;
  }

  Covers-cons :
      (batch paths : List Bytes) (w w1 w2 : World) (all : Bool)
      → IsBatch batch
      → L.commands w1.host ≡ L.commands w.host ++ (checkout_command batch ∷ [])
      → Covers paths w1 w2 all
      → Covers (batch ++ paths) w w2 all
  Covers-cons batch paths w w1 w2 all b e c = record {
    batches = batch ∷ c.batches;
    rest = c.rest;
    logged =
        c.logged
        ∙ ap (λ (s : List (List Bytes)). s ++ map checkout_command c.batches) e
        ∙ append_assoc (L.commands w.host) (checkout_command batch ∷ [])
            (map checkout_command c.batches);
    covered = append_assoc batch (concat c.batches) c.rest ∙ ap (◌++◌ batch) c.covered;
    whole = (b, c.whole);
    complete = c.complete;
  }

  Checked-cons :
      (batch paths : List Bytes) (w w1 : World) (r : Result Bool × World)
      → IsBatch batch
      → L.commands w1.host ≡ L.commands w.host ++ (checkout_command batch ∷ [])
      → Checked paths w1 r
      → Checked (batch ++ paths) w r
  Checked-cons batch paths w w1 (ok done, w2) b e c = Covers-cons batch paths w w1 w2 done b e c
  Checked-cons batch paths w w1 (err x, w2) b e c = Covers-cons batch paths w w1 w2 false b e c
  Checked-cons batch paths w w1 (stuck, w2) b e c = Covers-cons batch paths w w1 w2 false b e c

  -- Nothing was run for want of fuel.
  Covers-none : (paths : List Bytes) (w : World) → Covers paths w w false
  Covers-none paths w = record {
    batches = [];
    rest = paths;
    logged = sym (append-nil (L.commands w.host));
    covered = refl;
    whole = tt;
    complete = inl refl;
  }

  after_batch :
      (batch paths : List Bytes) (w w1 : World) (r : Result Bool) (more : Exec Bool)
      → IsBatch batch
      → L.commands w1.host ≡ L.commands w.host ++ (checkout_command batch ∷ [])
      → Checked paths w1 (more w1)
      → Checked
          (batch ++ paths)
          w
          (continue r (λ done. elim done [ true ↦ more | false ↦ pure false ]) w1)
  after_batch batch paths w w1 (ok true) more b e c = Checked-cons batch paths w w1 (more w1) b e c
  after_batch batch paths w w1 (ok false) more b e c =
      Covers-one batch paths w w1 false b e (inl refl)
  after_batch batch paths w w1 (err x) more b e c = Covers-one batch paths w w1 false b e (inl refl)
  after_batch batch paths w w1 stuck more b e c = Covers-one batch paths w w1 false b e (inl refl)

  one_batch :
      (batch : List Bytes) (w : World) (r : Result Bool × World)
      → IsBatch batch
      → L.commands r.1.host ≡ L.commands w.host ++ (checkout_command batch ∷ [])
      → Checked (batch ++ []) w r
  one_batch batch w (ok done, w1) b e = Covers-one batch [] w w1 done b e (inr refl)
  one_batch batch w (err x, w1) b e = Covers-one batch [] w w1 false b e (inr refl)
  one_batch batch w (stuck, w1) b e = Covers-one batch [] w w1 false b e (inr refl)

  -- The last call, with the paths that are left; there may be none.
  last_batch :
      (paths : List Bytes) (w : World)
      → length paths ≤ 100
      → Checked paths w (git_checkout_batch paths w)
  unfolding git_checkout_batch
  last_batch [] w h = record {
    batches = [];
    rest = [];
    logged = sym (append-nil (L.commands w.host));
    covered = refl;
    whole = tt;
    complete = inr refl;
  }
  last_batch (path ∷ paths) w h =
      subst (λ (s : List Bytes). Checked s w (git_checkout_batch (path ∷ paths) w))
        (append-nil (path ∷ paths))
        (one_batch (path ∷ paths) w (git_checkout_batch (path ∷ paths) w) (omega arith, h)
          (git_checkout_batch-log (path ∷ paths) w (omega arith)))

  checkout_batches-Checked :
      (fuel : ℕ) (paths : List Bytes) (w : World) → Checked paths w (checkout_batches fuel paths w)
  unfolding checkout_batches
  checkout_batches-Checked zero paths w = Covers-none paths w
  checkout_batches-Checked (suc fuel) paths w = elim (Bool-cases (leb 100 (length paths))) [
    | inl many ↦
        let b = take 100 paths in
        let rest = drop 100 paths in
        let r = git_checkout_batch b w in
        let enough : 100 ≤ length paths = ground arith in
        let n = length-take 100 paths in
        let c : Checked (b ++ rest) w (
            continue r.0
              (λ done. elim done [ true ↦ checkout_batches fuel rest | false ↦ pure false ]) r.1) =
          after_batch b rest w r.1 r.0 (checkout_batches fuel rest) (ground (arith, n, enough))
            (git_checkout_batch-log b w (ground (arith, n, enough)))
            (checkout_batches-Checked fuel rest r.1) in
        rw many (
          subst
            (λ (s : List Bytes). Checked s w (
              continue r.0
                (λ done. elim done [ true ↦ checkout_batches fuel rest | false ↦ pure false ]) r.1))
            (take-append-drop 100 paths) c)
    | inr few ↦ rw few (last_batch paths w (ground arith))
  ]

  -- On a system that keeps the commands it ran, and whatever `git_checkout` comes to, the
  -- commands it ran are `git checkout --` with 1 to 100 paths each, and joined these are the
  -- first of the given paths in their order, each once; they are all of the paths unless it did
  -- not return true.
  pub git_checkout-batches :
      (paths : List Bytes) (w : World) → Checked paths w (git_checkout paths w)
  unfolding git_checkout
  git_checkout-batches paths w = checkout_batches-Checked (suc (length paths)) paths w
