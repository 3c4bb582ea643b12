-- ===== src/Exec.antt =====
-- The program's effects: the system's state, the standard streams and exceptions.
pub mod System
pub mod Process
use git_crypt.Base.{ℕ, Bool, true, false, Option, none, some, List, [], ◌∷◌, ◌++◌, Bytes, codes}
use git_crypt.Base.Results.{Exception, Result, ok, err, stuck}
use git_crypt.Host.{Host}

-- `cin` is what is left to read; `cout` and `clog` what was written (`std::cerr` goes to `clog`).
pub record World ⦃H : Host⦄ : Type 0 where
  pub host : H.State
  pub cin : Bytes
  pub cout : Bytes
  pub clog : Bytes
  pub argv0 : Bytes

-- An action returns or throws, and what it did before it threw stays done.
abbrev pub Exec : ⦃H : Host⦄ → Type 0 → Type 0
Exec A = World → Result A × World

module _ ⦃H : Host⦄ {A B : Type 0} where
  abbrev pub continue : Result A → (A → Exec B) → Exec B
  continue (ok a) f w = f a w
  continue (err e) f w = (err e, w)
  continue stuck f w = (stuck, w)

  infixl 5 ◌>>=◌
  abbrev pub ◌>>=◌ : Exec A → (A → Exec B) → Exec B
  ◌>>=◌ m f w = let (r, w') = m w in continue r f w'

module _ ⦃H : Host⦄ {A : Type 0} where
  infixl 5 ◌>>◌
  abbrev pub ◌>>◌ : Exec (Unit {0}) → Exec A → Exec A
  m >> k = m >>= λ _. k

  abbrev pub pure : A → Exec A
  pure a w = (ok a, w)

  abbrev pub throw : Exception → Exec A
  throw e w = (err e, w)

  abbrev pub lift : Result A → Exec A
  lift r w = (r, w)

  -- A call of the system that only looks.
  abbrev pub ask : (H.State → A) → Exec A
  ask f w = (ok (f w.host), w)

  -- A call of the system that may change it.
  abbrev pub call : (H.State → A × H.State) → Exec A
  call f w = let (a, h) = f w.host in (ok a, record w { host = h })

  handle : Result A → (Exception → Exec A) → Exec A
  handle (ok a) h w = (ok a, w)
  handle (err e) h w = h e w
  handle stuck h w = (stuck, w)

  -- `try { m } catch { handler }`
  unfoldable pub catch : Exec A → (Exception → Exec A) → Exec A
  unfolding handle
  catch m handler w = let (r, w') = m w in handle r handler w'

module _ ⦃H : Host⦄ where
  abbrev pub put_out : Bytes → Exec (Unit {0})
  put_out s w = (ok tt, record w { cout = w.cout ++ s })

  -- A line to `std::clog`.
  abbrev pub log : Bytes → Exec (Unit {0})
  log s w = (ok tt, record w { clog = w.clog ++ (s ++ (10 ∷ [])) })

  -- A line to `std::cout`.
  abbrev pub put_line : Bytes → Exec (Unit {0})
  put_line s w = (ok tt, record w { cout = w.cout ++ (s ++ (10 ∷ [])) })

  abbrev pub skip : Exec (Unit {0})
  skip = pure tt

  -- `if (b) { m }`
  abbrev pub when : Bool → Exec (Unit {0}) → Exec (Unit {0})
  when true m = m
  when false m = skip
