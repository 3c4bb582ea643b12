-- ===== src/Base/Results.antt =====
-- The exceptions that the code throws, and functions that may throw.
use Prim.Native.Nat.{ℕ}
use mathlib.Core.Bool.{Bool, true, false}
use git_crypt.Base.Lists.{Bytes}

-- `Error`, `Gpg_error`, `System_error`, `Crypto_error`, `Option_error`, `Key_file::Incompatible`,
-- `Key_file::Malformed`, `std::invalid_argument` and `std::logic_error`.
pub data Exception : Type 0 where
  error : Bytes → Exception
  gpg_error : Bytes → Exception
  system_error : Bytes → Bytes → ℕ → Exception
  crypto_error : Bytes → Bytes → Exception
  option_error : Bytes → Bytes → Exception
  incompatible : Exception
  malformed : Exception
  invalid_argument : Bytes → Exception
  logic_error : Bytes → Exception

-- `stuck` is no C++ outcome: a loop ran out of the fuel that the model gives it.
pub data Result {ℓ} (A : Type ℓ) : Type ℓ where
  ok : A → Result A
  err : Exception → Result A
  stuck : Result A

module _ {ℓ κ} {A : Type ℓ} {B : Type κ} where
  infixl 5 ◌>>=◌
  abbrev pub ◌>>=◌ : Result A → (A → Result B) → Result B
  stuck >>= next = stuck
  err thrown >>= next = err thrown
  ok value >>= next = next value

-- A statement, and what comes after it.
module _ {ℓ} {A : Type ℓ} where
  infixl 5 ◌>>◌
  abbrev pub ◌>>◌ : Result (Unit {0}) → Result A → Result A
  statement >> rest = statement >>= λ done. rest

-- `if (!test) throw e;`
abbrev pub guard : Bool → Exception → Result (Unit {0})
guard false thrown = err thrown
guard true thrown = ok tt
