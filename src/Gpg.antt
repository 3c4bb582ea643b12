-- ===== src/Gpg.antt =====
-- gpg.cpp: reading the colon-separated output of gpg.
pub mod Run
pub mod Columns
pub mod Listing
use git_crypt.Base.{
  ℕ, zero, suc, ◌+◌, ◌-◌, ◌*◌, ◌/◌, ◌%◌, ◌^◌, ◌≤◌, ◌<◌, ◌≡◌, refl, sym, ap, ◌∙◌, ◌≢◌, ◌↔◌, ◌⊎◌, inl,
  inr, Bool, true, false, not, ◌&&◌, ◌||◌, Option, none, some, List, [], ◌∷◌, ◌++◌, append_assoc,
  append-nil, Bytes, IsByte, codes, All, All-append, length, take, drop, get_or, replicate, equal,
  equal_iff, equal_refl, ◌==◌, ltb, leb, if◌then◌else◌, arith, Bool-cases, Option-cases, ==_iff,
  length-append, length-take, length-drop, take-append-drop, take_of_le, drop_of_le, take-append,
  drop-append, bit_or, bit_xor, bit_and, map, ==_refl, any_byte, is_nil, decimal,
}
use git_crypt.Base.Results.{
  Exception, error, gpg_error, system_error, crypto_error, option_error, incompatible, malformed,
  invalid_argument, logic_error, Result, ok, err, stuck,
}
use git_crypt.Base.Results.{◌>>=◌, ◌>>◌, guard}
use git_crypt.Base.Streams.{get_line}

-- What follows the next ':'.
unfoldable pub after_colon : Bytes → Option Bytes
after_colon [] = none
after_colon (c ∷ s) = let rest = after_colon s in if c == b':' then some s else rest

need_column : Option Bytes → Result Bytes
need_column none = err (gpg_error (codes "Malformed output from gpg"))
need_column (some s) = ok s

-- The columns are counted from 0; the last one may end with the line.
unfoldable pub gpg_nth_column : Bytes → ℕ → Result Bytes
unfolding after_colon need_column get_line
gpg_nth_column line zero = ok (get_line b':' line).0
gpg_nth_column line (suc col) = do rest ← need_column (after_colon line); gpg_nth_column rest col

-- `line.substr(0, 4) == tag`
abbrev has_tag : Bytes → Bytes → Bool
has_tag line tag = equal (take 4 line) tag

-- The user ID of the first "uid:" line.
unfoldable pub first_uid : List Bytes → Result Bytes
first_uid [] = ok []
first_uid (line ∷ lines) =
    if has_tag line (codes "uid:") then gpg_nth_column line 9 else first_uid lines

-- The fingerprints of public keys: those of subkeys are passed over.
unfoldable pub public_fingerprints : List Bytes → Bool → List Bytes → Result (List Bytes)
public_fingerprints [] is_pubkey found = ok found
public_fingerprints (line ∷ lines) is_pubkey found =
    if has_tag line (codes "pub:")
    then public_fingerprints lines true found
    else if has_tag line (codes "sub:")
    then public_fingerprints lines false found
    else if is_pubkey && has_tag line (codes "fpr:")
    then (do
      column ← gpg_nth_column line 9
      public_fingerprints lines is_pubkey (found ++ (column ∷ [])))
    else public_fingerprints lines is_pubkey found

unfoldable pub secret_fingerprints : List Bytes → List Bytes → Result (List Bytes)
secret_fingerprints [] found = ok found
secret_fingerprints (line ∷ lines) found =
    if has_tag line (codes "fpr:")
    then (do column ← gpg_nth_column line 9; secret_fingerprints lines (found ++ (column ∷ [])))
    else secret_fingerprints lines found
