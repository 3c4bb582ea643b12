-- ===== src/Base/Bits.antt =====
-- Laws of `|` and `^` at variables, from the digit recursion that the native operations stand for.
use Prim.Native.Nat.{ℕ, zero, suc, ◌+◌, ◌*◌, ◌/◌, ◌%◌, ◌^◌, ◌≤◌, ◌<◌, max}
use Prim.Native.Nat.{bit_or, bit_xor, digits, differ, bit_or-bitwise, bit_xor-bitwise}
use mathlib.Core.Path.{◌≡◌, refl, ap, sym, ◌∙◌}
use native.Mathlib.Omega.{arith}
use native.Mathlib.Nat.{pow-suc}

module _ (z : ℕ → ℕ) (f : ℕ → ℕ → ℕ) where
  no_digits : (fuel b : ℕ) → digits z f 0 0 b ≡ digits z f fuel 0 b
  no_digits zero b = refl
  no_digits (suc fuel) b = refl

  -- Digits beyond the number's own change nothing.
  spare_digits :
      (fuel more a b : ℕ) → a ≤ fuel → fuel ≤ more → digits z f fuel a b ≡ digits z f more a b
  spare_digits zero more zero b small longer = no_digits more b
  spare_digits zero more (suc a) b small longer = absurd (omega arith)
  spare_digits (suc fuel) more zero b small longer = no_digits more b
  spare_digits (suc fuel) zero (suc a) b small longer = absurd (omega arith)
  spare_digits (suc fuel) (suc more) (suc a) b small longer =
      ap (λ (t : ℕ). t * 2 + f (suc a % 2) (b % 2))
        (spare_digits fuel more (suc a / 2) (b / 2) (omega arith) (omega arith))

  low_digit :
      (a b : ℕ)
      → digits z f (suc a) (suc a) b
        ≡ digits z f (suc a / 2) (suc a / 2) (b / 2) * 2 + f (suc a % 2) (b % 2)
  low_digit a b =
      ap (λ (t : ℕ). t * 2 + f (suc a % 2) (b % 2))
        (sym (spare_digits (suc a / 2) a (suc a / 2) (b / 2) (omega arith) (omega arith)))

pub bit_or_low : (a b : ℕ) → bit_or a b ≡ bit_or (a / 2) (b / 2) * 2 + max (a % 2) (b % 2)
bit_or_low zero b = rw bit_or-bitwise (rw bit_or-bitwise (omega arith))
bit_or_low (suc a) b =
    bit_or-bitwise (suc a) b
    ∙ low_digit (λ y. y) max a b
    ∙ ap (λ (t : ℕ). t * 2 + max (suc a % 2) (b % 2)) (sym (bit_or-bitwise (suc a / 2) (b / 2)))

differ_zero : (n : ℕ) → differ 0 n ≡ n
differ_zero n = refl

pub bit_xor_low : (a b : ℕ) → bit_xor a b ≡ bit_xor (a / 2) (b / 2) * 2 + differ (a % 2) (b % 2)
bit_xor_low zero b = rw bit_xor-bitwise (rw bit_xor-bitwise (omega arith))
bit_xor_low (suc a) b =
    bit_xor-bitwise (suc a) b
    ∙ low_digit (λ y. y) differ a b
    ∙ ap (λ (t : ℕ). t * 2 + differ (suc a % 2) (b % 2)) (sym (bit_xor-bitwise (suc a / 2) (b / 2)))

zero-bit_or : (b : ℕ) → bit_or 0 b ≡ b
zero-bit_or b = bit_or-bitwise 0 b

zero-bit_xor : (b : ℕ) → bit_xor 0 b ≡ b
zero-bit_xor b = bit_xor-bitwise 0 b

double_pow : (k q : ℕ) → q * 2 ^ suc k ≡ 2 * (q * 2 ^ k)
double_pow k q = omega (arith, ap (λ (t : ℕ). q * t) (pow-suc 2 k))

-- `r | (q << k)` is a sum when `r` fits `k` bits.
pub bit_or_shifted : (k r q : ℕ) → r < 2 ^ k → bit_or r (q * 2 ^ k) ≡ r + q * 2 ^ k
bit_or_shifted zero r q fits =
    let e : r ≡ 0 = omega arith in rw e (omega (arith, zero-bit_or (q * 1)))
bit_or_shifted (suc k) r q fits = omega (
  arith,
  bit_or_low r (q * 2 ^ suc k),
  double_pow k q,
  pow-suc 2 k,
  ap (λ (t : ℕ). bit_or (r / 2) t) (half k q),
  bit_or_shifted k (r / 2) q (omega (arith, pow-suc 2 k)),
)
  where
    half : (k q : ℕ) → q * 2 ^ suc k / 2 ≡ q * 2 ^ k
    half k q = omega (arith, double_pow k q)

pub bit_or-eq-zero : (n a b : ℕ) → a ≤ n → bit_or a b ≡ 0 → (a ≡ 0) × (b ≡ 0)
bit_or-eq-zero n zero b h e = omega (arith, zero-bit_or b)
bit_or-eq-zero zero (suc a) b h e = absurd (omega arith)
bit_or-eq-zero (suc n) (suc a) b h e =
    let rest =
      bit_or-eq-zero n (suc a / 2) (b / 2) (omega arith) (omega (arith, bit_or_low (suc a) b)) in
    omega (arith, bit_or_low (suc a) b)

-- Exclusive or of two binary digits.
digit_cases : (x y : ℕ) → x < 2 → y < 2 → (differ x y < 2) × (differ (differ x y) y ≡ x)
digit_cases zero zero p q = omega arith
digit_cases zero (suc zero) p q = omega arith
digit_cases (suc zero) zero p q = omega arith
digit_cases (suc zero) (suc zero) p q = omega arith
digit_cases (suc (suc x)) y p q = absurd (omega arith)
digit_cases zero (suc (suc y)) p q = absurd (omega arith)
digit_cases (suc zero) (suc (suc y)) p q = absurd (omega arith)

differ-eq-zero : (x y : ℕ) → differ x y ≡ 0 → x ≡ y
differ-eq-zero zero y e = sym e
differ-eq-zero (suc x) zero e = e
differ-eq-zero (suc x) (suc y) e = ap suc (differ-eq-zero x y e)

differ_self : (x : ℕ) → differ x x ≡ 0
differ_self zero = refl
differ_self (suc x) = differ_self x

pub bit_xor-eq-zero : (n a b : ℕ) → a ≤ n → bit_xor a b ≡ 0 → a ≡ b
bit_xor-eq-zero n zero b h e = omega (arith, zero-bit_xor b)
bit_xor-eq-zero zero (suc a) b h e = absurd (omega arith)
bit_xor-eq-zero (suc n) (suc a) b h e =
    let low = bit_xor_low (suc a) b in
    let rest = bit_xor-eq-zero n (suc a / 2) (b / 2) (omega arith) (omega arith) in
    let last = differ-eq-zero (suc a % 2) (b % 2) (omega arith) in omega arith

pub bit_xor_self : (n a : ℕ) → a ≤ n → bit_xor a a ≡ 0
bit_xor_self n zero h = zero-bit_xor 0
bit_xor_self zero (suc a) h = absurd (omega arith)
bit_xor_self (suc n) (suc a) h = omega (
  arith,
  bit_xor_low (suc a) (suc a),
  differ_self (suc a % 2),
  bit_xor_self n (suc a / 2) (omega arith),
)

-- Applying a pad twice gives the byte back.
bit_xor_cancel_fuel : (n a b : ℕ) → a + b ≤ n → bit_xor (bit_xor a b) b ≡ a
bit_xor_cancel_fuel zero a b h =
    let p : a ≡ 0 = omega arith in let q : b ≡ 0 = omega arith in rw (p, q) refl
bit_xor_cancel_fuel (suc n) a b h =
    let low = bit_xor_low a b in
    let digit = digit_cases (a % 2) (b % 2) (omega arith) (omega arith) in
    let up : bit_xor a b / 2 ≡ bit_xor (a / 2) (b / 2) = omega arith in
    let down : bit_xor a b % 2 ≡ differ (a % 2) (b % 2) = omega arith in
    let again = bit_xor_low (bit_xor a b) b in
    rw (again, up, down, digit.1, bit_xor_cancel_fuel n (a / 2) (b / 2) (omega arith)) (omega arith)

pub bit_xor_cancel : (a b : ℕ) → bit_xor (bit_xor a b) b ≡ a
bit_xor_cancel a b = bit_xor_cancel_fuel (a + b) a b (omega arith)

pub bit_xor_lt : (k a b : ℕ) → a < 2 ^ k → b < 2 ^ k → bit_xor a b < 2 ^ k
bit_xor_lt zero a b p q = let e : a ≡ 0 = omega arith in rw e (omega (arith, zero-bit_xor b))
bit_xor_lt (suc k) a b p q = omega (
  arith,
  bit_xor_low a b,
  pow-suc 2 k,
  (digit_cases (a % 2) (b % 2) (omega arith) (omega arith)).0,
  bit_xor_lt k (a / 2) (b / 2) (omega (arith, pow-suc 2 k)) (omega (arith, pow-suc 2 k)),
)
