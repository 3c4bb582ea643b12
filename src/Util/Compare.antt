-- ===== src/Util/Compare.antt =====
-- `leakless_equals` decides equality of the first `len` bytes.
use git_crypt.Base.{
  ℕ, zero, suc, ◌≤◌, ◌≡◌, refl, ◌↔◌, true, [], ◌∷◌, Bytes, length, take, arith, bit_or, bit_xor,
}
use git_crypt.Base.Bits.{bit_or-eq-zero, bit_xor-eq-zero, bit_xor_self}
use git_crypt.Util.{leakless_equals_char, leakless_equals}

char→eq :
    (len diff : ℕ) (a b : Bytes)
    → len ≤ length a
    → len ≤ length b
    → leakless_equals_char diff a b len ≡ true
    → (diff ≡ 0) × (take len a ≡ take len b)
unfolding leakless_equals_char
char→eq zero diff a b p q e = ground arith
char→eq (suc len) diff [] b p q e = absurd (omega arith)
char→eq (suc len) diff (x ∷ a) [] p q e = absurd (omega arith)
char→eq (suc len) diff (x ∷ a) (y ∷ b) p q e =
    let (d, r) = char→eq len (bit_or diff (bit_xor x y)) a b (omega arith) (omega arith) e in
    let (d0, x0) = bit_or-eq-zero diff diff (bit_xor x y) (omega arith) d in
    (d0, cc (bit_xor-eq-zero x x y (omega arith) x0))

same_cons : {x y : ℕ} {a b : Bytes} → ◌≡◌ {A = Bytes} (x ∷ a) (y ∷ b) → (x ≡ y) × (a ≡ b)
same_cons e = ground arith

eq→char :
    (len : ℕ) (a b : Bytes)
    → len ≤ length a
    → len ≤ length b
    → take len a ≡ take len b
    → leakless_equals_char 0 a b len ≡ true
unfolding leakless_equals_char
eq→char zero a b p q e = refl
eq→char (suc len) [] b p q e = absurd (omega arith)
eq→char (suc len) (x ∷ a) [] p q e = absurd (omega arith)
eq→char (suc len) (x ∷ a) (y ∷ b) p q e =
    let (h, t) = same_cons e in
    rw (h, bit_xor_self y y (omega arith)) (eq→char len a b (omega arith) (omega arith) t)

-- On two buffers that have `len` bytes or more, the comparison in constant time passes exactly if
-- the first `len` bytes agree.
pub leakless_equals_iff :
    (a b : Bytes) (len : ℕ)
    → len ≤ length a
    → len ≤ length b
    → (leakless_equals a b len ≡ true) ↔ (take len a ≡ take len b)
unfolding leakless_equals
leakless_equals_iff a b len p q = (λ e. (char→eq len 0 a b p q e).1, eq→char len a b p q)
