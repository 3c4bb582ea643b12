-- ===== src/Git/Attributes/Lines.antt =====
-- commands.cpp, `get_file_attributes`: the lines of `git check-attr`, read backwards.
use git_crypt.Base.{
  ℕ, suc, ◌+◌, ◌-◌, ◌≤◌, ◌<◌, ◌≡◌, refl, ap, inl, inr, Bool, true, false, ◌&&◌, Option, none, some,
  [], ◌∷◌, ◌++◌, Bytes, All, length, take, drop, ◌==◌, leb, if◌then◌else◌, arith, Option-cases,
  length-append, take-append,
}
use git_crypt.Git.Attributes.{rfind_colon, split_line}

-- A line of `git check-attr`.
pub print_line : Bytes → Bytes → Bytes → Bytes
print_line filename attr_name attr_value =
    filename ++ (b':' ∷ (b' ' ∷ (attr_name ++ (b':' ∷ (b' ' ∷ attr_value)))))

abbrev pub NoColon : Bytes → Type 0
NoColon s = All (λ c. (c == b':') ≡ false) s

starts_space : Bytes → Bool
starts_space [] = false
starts_space (c ∷ s) = c == b' '

-- A later position wins over this one.
or_here : Option ℕ → Bool → ℕ → Option ℕ
or_here (some pos) here i = some pos
or_here none here i = if here then some i else none

rfind_colon-cons :
    (i limit c : ℕ) (s : Bytes)
    → rfind_colon i limit (c ∷ s)
      ≡ or_here (rfind_colon (i + 1) limit s) (c == b':' && starts_space s && leb i limit) i
unfolding rfind_colon or_here starts_space
rfind_colon-cons i limit c [] = ground arith
rfind_colon-cons i limit c (d ∷ s) = elim (Option-cases (rfind_colon (i + 1) limit (d ∷ s))) [
  | inl e ↦ rw e refl
  | inr (pos, e) ↦ rw e refl
]

NoColon-none : (i limit : ℕ) (s : Bytes) → NoColon s → rfind_colon i limit s ≡ none
unfolding or_here
NoColon-none i limit [] h = unfold rfind_colon in refl
NoColon-none i limit (c ∷ s) (p, h) =
    rw (rfind_colon-cons i limit c s, NoColon-none (i + 1) limit s h, p) refl

above-none : (i limit : ℕ) (s : Bytes) → limit < i → rfind_colon i limit s ≡ none
unfolding or_here
above-none i limit [] h = unfold rfind_colon in refl
above-none i limit (c ∷ s) h =
    let over : leb i limit ≡ false = ground arith in
    rw (rfind_colon-cons i limit c s, above-none (i + 1) limit s (omega arith), over) (ground arith)

prefix-none :
    (i limit : ℕ) (s t : Bytes)
    → NoColon s
    → rfind_colon (i + length s) limit t ≡ none
    → rfind_colon i limit (s ++ t) ≡ none
unfolding or_here
prefix-none i limit [] t h e = let z : i + 0 ≡ i = omega arith in rw (← z) e
prefix-none i limit (c ∷ s) t (p, h) e =
    let z : i + suc (length s) ≡ i + 1 + length s = omega arith in
    rw (rfind_colon-cons i limit c (s ++ t), prefix-none (i + 1) limit s t h (rw (← z) e), p) refl

prefix-some :
    (i limit pos : ℕ) (s t : Bytes)
    → rfind_colon (i + length s) limit t ≡ some pos
    → rfind_colon i limit (s ++ t) ≡ some pos
unfolding or_here
prefix-some i limit pos [] t e = let z : i + 0 ≡ i = omega arith in rw (← z) e
prefix-some i limit pos (c ∷ s) t e =
    let z : i + suc (length s) ≡ i + 1 + length s = omega arith in
    rw (rfind_colon-cons i limit c (s ++ t), prefix-some (i + 1) limit pos s t (rw (← z) e)) refl

found_here :
    (i limit : ℕ) (t : Bytes)
    → i ≤ limit
    → rfind_colon (i + 1) limit (b' ' ∷ t) ≡ none
    → rfind_colon i limit (b':' ∷ (b' ' ∷ t)) ≡ some i
unfolding or_here starts_space
found_here i limit t h e =
    let within : leb i limit ≡ true = ground arith in
    rw (rfind_colon-cons i limit b':' (b' ' ∷ t), e, within) refl

drop-past : (n : ℕ) (s t : Bytes) → drop (length s + n) (s ++ t) ≡ drop n t
drop-past n [] t = ap (λ k. drop k t) (omega arith)
drop-past n (c ∷ s) t =
    let z : suc (length s) + n ≡ suc (length s + n) = omega arith in rw z (drop-past n s t)

-- Where the value is marked off.
value_pos : Bytes → Bytes → ℕ
value_pos f a = length f + (2 + length a)

at_value :
    (f a v : Bytes)
    → NoColon v
    → let line = print_line f a v in rfind_colon 0 (length line) line ≡ some (value_pos f a)
unfolding print_line value_pos
at_value f a v hv =
    let value = b':' ∷ (b' ' ∷ v) in
    let named = b':' ∷ (b' ' ∷ (a ++ value)) in
    let limit = length (f ++ named) in
    let z : 0 + length f + suc (suc (length a)) ≡ length f + (2 + length a) = omega arith in
    let here =
      found_here (length f + (2 + length a)) limit v
        (omega (arith, length-append f named, length-append a value))
        (NoColon-none _ limit (b' ' ∷ v) (refl, hv)) in
    prefix-some 0 limit _ f named
      (prefix-some (0 + length f) limit _ (b':' ∷ (b' ' ∷ a)) value (rw z here))

at_name :
    (f a v : Bytes)
    → NoColon a
    → rfind_colon 0 (value_pos f a - 1) (print_line f a v) ≡ some (length f)
unfolding print_line value_pos
at_name f a v ha =
    let value = b':' ∷ (b' ' ∷ v) in
    let named = b':' ∷ (b' ' ∷ (a ++ value)) in
    let limit = length f + (2 + length a) - 1 in
    let z : 0 + length f ≡ length f = omega arith in
    let skipped : rfind_colon (length f + 1) limit (b' ' ∷ (a ++ value)) ≡ none =
      prefix-none (length f + 1) limit (b' ' ∷ a) value (refl, ha)
        (above-none _ limit value (omega arith)) in
    prefix-some 0 limit (length f) f named
      (rw z (found_here (length f) limit (a ++ value) (omega arith) skipped))

parts :
    (f a v : Bytes)
    → let line = print_line f a v in
      ◌≡◌ {A = Option (Bytes × Bytes)}
        (some (
          take (value_pos f a - (length f + 2)) (drop (length f + 2) line),
          drop (value_pos f a + 2) line,
        ))
        (some (a, v))
unfolding print_line value_pos
parts f a v =
    let value = b':' ∷ (b' ' ∷ v) in
    let named = b':' ∷ (b' ' ∷ (a ++ value)) in
    let n : length f + (2 + length a) - (length f + 2) ≡ length a = omega arith in
    let m : length f + (2 + length a) + 2 ≡ length f + (2 + (length a + 2)) = omega arith in
    let k : 2 + (length a + 2) ≡ suc (suc (length a + 2)) = omega arith in
    rw
      (
        n,
        m,
        drop-past 2 f named,
        drop-past (2 + (length a + 2)) f named,
        k,
        drop-past 2 a value,
        take-append (length a) a value refl,
      )
      refl

-- A line of `git check-attr` is split into the name and the value of the attribute whatever the
-- file name holds, a colon and a space included, if neither the name of the attribute nor its
-- value holds a colon.
pub split_line-print_line :
    (filename attr_name attr_value : Bytes)
    → NoColon attr_name
    → NoColon attr_value
    → split_line (print_line filename attr_name attr_value) ≡ some (attr_name, attr_value)
unfolding split_line
split_line-print_line f a v ha hv =
    let p = value_pos f a in
    let some_way : (p == 0) ≡ false = unfold value_pos in ground arith in
    rw (at_value f a v hv, split_line, some_way, at_name f a v ha) (parts f a v)
