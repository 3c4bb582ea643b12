-- ===== src/Options/Total.antt =====
-- How far the options reach, and that parsing always ends.
use git_crypt.Base.{
  ℕ, zero, suc, ◌≤◌, ◌≡◌, refl, sym, ◌⊎◌, inl, inr, Option, none, some, List, [], ◌∷◌, Bytes,
  length, drop, arith,
}
use git_crypt.Base.Results.{option_error, Result, ok, err, stuck}
use git_crypt.Base.Results.{◌>>=◌}
use mathlib.Core.Path.{subst}
use git_crypt.Options.{
  OptionDef, OptionsList, Settings, no_settings, find_option, set_flag, take_next, long_value,
  short_value, with_option, long_option, short_options, Kind, operand, end_mark, long, short, kind,
  parse_loop, parse_options,
}

-- The run returns a value with `P`, or throws Option_error; it does nothing else.
abbrev pub Parses : {A : Type 0} → (A → Type 0) → Result A → Type 0
Parses P (ok a) = P a
Parses P (err (option_error name message)) = Unit
Parses P (err _) = ⊥
Parses P stuck = ⊥

abbrev pub IsOption : Bytes → Type 0
IsOption arg = (kind arg ≡ long) ⊎ (kind arg ≡ short)

-- The arguments on the left are read, and those on the right are left.
pub data Consumes : List Bytes → List Bytes → Type 0 where
  finished : Consumes [] []
  at_operand :
      {arg : Bytes} {rest : List Bytes} → kind arg ≡ operand → Consumes (arg ∷ rest) (arg ∷ rest)
  at_mark : {arg : Bytes} {rest : List Bytes} → kind arg ≡ end_mark → Consumes (arg ∷ rest) rest
  option :
      {arg : Bytes} {rest left : List Bytes}
      → IsOption arg
      → Consumes rest left
      → Consumes (arg ∷ rest) left
  with_value :
      {arg v : Bytes} {rest left : List Bytes}
      → IsOption arg
      → Consumes rest left
      → Consumes (arg ∷ (v ∷ rest)) left

-- An option took nothing more, or the next argument.
abbrev pub Took : List Bytes → Settings × List Bytes → Type 0
Took rest (s, left) = (left ≡ rest) ⊎ ((v : Bytes) × (rest ≡ v ∷ left))

take_next-Parses :
    (slot : ℕ) (name : Bytes) (rest : List Bytes) (s : Settings)
    → Parses (Took rest) (take_next slot name rest s)
unfolding take_next
take_next-Parses slot name [] s = tt
take_next-Parses slot name (v ∷ rest) s = inr (v, refl)

with_option-Parses :
    {A : Type 0} (P : A → Type 0) (o : Option OptionDef) (name : Bytes) (f : OptionDef → Result A)
    → ((opt : OptionDef) → Parses P (f opt))
    → Parses P (with_option o name f)
with_option-Parses P none name f h = tt
with_option-Parses P (some opt) name f h = h opt

long_value-Parses :
    (value : Option ℕ) (name : Bytes) (v : Option Bytes) (rest : List Bytes) (s : Settings)
    → Parses (Took rest) (long_value value name v rest s)
unfolding long_value
long_value-Parses (some slot) name (some v) rest s = inl refl
long_value-Parses (some slot) name none rest s = take_next-Parses slot name rest s
long_value-Parses none name (some v) rest s = tt
long_value-Parses none name none rest s = inl refl

short_value-Parses :
    (value : Option ℕ) (name arg : Bytes) (rest : List Bytes) (s : Settings)
    (more : Result (Settings × List Bytes))
    → Parses (Took rest) more
    → Parses (Took rest) (short_value value name arg rest s more)
unfolding short_value
short_value-Parses (some slot) name [] rest s more h = take_next-Parses slot name rest s
short_value-Parses (some slot) name (c ∷ arg) rest s more h = inl refl
short_value-Parses none name arg rest s more h = h

pub long_option-Parses :
    (options : OptionsList) (arg : Bytes) (rest : List Bytes) (s : Settings)
    → Parses (Took rest) (long_option options arg rest s)
unfolding long_option
long_option-Parses options arg rest s =
    with_option-Parses (Took rest) _ _ _ (λ opt. long_value-Parses opt.value _ _ rest _)

pub short_options-Parses :
    (options : OptionsList) (arg : Bytes) (rest : List Bytes) (s : Settings)
    → Parses (Took rest) (short_options options arg rest s)
unfolding short_options
short_options-Parses options [] rest s = inl refl
short_options-Parses options (c ∷ arg) rest s =
    with_option-Parses (Took rest) (find_option options (b'-' ∷ (c ∷ []))) _ _ (λ opt.
      let s' = set_flag opt.is_set s in
      short_value-Parses opt.value _ arg rest s' _ (short_options-Parses options arg rest s'))

Parses-bind :
    {A B : Type 0} (P : A → Type 0) (Q : B → Type 0) (m : Result A) (f : A → Result B)
    → Parses P m
    → ((a : A) → P a → Parses Q (f a))
    → Parses Q (m >>= f)
Parses-bind P Q (ok a) f h k = k a h
Parses-bind P Q (err (option_error name message)) f h k = tt
Parses-bind P Q (err _) f h k = absurd h
Parses-bind P Q stuck f h k = absurd h

Parses-mono :
    {A : Type 0} (P Q : A → Type 0) (m : Result A) → Parses P m → ((a : A) → P a → Q a) → Parses Q m
Parses-mono P Q (ok a) h k = k a h
Parses-mono P Q (err (option_error name message)) h k = tt
Parses-mono P Q (err _) h k = absurd h
Parses-mono P Q stuck h k = absurd h

abbrev pub Read : List Bytes → Settings × List Bytes → Type 0
Read args (s, left) = Consumes args left

-- What an option took, put in front of what the rest of the loop reads.
after_option :
    {arg : Bytes} {rest middle left : List Bytes} (s : Settings)
    → IsOption arg
    → Took rest (s, middle)
    → Consumes middle left
    → Consumes (arg ∷ rest) left
after_option {arg} {left} s k (inl e) c = option k (subst (λ r. Consumes r left) e c)
after_option {arg} {left} s k (inr (v, e)) c =
    subst (λ r. Consumes (arg ∷ r) left) (sym e) (with_value k c)

pub Took-le :
    (rest middle : List Bytes) (s : Settings) → Took rest (s, middle) → length middle ≤ length rest
Took-le rest middle s (inl e) = rw e (omega arith)
Took-le rest middle s (inr (v, e)) = rw e (omega arith)

pub Kind-cases : (k : Kind) → (k ≡ operand) ⊎ (k ≡ end_mark) ⊎ (k ≡ long) ⊎ (k ≡ short)
Kind-cases operand = inl refl
Kind-cases end_mark = inr (inl refl)
Kind-cases long = inr (inr (inl refl))
Kind-cases short = inr (inr (inr refl))

parse_loop-Parses :
    (fuel : ℕ) (options : OptionsList) (args : List Bytes) (s : Settings)
    → length args ≤ fuel
    → Parses (Read args) (parse_loop fuel options args s)
unfolding parse_loop
parse_loop-Parses fuel options [] s h = finished
parse_loop-Parses zero options (arg ∷ rest) s h = absurd (omega arith)
parse_loop-Parses (suc fuel) options (arg ∷ rest) s h =
    let go_on : (m : Result (Settings × List Bytes))
        → IsOption arg
        → Parses (Took rest) m
        → Parses (Read (arg ∷ rest)) (m >>= λ (s', left). parse_loop fuel options left s') =
      λ m k p. Parses-bind (Took rest) (Read (arg ∷ rest)) m _ p λ (s', middle) took.
        Parses-mono (Read middle) (Read (arg ∷ rest)) (parse_loop fuel options middle s')
          (parse_loop-Parses fuel options middle s' (omega (arith, Took-le rest middle s' took)))
          (λ (s2, left) c. after_option s' k took c) in
    elim (Kind-cases (kind arg)) [
      | inl k ↦ rw (k, parse_loop) (at_operand k)
      | inr (inl k) ↦ rw (k, parse_loop) (at_mark k)
      | inr (inr (inl k)) ↦
          rw (k, parse_loop) (go_on _ (inl k) (long_option-Parses options arg rest s))
      | inr (inr (inr k)) ↦
          rw (k, parse_loop) (go_on _ (inr k) (short_options-Parses options (drop 1 arg) rest s))
    ]

-- Parsing ends on all arguments, by an answer or by an Option_error, and reads from the left: up
-- to the first operand or past the first end mark; every argument before that is an option or the
-- value of the option before it.
pub parse_options-Consumes :
    (options : OptionsList) (args : List Bytes) → Parses (Read args) (parse_options options args)
unfolding parse_options
parse_options-Consumes options args =
    parse_loop-Parses (length args) options args no_settings (omega arith)
