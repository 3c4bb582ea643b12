-- ===== src/Options/Forms.antt =====
-- Different ways to write an option are parsed alike.
use git_crypt.Base.{
  ℕ, zero, suc, ◌≤◌, ◌≡◌, refl, ◌≢◌, inl, inr, false, none, some, List, [], ◌∷◌, ◌++◌, Bytes,
  length, drop, arith, any_byte,
}
use git_crypt.Base.Results.{Result, ok, err, stuck}
use git_crypt.Base.Results.{◌>>=◌}
use git_crypt.Options.{
  OptionDef, OptionsList, Settings, find_option, set_flag, set_value, take_next, long_value,
  short_value, split_eq, long_option, short_options, long, short, kind, parse_loop, parse_from,
}
use git_crypt.Options.Total.{
  Parses, Took, Took-le, long_option-Parses, short_options-Parses, Kind-cases,
}

-- Two ways to go on that agree on what an option can leave.
bind-agree :
    (rest : List Bytes) (m : Result (Settings × List Bytes))
    (f g : Settings × List Bytes → Result (Settings × List Bytes))
    → Parses (Took rest) m
    → ((s : Settings) (left : List Bytes) → length left ≤ length rest → f (s, left) ≡ g (s, left))
    → (m >>= f) ≡ (m >>= g)
bind-agree rest (ok (s, left)) f g p h = h s left (Took-le rest left s p)
bind-agree rest (err e) f g p h = refl
bind-agree rest stuck f g p h = refl

-- More fuel than arguments changes nothing.
parse_loop-fuel :
    (f g : ℕ) (options : OptionsList) (args : List Bytes) (s : Settings)
    → length args ≤ f
    → length args ≤ g
    → parse_loop f options args s ≡ parse_loop g options args s
unfolding parse_loop
parse_loop-fuel f g options [] s hf hg = refl
parse_loop-fuel zero g options (arg ∷ rest) s hf hg = absurd (omega arith)
parse_loop-fuel (suc f) zero options (arg ∷ rest) s hf hg = absurd (omega arith)
parse_loop-fuel (suc f) (suc g) options (arg ∷ rest) s hf hg =
    let again = λ (s' : Settings) (left : List Bytes) (l : length left ≤ length rest).
      parse_loop-fuel f g options left s' (omega arith) (omega arith) in
    elim (Kind-cases (kind arg)) [
      | inl k ↦ rw (k, parse_loop)
      | inr (inl k) ↦ rw (k, parse_loop)
      | inr (inr (inl k)) ↦
          rw (k, parse_loop) (bind-agree rest _ _ _ (long_option-Parses options arg rest s) again)
      | inr (inr (inr k)) ↦
          rw (k, parse_loop)
            (bind-agree rest _ _ _ (short_options-Parses options (drop 1 arg) rest s) again)
    ]

split_eq-none : (name : Bytes) → any_byte b'=' name ≡ false → split_eq name ≡ (name, none)
unfolding split_eq any_byte
split_eq-none [] h = refl
split_eq-none (c ∷ s) h = ground (arith, split_eq-none s)

split_eq-some :
    (name v : Bytes) → any_byte b'=' name ≡ false → split_eq (name ++ (b'=' ∷ v)) ≡ (name, some v)
unfolding split_eq any_byte
split_eq-some [] v h = refl
split_eq-some (c ∷ s) v h = ground (arith, split_eq-some s v)

kind_long : (name t : Bytes) → kind name ≡ long → kind (name ++ t) ≡ long
unfolding kind
kind_long [] t h = cc
kind_long (c ∷ []) t h = cc
kind_long (c ∷ (d ∷ [])) t h = ground arith
kind_long (c ∷ (d ∷ (e ∷ s))) t h = ground arith

-- One round of the loop at an option.
loop_long :
    (fuel : ℕ) (options : OptionsList) (arg : Bytes) (rest : List Bytes) (s : Settings)
    → kind arg ≡ long
    → parse_loop (suc fuel) options (arg ∷ rest) s
      ≡ (long_option options arg rest s >>= λ (s', left). parse_loop fuel options left s')
unfolding parse_loop
loop_long fuel options arg rest s k = rw (k, parse_loop)

loop_short :
    (fuel : ℕ) (options : OptionsList) (arg : Bytes) (rest : List Bytes) (s : Settings)
    → kind arg ≡ short
    → parse_loop (suc fuel) options (arg ∷ rest) s ≡ (
        short_options options (drop 1 arg) rest s >>= λ (s', left). parse_loop fuel options left s')
unfolding parse_loop
loop_short fuel options arg rest s k = rw (k, parse_loop)

kind_short : (c : ℕ) (v : Bytes) → c ≢ b'-' → kind (b'-' ∷ (c ∷ v)) ≡ short
unfolding kind
kind_short c v h = ground arith

module _ (options : OptionsList) (opt : OptionDef) (slot : ℕ) (rest : List Bytes) (s : Settings)
    (has_value : opt.value ≡ some slot) where
  abbrev after : Bytes → Settings
  after v = set_value slot v (set_flag opt.is_set s)

  long_option_eq :
      (name v : Bytes)
      → any_byte b'=' name ≡ false
      → find_option options name ≡ some opt
      → long_option options (name ++ (b'=' ∷ v)) rest s ≡ ok (after v, rest)
  unfolding long_option
  long_option_eq name v e f = rw (split_eq-some name v e, f, has_value) (unfold long_value in refl)

  long_option_next :
      (name v : Bytes)
      → any_byte b'=' name ≡ false
      → find_option options name ≡ some opt
      → long_option options name (v ∷ rest) s ≡ ok (after v, rest)
  unfolding long_option
  long_option_next name v e f =
      rw (split_eq-none name e, f, has_value) (unfold long_value take_next in refl)

  short_options_joined :
      (c d : ℕ) (v : Bytes)
      → find_option options (b'-' ∷ (c ∷ [])) ≡ some opt
      → short_options options (c ∷ (d ∷ v)) rest s ≡ ok (after (d ∷ v), rest)
  unfolding short_options
  short_options_joined c d v f = rw (f, has_value) (unfold short_value in refl)

  short_options_next :
      (c : ℕ) (v : Bytes)
      → find_option options (b'-' ∷ (c ∷ [])) ≡ some opt
      → short_options options (c ∷ []) (v ∷ rest) s ≡ ok (after v, rest)
  unfolding short_options
  short_options_next c v f = rw (f, has_value) (unfold short_value take_next in refl)

  -- For a long option that is in the table, takes a value and has no '=' in its name,
  -- `--name=value` is parsed as `--name value` is.
  pub parse_from_long :
      (name v : Bytes)
      → kind name ≡ long
      → any_byte b'=' name ≡ false
      → find_option options name ≡ some opt
      → parse_from options ((name ++ (b'=' ∷ v)) ∷ rest) s
        ≡ parse_from options (name ∷ (v ∷ rest)) s
  parse_from_long name v k e f =
      rw
        (
          loop_long (length rest) options (name ++ (b'=' ∷ v)) rest s (kind_long name (b'=' ∷ v) k),
          long_option_eq name v e f,
          loop_long (length (v ∷ rest)) options name (v ∷ rest) s k,
          long_option_next name v e f,
        )
        (parse_loop-fuel _ _ options rest (after v) (omega arith) (omega arith))

  -- For a short option that is in the table and takes a value, `-kvalue` is parsed as `-k value`
  -- is, if the value is not empty.
  pub parse_from_short :
      (c d : ℕ) (v : Bytes)
      → c ≢ b'-'
      → find_option options (b'-' ∷ (c ∷ [])) ≡ some opt
      → parse_from options ((b'-' ∷ (c ∷ (d ∷ v))) ∷ rest) s
        ≡ parse_from options ((b'-' ∷ (c ∷ [])) ∷ ((d ∷ v) ∷ rest)) s
  parse_from_short c d v n f =
      rw
        (
          loop_short (length rest) options (b'-' ∷ (c ∷ (d ∷ v))) rest s (kind_short c (d ∷ v) n),
          short_options_joined c d v f,
          loop_short (length ((d ∷ v) ∷ rest)) options (b'-' ∷ (c ∷ [])) ((d ∷ v) ∷ rest) s
              (kind_short c [] n),
          short_options_next c (d ∷ v) f,
        )
        (parse_loop-fuel _ _ options rest (after (d ∷ v)) (omega arith) (omega arith))
