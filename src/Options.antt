-- ===== src/Options.antt =====
-- parse_options.cpp and parse_options.hpp.
-- `argv[argi ..]` is the list of the arguments that are left, so `argc - argi` is its length. The
-- variables that the options point to are numbered slots: two options may share one.
pub mod Total
pub mod Forms
use git_crypt.Base.{
  ℕ, zero, suc, ◌+◌, ◌-◌, ◌*◌, ◌/◌, ◌%◌, ◌^◌, ◌≤◌, ◌<◌, ◌≡◌, refl, sym, ap, ◌∙◌, ◌≢◌, ◌↔◌, ◌⊎◌, inl,
  inr, Bool, true, false, not, ◌&&◌, ◌||◌, Option, none, some, List, [], ◌∷◌, ◌++◌, append_assoc,
  append-nil, Bytes, IsByte, codes, All, All-append, length, take, drop, get_or, replicate, equal,
  equal_iff, equal_refl, ◌==◌, ltb, leb, if◌then◌else◌, arith, Bool-cases, Option-cases, ==_iff,
  length-append, length-take, length-drop, take-append-drop, take_of_le, drop_of_le, take-append,
  drop-append, bit_or, bit_xor, bit_and, map, ==_refl, any_byte, is_nil, decimal,
}
use git_crypt.Base.Results.{
  Exception, error, gpg_error, system_error, crypto_error, option_error, incompatible, malformed,
  invalid_argument, logic_error, Result, ok, err, stuck,
}
use git_crypt.Base.Results.{◌>>=◌, ◌>>◌, guard}

pub record OptionDef : Type 0 where
  pub name : Bytes
  pub is_set : Option ℕ
  pub value : Option ℕ

abbrev pub OptionsList : Type 0
OptionsList = List OptionDef

-- The two constructors that take a pointer.
abbrev pub flag_option : Bytes → ℕ → OptionDef
flag_option name slot = record { name = name; is_set = some slot; value = none }

abbrev pub value_option : Bytes → ℕ → OptionDef
value_option name slot = record { name = name; is_set = none; value = some slot }

-- The flags that were set to true, and the values that were assigned, the latest first.
pub record Settings : Type 0 where
  pub flags : List ℕ
  pub values : List (ℕ × Bytes)

abbrev pub no_settings : Settings
no_settings = record { flags = []; values = [] }

unfoldable pub flag : ℕ → Settings → Bool
flag slot s = any_byte slot s.flags

unfoldable pub assigned : ℕ → List (ℕ × Bytes) → Option Bytes
assigned slot [] = none
assigned slot ((k, v) ∷ m) = if slot == k then some v else assigned slot m

-- A `const char*` that starts as null.
unfoldable pub value_of : ℕ → Settings → Option Bytes
unfolding assigned
value_of slot s = assigned slot s.values

unfoldable pub find_option : OptionsList → Bytes → Option OptionDef
find_option [] name = none
find_option (opt ∷ options) name =
    if equal opt.name name then some opt else find_option options name

-- `if (opt->is_set) { *opt->is_set = true; }`
unfoldable pub set_flag : Option ℕ → Settings → Settings
set_flag none s = s
set_flag (some slot) s = record s { flags = slot ∷ s.flags }

abbrev pub set_value : ℕ → Bytes → Settings → Settings
set_value slot v s = record s { values = (slot, v) ∷ s.values }

-- The value is the next argument.
unfoldable pub take_next : ℕ → Bytes → List Bytes → Settings → Result (Settings × List Bytes)
take_next slot option_name [] s = err (option_error option_name (codes "Option requires a value"))
take_next slot option_name (v ∷ rest) s = ok (set_value slot v s, rest)

-- `opt->value` and `option_value` of a long option, once its flag is set.
unfoldable pub long_value :
    Option ℕ → Bytes → Option Bytes → List Bytes → Settings → Result (Settings × List Bytes)
long_value (some slot) option_name (some v) rest s = ok (set_value slot v s, rest)
long_value (some slot) option_name none rest s = take_next slot option_name rest s
long_value none option_name (some v) rest s =
    err (option_error option_name (codes "Option takes no value"))
long_value none option_name none rest s = ok (s, rest)

abbrev pub with_option : {A : Type 0} → Option OptionDef → Bytes → (OptionDef → Result A) → Result A
with_option none option_name f = err (option_error option_name (codes "Invalid option"))
with_option (some opt) option_name f = f opt

-- `strchr(arg, '=')`: what stands before the first `=`, and what stands behind it.
unfoldable pub split_eq : Bytes → Bytes × Option Bytes
split_eq [] = ([], none)
split_eq (c ∷ s) = let rest = split_eq s in if c == b'=' then ([], some s) else (c ∷ rest.0, rest.1)

unfoldable pub long_option :
    OptionsList → Bytes → List Bytes → Settings → Result (Settings × List Bytes)
unfolding split_eq
long_option options arg rest s =
    let (option_name, option_value) = split_eq arg in
    with_option (find_option options option_name) option_name
      (λ opt. long_value opt.value option_name option_value rest (set_flag opt.is_set s))

-- `opt->value` of a short option with `arg` behind its letter; `more` is the rest of the loop.
unfoldable pub short_value :
    Option ℕ
    → Bytes
    → Bytes
    → List Bytes
    → Settings
    → Result (Settings × List Bytes)
    → Result (Settings × List Bytes)
short_value (some slot) option_name [] rest s more = take_next slot option_name rest s
short_value (some slot) option_name (c ∷ arg) rest s more = ok (set_value slot (c ∷ arg) s, rest)
short_value none option_name arg rest s more = more

-- The loop `while (*arg)` over the letters behind the dash.
unfoldable pub short_options :
    OptionsList → Bytes → List Bytes → Settings → Result (Settings × List Bytes)
short_options options [] rest s = ok (s, rest)
short_options options (c ∷ arg) rest s =
    let option_name = b'-' ∷ (c ∷ []) in
    with_option (find_option options option_name) option_name (λ opt.
      let s' = set_flag opt.is_set s in
      short_value opt.value option_name arg rest s' (short_options options arg rest s'))

-- What the loop does with an argument.
pub data Kind : Type 0 where
  operand end_mark long short : Kind

unfoldable pub kind : Bytes → Kind
kind [] = operand
kind (c ∷ []) = operand
kind (c ∷ (d ∷ s)) =
    if not (c == b'-')
    then operand
    else if not (d == b'-')
    then short
    else if is_nil s
    then end_mark
    else long

unfoldable pub parse_loop : ℕ → OptionsList → List Bytes → Settings → Result (Settings × List Bytes)
parse_loop fuel options [] s = ok (s, [])
parse_loop zero options (arg ∷ rest) s = stuck
parse_loop (suc fuel) options (arg ∷ rest) s = elim (kind arg) [
  | operand ↦ ok (s, arg ∷ rest)
  | end_mark ↦ ok (s, rest)
  | long ↦ (do (s', rest') ← long_option options arg rest s; parse_loop fuel options rest' s')
  | short ↦ (do
    (s', rest') ← short_options options (drop 1 arg) rest s
    parse_loop fuel options rest' s')
]

-- The loop from given settings. Each round takes an argument at least.
abbrev pub parse_from : OptionsList → List Bytes → Settings → Result (Settings × List Bytes)
parse_from options args s = parse_loop (length args) options args s

unfoldable pub parse_options : OptionsList → List Bytes → Result (Settings × List Bytes)
unfolding parse_loop
parse_options options args = parse_from options args no_settings
