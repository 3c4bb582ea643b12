-- ===== src/KeyFile.antt =====
-- key.cpp and key.hpp: the key file in memory. Its format on disk is in KeyFormat.antt.
pub mod Names
pub mod Versions
use git_crypt.Base.{
  ℕ, zero, suc, ◌+◌, ◌*◌, ◌/◌, ◌%◌, ◌^◌, Bool, true, false, not, ◌&&◌, ◌||◌, Option, none, some,
  List, [], ◌∷◌, ◌++◌, Bytes, codes, length, take, drop, get_or, replicate, equal, ◌==◌, ltb, leb,
  if◌then◌else◌,
}
use git_crypt.Base.Results.{
  Result, ok, err, stuck, ◌>>=◌, ◌>>◌, guard, malformed, incompatible, invalid_argument,
}
use git_crypt.Util.{load_be32, store_be32, read_be32, write_be32, explicit_memset}

abbrev pub hmac_key_len : ℕ
hmac_key_len = 64

abbrev pub aes_key_len : ℕ
aes_key_len = 32

abbrev pub key_name_max_len : ℕ
key_name_max_len = 128

abbrev pub format_version : ℕ
format_version = 2

abbrev pub max_field_len : ℕ
max_field_len = 2 ^ 20

pub record Entry : Type 0 where
  pub version : ℕ
  pub aes_key : Bytes
  pub hmac_key : Bytes

-- `std::map` with `std::greater`: the largest version first.
abbrev pub Entries : Type 0
Entries = List (ℕ × Entry)

pub record KeyFile : Type 0 where
  pub entries : Entries
  pub key_name : Bytes

-- The default constructors.
abbrev pub new_entry : Entry
new_entry = record {
  version = 0;
  aes_key = replicate aes_key_len 0;
  hmac_key = replicate hmac_key_len 0;
}

abbrev pub new_key_file : KeyFile
new_key_file = record { entries = []; key_name = [] }

-- `entries[v] = e`
unfoldable pub insert : ℕ → Entry → Entries → Entries
insert v e [] = (v, e) ∷ []
insert v e ((w, f) ∷ m) =
    if ltb w v then (v, e) ∷ ((w, f) ∷ m) else if v == w then (v, e) ∷ m else (w, f) ∷ insert v e m

-- `entries.find(v)`
unfoldable pub find : ℕ → Entries → Option Entry
find v [] = none
find v ((w, f) ∷ m) = if v == w then some f else find v m

unfoldable pub is_empty : KeyFile → Bool
is_empty k = elim k.entries [ [] ↦ true | _ ∷ _ ↦ false ]

abbrev pub is_filled : KeyFile → Bool
is_filled k = not (is_empty k)

first_version : Entries → Result ℕ
first_version [] = err (invalid_argument (codes "Key_file::latest"))
first_version ((v, e) ∷ m) = ok v

unfoldable pub latest : KeyFile → Result ℕ
unfolding first_version
latest k = first_version k.entries

-- The version that `Key_file::generate` makes.
unfoldable pub next_version : KeyFile → Result ℕ
unfolding is_empty latest
next_version k = if is_filled k then (do v ← latest k; ok ((v + 1) % 2 ^ 32)) else ok 0

unfoldable pub get : KeyFile → ℕ → Option Entry
unfolding find
get k version = find version k.entries

unfoldable pub get_latest : KeyFile → Result (Option Entry)
unfolding is_empty latest get
get_latest k = if is_filled k then (do v ← latest k; ok (get k v)) else ok none

unfoldable pub add : KeyFile → Entry → KeyFile
unfolding insert
add k e = record k { entries = insert e.version e k.entries }

-- A null pointer is `none`.
abbrev pub set_key_name : KeyFile → Option Bytes → KeyFile
set_key_name k none = record k { key_name = [] }
set_key_name k (some name) = record k { key_name = name }

-- `s.c_str()`, read as a C string: up to the first NUL.
unfoldable pub c_str : Bytes → Bytes
c_str [] = []
c_str (c ∷ s) = let rest = c_str s in if c == 0 then [] else c ∷ rest

unfoldable pub get_key_name : KeyFile → Option Bytes
unfolding c_str
get_key_name k = elim k.key_name [ [] ↦ none | c ∷ s ↦ some (c_str (c ∷ s)) ]

-- `validate_key_name`: `false` comes with the reason.
pub data Verdict : Type 0 where
  valid : Verdict
  invalid : Bytes → Verdict

-- `std::isalnum` in the C locale, which the program never leaves.
unfoldable pub isalnum : ℕ → Bool
isalnum c = (leb b'0' c && leb c b'9') || (leb b'A' c && leb c b'Z') || (leb b'a' c && leb c b'z')

-- The loop, with `len` characters accepted so far.
unfoldable pub validate_chars : Bytes → ℕ → Verdict
unfolding isalnum
validate_chars [] len = valid
validate_chars (c ∷ s) len =
    if not (isalnum c) && not (c == b'-') && not (c == b'_')
    then invalid (codes "Key names may contain only A-Z, a-z, 0-9, '-', and '_'")
    else if ltb key_name_max_len (len + 1)
    then invalid (codes "Key name is too long")
    else validate_chars s (len + 1)

-- On a C string, which holds no NUL.
unfoldable pub validate_key_name : Bytes → Verdict
unfolding validate_chars
validate_key_name [] = invalid (codes "Key name may not be empty")
validate_key_name (c ∷ s) =
    if equal (c ∷ s) (codes "default")
    then invalid (codes "`default' is not a legal key name")
    else validate_chars (c ∷ s) 0

abbrev pub is_valid : Verdict → Bool
is_valid valid = true
is_valid (invalid reason) = false
