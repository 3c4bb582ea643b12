-- ===== src/Tests/Keys.antt =====
-- Keys and key files.
use git_crypt.Base.{
  ℕ, ◌+◌, ◌^◌, ◌≤◌, ◌<◌, ◌≡◌, refl, ◌≢◌, ◌↔◌, false, none, some, List, [], ◌∷◌, ◌++◌, Bytes, codes,
  All, length, replicate, arith,
}
use git_crypt.Base.Results.{malformed, ok, err}
use git_crypt.KeyFile.{
  KeyFile, Entry, get, get_latest, add, latest, validate_key_name, valid, is_valid,
  key_name_max_len,
}
use git_crypt.KeyFile.Names.{IsNameChar, validate_key_name_iff}
use git_crypt.KeyFile.Versions.{IsEntry, IsWellFormed, add-IsWellFormed}
use git_crypt.Util.{load_be32, read_be32}
use git_crypt.KeyFormat.{need_bytes, load, store, load_header, magic}
use git_crypt.KeyFormat.RoundTrip.{load-store}
use git_crypt.KeyFormat.Reading.{Loads, load-Loads}
use git_crypt.KeyStore.{generate}
use git_crypt.KeyStore.Generate.{generate-get_latest}
use git_crypt.Tests.Toy.{toy_host, world, toy_key_file, toy_key_file-IsWellFormed, toy-Draws}

abbrev named : Bytes
named = codes "team-1"

abbrev newer_entry : Entry
newer_entry = record { version = 4; aes_key = replicate 32 9; hmac_key = replicate 64 8 }

newer_entry-IsEntry : IsEntry newer_entry
newer_entry-IsEntry = (omega arith, refl, refl)

validate_key_name_iff_example : (validate_key_name named ≡ valid) ↔ (
    (named ≢ [])
    × (named ≢ codes "default")
    × (length named ≤ key_name_max_len)
    × All IsNameChar named)
validate_key_name_iff_example = validate_key_name_iff named

validate_key_name-named : validate_key_name named ≡ valid
unfolding validate_key_name
validate_key_name-named = refl

validate_key_name-default : is_valid (validate_key_name (codes "default")) ≡ false
unfolding validate_key_name
validate_key_name-default = refl

add-IsWellFormed_example : IsWellFormed (add toy_key_file newer_entry)
add-IsWellFormed_example =
    add-IsWellFormed toy_key_file newer_entry toy_key_file-IsWellFormed newer_entry-IsEntry

get_latest-newer : get_latest (add toy_key_file newer_entry) ≡ ok (some newer_entry)
unfolding get_latest add
get_latest-newer = refl

load-store_example : load (store toy_key_file) ≡ ok toy_key_file
load-store_example = load-store toy_key_file toy_key_file-IsWellFormed

load-Loads_example : Loads IsWellFormed (load (magic ++ (0 ∷ (0 ∷ (0 ∷ (2 ∷ []))))))
load-Loads_example = load-Loads (magic ++ (0 ∷ (0 ∷ (0 ∷ (2 ∷ []))))) (ground arith)

load-short : load (magic ++ (0 ∷ (0 ∷ (0 ∷ (2 ∷ []))))) ≡ err malformed
unfolding load need_bytes load_be32 load_header read_be32
load-short = refl

only_version_0 : (v : ℕ) → latest toy_key_file ≡ ok v → v + 1 < 2 ^ 32
unfolding latest
only_version_0 v e = ground arith

generate-get_latest_example :
    (k' : KeyFile) × (h : List (Bytes × Bytes)) × (e : Entry) × (generate toy_key_file (world [] [])
      ≡ (ok k', record (world [] []) { host = h }))
    × IsWellFormed k'
    × (get_latest k' ≡ ok (some e))
    × (get toy_key_file e.version ≡ none)
    × ((j : ℕ) → j ≢ e.version → get k' j ≡ get toy_key_file j)
generate-get_latest_example =
    generate-get_latest toy_key_file (world [] []) toy-Draws toy_key_file-IsWellFormed
      only_version_0
