-- ===== src/KeyStore/Generate.antt =====
-- key.cpp, `Key_file::generate`: the key that it adds.
use git_crypt.Base.{
  ℕ, ◌+◌, ◌%◌, ◌^◌, ◌<◌, ◌≡◌, refl, ◌∙◌, ◌≢◌, inr, false, none, some, [], ◌∷◌, Bytes, length, ◌==◌,
  arith, ==_refl,
}
use git_crypt.Base.Results.{ok}
use git_crypt.Host.{Host}
use git_crypt.Exec.{World}
use git_crypt.Exec.System.{random_bytes}
use git_crypt.KeyFile.{
  KeyFile, Entry, Entries, next_version, find, insert, latest, get, get_latest, add, aes_key_len,
  hmac_key_len,
}
use git_crypt.KeyFile.Versions.{
  Below-trans, IsWellFormed, IsSorted, Below, add-IsWellFormed, get-add,
}
use git_crypt.KeyStore.{generate, generate_entry}

-- Documented behaviour of `RAND_bytes`: it gives as many bytes as were asked for.
abbrev pub Draws : ⦃H : Host⦄ → Type 0
Draws ⦃H⦄ =
    (n : ℕ) (h : H.State)
    → (bytes : Bytes) × (h' : H.State) × (H.rand_bytes n h ≡ (inr bytes, h')) × (length bytes ≡ n)

-- The version that is free: no entry has it, and it is above all of them.
by_entries :
    (m : Entries) (name : Bytes)
    → IsSorted m
    → let k : KeyFile = record { entries = m; key_name = name } in
      ((v : ℕ) → latest k ≡ ok v → v + 1 < 2 ^ 32)
      → (v : ℕ) × (next_version k ≡ ok v) × (v < 2 ^ 32) × Below v m
unfolding next_version
by_entries [] name s room = (0, refl, omega arith, tt)
by_entries ((v, e) ∷ m) name (q, he, b, s) room =
    let small : v + 1 < 2 ^ 32 = room v refl in
    let whole : (v + 1) % 2 ^ 32 ≡ v + 1 = omega arith in
    (v + 1, rw whole refl, small, (omega arith, Below-trans v (v + 1) m (omega arith) b))

insert_above : (v : ℕ) (e : Entry) (m : Entries) → Below v m → insert v e m ≡ (v, e) ∷ m
unfolding insert
insert_above v e [] b = refl
insert_above v e ((w, f) ∷ m) (p, b) = ground arith

find_above : (v : ℕ) (m : Entries) → Below v m → find v m ≡ none
unfolding find
find_above v [] b = refl
find_above v ((w, f) ∷ m) (p, b) = ground (arith, find_above v m b)

next_version_free :
    (k : KeyFile)
    → IsWellFormed k
    → ((v : ℕ) → latest k ≡ ok v → v + 1 < 2 ^ 32)
    → (v : ℕ) × (next_version k ≡ ok v) × (v < 2 ^ 32) × Below v k.entries
next_version_free k f room = by_entries k.entries k.key_name f.sorted room

module _ ⦃H : Host⦄ where
  -- Where random bytes can be drawn, `generate` on a well-formed key file whose latest version is
  -- below 2 ^ 32 - 1 adds an entry under a version that no entry had, keeps every other entry and
  -- the well-formedness, and the new entry is the latest.
  pub generate-get_latest :
      (k : KeyFile) (w : World)
      → Draws
      → IsWellFormed k
      → ((v : ℕ) → latest k ≡ ok v → v + 1 < 2 ^ 32)
      → (k' : KeyFile) × (h : H.State) × (e : Entry) × (generate k w
          ≡ (ok k', record w { host = h }))
        × IsWellFormed k'
        × (get_latest k' ≡ ok (some e))
        × (get k e.version ≡ none)
        × ((j : ℕ) → j ≢ e.version → get k' j ≡ get k j)
  unfolding generate generate_entry random_bytes add get_latest
  generate-get_latest k w draws f room =
      let (v, next, small, below) = next_version_free k f room in
      let (aes, h1, drawn1, n1) = draws aes_key_len w.host in
      let (hmac, h2, drawn2, n2) = draws hmac_key_len h1 in
      let e : Entry = record { version = v; aes_key = aes; hmac_key = hmac } in
      let k' = add k e in
      let f' = add-IsWellFormed k e f (small, n1, n2) in
      (
        k',
        h2,
        e,
        rw (next, drawn1, drawn2) refl,
        f',
        rw (insert_above v e k.entries below) (rw (==_refl v) refl),
        find_above v k.entries below,
        λ j ne. let other : (j == v) ≡ false = ground arith in get-add k e j ∙ rw other refl,
      )
