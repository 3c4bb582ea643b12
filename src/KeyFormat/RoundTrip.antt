-- ===== src/KeyFormat/RoundTrip.antt =====
-- What is stored is loaded back.
use git_crypt.Base.{
  ℕ, zero, suc, ◌-◌, ◌%◌, ◌^◌, ◌≤◌, ◌<◌, ◌≡◌, refl, sym, ap, ◌∙◌, ◌≢◌, inl, inr, [], ◌∷◌, ◌++◌,
  append_assoc, append-nil, Bytes, length, arith, length-append, take-append, drop-append, ==_refl,
}
use git_crypt.Base.Results.{ok, ◌>>=◌}
use git_crypt.Util.{load_be32, store_be32}
use git_crypt.Util.Words.{read_be32-store_be32, length-store_be32}
use git_crypt.KeyFile.{
  KeyFile, Entry, Entries, new_entry, add, aes_key_len, hmac_key_len, key_name_max_len,
  format_version, validate_key_name, valid, c_str, insert,
}
use git_crypt.KeyFile.Versions.{IsEntry, IsSorted, IsKeyName, IsWellFormed, Below}
use git_crypt.KeyFormat.{
  or_malformed, need_be32, need_bytes, load_entry_field, load_entry, store_entry, load_key_name,
  load_header_field, load_header, load_entries, magic, load, store_name, store_entries, store,
}

pub need_be32-store_be32 :
    (i : ℕ) (rest : Bytes) → i < 2 ^ 32 → need_be32 (store_be32 i ++ rest) ≡ ok (i, rest)
need_be32-store_be32 i rest h = ap or_malformed (read_be32-store_be32 i rest h)

pub need_bytes-append :
    (n : ℕ) (b rest : Bytes) → length b ≡ n → need_bytes n (b ++ rest) ≡ ok (b, rest)
unfolding need_bytes
need_bytes-append n b rest h = rw (take-append n b rest h, drop-append n b rest h, h, ==_refl n)

-- Reading one field that `store_entry` wrote.
load_version :
    (fuel v : ℕ) (e : Entry) (rest : Bytes)
    → v < 2 ^ 32
    → load_entry (suc fuel) e (store_be32 1 ++ (store_be32 4 ++ (store_be32 v ++ rest)))
      ≡ load_entry fuel (record e { version = v }) rest
unfolding load_entry load_entry_field
load_version fuel v e rest h = rw (
  need_be32-store_be32 1 _ (omega arith),
  need_be32-store_be32 4 _ (omega arith),
  need_be32-store_be32 v rest h,
)

load_aes_key :
    (fuel : ℕ) (k : Bytes) (e : Entry) (rest : Bytes)
    → length k ≡ aes_key_len
    → load_entry (suc fuel) e (store_be32 3 ++ (store_be32 aes_key_len ++ (k ++ rest)))
      ≡ load_entry fuel (record e { aes_key = k }) rest
unfolding load_entry load_entry_field
load_aes_key fuel k e rest h =
    rw (need_be32-store_be32 3 _ (omega arith), need_be32-store_be32 aes_key_len _ (omega arith))
      (rw (need_bytes-append aes_key_len k rest h))

load_hmac_key :
    (fuel : ℕ) (k : Bytes) (e : Entry) (rest : Bytes)
    → length k ≡ hmac_key_len
    → load_entry (suc fuel) e (store_be32 5 ++ (store_be32 hmac_key_len ++ (k ++ rest)))
      ≡ load_entry fuel (record e { hmac_key = k }) rest
unfolding load_entry load_entry_field
load_hmac_key fuel k e rest h =
    rw (need_be32-store_be32 5 _ (omega arith), need_be32-store_be32 hmac_key_len _ (omega arith))
      (rw (need_bytes-append hmac_key_len k rest h))

load_end :
    (fuel : ℕ) (e : Entry) (rest : Bytes)
    → load_entry (suc fuel) e (store_be32 0 ++ rest) ≡ ok (e, rest)
unfolding load_entry
load_end fuel e rest = rw (need_be32-store_be32 0 rest (omega arith))

-- Whatever the entry held before, it holds what was stored afterwards.
load_entry-store_entry :
    (fuel : ℕ) (e old : Entry) (rest : Bytes)
    → IsEntry e
    → load_entry (suc (suc (suc (suc fuel)))) old (store_entry e ++ rest) ≡ ok (e, rest)
unfolding store_entry
load_entry-store_entry fuel e old rest (hv, ha, hh) = simp append_assoc (
    load_version _ e.version old _ hv
    ∙ load_aes_key _ e.aes_key _ _ ha
    ∙ load_hmac_key _ e.hmac_key _ _ hh
    ∙ load_end fuel e rest)

store_entry-long : (e : Entry) (rest : Bytes) → 4 ≤ length (store_entry e ++ rest)
unfolding store_entry
store_entry-long e rest = simp (append_assoc, length-append, length-store_be32) (omega arith)

store_entry-size : (e : Entry) → 4 ≤ length (store_entry e)
store_entry-size e = rw (append-nil (store_entry e)) at (store_entry-long e [])

load_entries_step :
    (fuel : ℕ) (k : KeyFile) (s : Bytes) {e : Entry} {rest : Bytes}
    → s ≢ []
    → load_entry (suc (length s)) new_entry s ≡ ok (e, rest)
    → load_entries (suc fuel) k s ≡ load_entries fuel (add k e) rest
unfolding load_entries
load_entries_step fuel k [] ne h = absurd (ne refl)
load_entries_step fuel k (c ∷ s) ne h = rw h

Below-member : (w v : ℕ) (e : Entry) (before m : Entries) → Below w (before ++ ((v, e) ∷ m)) → v < w
Below-member w v e [] m b = b.0
Below-member w v e (x ∷ before) m b = Below-member w v e before m b.1

insert_last :
    (before m : Entries) (v : ℕ) (e : Entry)
    → IsSorted (before ++ ((v, e) ∷ m))
    → insert v e before ≡ before ++ ((v, e) ∷ [])
unfolding insert
insert_last [] m v e s = refl
insert_last ((w, f) ∷ before) m v e (q, hf, b, s) =
    ground (arith, Below-member w v e before m b, insert_last before m v e s)

IsSorted-tail : (before m : Entries) → IsSorted (before ++ m) → IsSorted m
IsSorted-tail [] m s = s
IsSorted-tail (x ∷ before) m (q, hf, b, s) = IsSorted-tail before m s

-- The head of what is left to store, with the entries loaded so far.
load_entries_head :
    (fuel : ℕ) (before m : Entries) (name : Bytes) (v : ℕ) (e : Entry)
    → IsSorted (before ++ ((v, e) ∷ m))
    → load_entries
        (suc fuel)
        (record { entries = before; key_name = name })
        (store_entry e ++ store_entries m)
      ≡ load_entries fuel
          (record { entries = before ++ ((v, e) ∷ []); key_name = name })
          (store_entries m)
unfolding add
load_entries_head fuel before m name v e s =
    let (q, he, _, _) = IsSorted-tail before ((v, e) ∷ m) s in
    let rest = store_entries m in
    let long = store_entry-long e rest in
    let n = suc (length (store_entry e ++ rest)) in
    let ne : store_entry e ++ rest ≢ [] = λ h. absurd (omega (arith, ap length h)) in
    let enough : n ≡ suc (suc (suc (suc (n - 4)))) = omega arith in
    let found : load_entry n new_entry (store_entry e ++ rest) ≡ ok (e, rest) =
      rw enough (load_entry-store_entry (n - 4) e new_entry rest he) in
    load_entries_step fuel _ (store_entry e ++ rest) ne found
    ∙ ap (λ (m' : Entries). load_entries fuel (record { entries = m'; key_name = name }) rest)
        (ap (λ (u : ℕ). insert u e before) (sym q) ∙ insert_last before m v e s)

load_entries-store_entries :
    (m before : Entries) (name : Bytes) (fuel : ℕ)
    → IsSorted (before ++ m)
    → length (store_entries m) ≤ fuel
    → load_entries fuel (record { entries = before; key_name = name }) (store_entries m)
      ≡ ok (record { entries = before ++ m; key_name = name })
unfolding store_entries
load_entries-store_entries [] before name fuel s h = unfold load_entries in rw (append-nil before)
load_entries-store_entries ((v, e) ∷ m) before name zero s h =
    absurd (omega (arith, store_entry-long e (store_entries m)))
load_entries-store_entries ((v, e) ∷ m) before name (suc fuel) s h =
    load_entries_head fuel before m name v e s
    ∙ load_entries-store_entries m (before ++ ((v, e) ∷ [])) name fuel
        (rw (append_assoc before ((v, e) ∷ []) m) s)
        (omega (arith, length-append (store_entry e) (store_entries m), store_entry-size e))
    ∙ rw (append_assoc before ((v, e) ∷ []) m)

load_header_end :
    (fuel : ℕ) (name rest : Bytes)
    → load_header (suc fuel) name (store_be32 0 ++ rest) ≡ ok (name, rest)
unfolding load_header
load_header_end fuel name rest = rw (need_be32-store_be32 0 rest (omega arith))

load_key_name_lem :
    (c : ℕ) (s rest : Bytes)
    → length (c ∷ s) ≤ key_name_max_len
    → validate_key_name (c_str (c ∷ s)) ≡ valid
    → load_key_name (length (c ∷ s)) (c ∷ (s ++ rest)) ≡ ok (c ∷ s, rest)
unfolding load_key_name
load_key_name_lem c s rest h v =
    ground (arith, need_bytes-append (length (c ∷ s)) (c ∷ s) rest refl, v)

load_header-store_name :
    (fuel : ℕ) (name rest : Bytes)
    → IsKeyName name
    → load_header (suc (suc fuel)) [] (store_name name ++ (store_be32 0 ++ rest)) ≡ ok (name, rest)
unfolding store_name
load_header-store_name fuel [] rest h = load_header_end (suc fuel) [] rest
load_header-store_name fuel (c ∷ s) rest (inl h) = cc
load_header-store_name fuel (c ∷ s) rest (inr (h, v)) =
    let small : length (c ∷ s) % 2 ^ 32 ≡ length (c ∷ s) = omega arith in
    simp (small, append_assoc)
      (unfold load_header load_header_field in
        rw
          (
            need_be32-store_be32 1 _ (omega arith),
            need_be32-store_be32 (length (c ∷ s)) _ (omega arith),
          )
          (rw (load_key_name_lem c s (store_be32 0 ++ rest) h v)
            (load_header_end fuel (c ∷ s) rest)))

-- The fixed part of the file, and what is read after it.
load_body :
    (s : Bytes)
    → load (magic ++ (store_be32 format_version ++ s)) ≡ (do
      (name, rest) ← load_header (suc (length s)) [] s
      load_entries (length rest) (record { entries = []; key_name = name }) rest)
unfolding load need_bytes store_be32 load_be32
load_body s = refl

-- A well-formed key file is loaded back exactly as it was stored, whatever the key bytes are.
pub load-store : (k : KeyFile) → IsWellFormed k → load (store k) ≡ ok k
unfolding store
load-store k w =
    let rest = store_entries k.entries in
    let s = store_name k.key_name ++ (store_be32 0 ++ rest) in
    let long : 1 ≤ length s = rw (length-append, length-append, length-store_be32) (omega arith) in
    let enough : suc (length s) ≡ suc (suc (length s - 1)) = omega arith in
    let header : load_header (suc (length s)) [] s ≡ ok (k.key_name, rest) =
      rw enough (load_header-store_name (length s - 1) k.key_name rest w.named) in
    simp append_assoc (
      load_body s
      ∙ rw header
          (load_entries-store_entries k.entries [] k.key_name (length rest) w.sorted (omega arith)))
