-- ===== src/Clean/Reading.antt =====
-- commands.cpp, `clean`: what its reading loop collects.
use git_crypt.Base.{
  ℕ, zero, suc, ◌+◌, ◌≤◌, ◌<◌, ◌≡◌, refl, ◌∙◌, ◌≢◌, ◌⊎◌, inl, inr, true, Option, none, some, [],
  ◌++◌, append_assoc, append-nil, Bytes, length, take, drop, ◌==◌, ltb, leb, arith, Bool-cases,
  Option-cases, ==_iff, length-append, length-take, length-drop, take-append-drop, take_of_le,
}
use git_crypt.Base.Results.{ok}
use git_crypt.Host.{Host}
use mathlib.Core.Path.{subst}
use git_crypt.Exec.{World}
use git_crypt.Exec.System.{open_temp_file}
use git_crypt.Crypto.{max_crypt_bytes, hmac_add}
use git_crypt.Clean.{Plaintext, memory_limit, keep_buffer, read_plaintext}

-- What was spilt to the temporary file, if it is open.
abbrev pub spilt : Option Bytes → Bytes
spilt none = []
spilt (some s) = s

module _ ⦃H : Host⦄ where
  -- What the whole input was: the part in memory, and then the part that was spilt.
  abbrev pub contents : Plaintext → Bytes
  contents p = p.file_contents ++ spilt p.temp_file

  -- Once the temporary file is open, nothing more goes to memory.
  pub record IsOrdered (p : Plaintext) : Type 0 where
    pub in_memory : (p.temp_file ≡ none) ⊎ (memory_limit < p.file_size)

  -- Documented behaviour of the system: a temporary file can be made, and making it touches
  -- nothing but the system's own state.
  abbrev pub TempOpens : Type 0
  TempOpens = (w : World) → (h : H.State) × (open_temp_file w ≡ (ok tt, record w { host = h }))

  -- `q` is `p` with `input` read.
  pub record HasRead (p : Plaintext) (input : Bytes) (q : Plaintext) : Type 0 where
    pub hashed : q.hmac ≡ hmac_add H.openssl p.hmac input
    pub counted : q.file_size ≡ p.file_size + length input
    pub collected : contents q ≡ contents p ++ input
    pub ordered : IsOrdered q

  in_memory-none : (p : Plaintext) → IsOrdered p → p.file_size ≤ memory_limit → p.temp_file ≡ none
  in_memory-none p o small = elim o.in_memory [
    | inl e ↦ e
    | inr large ↦ absurd (omega (arith, small, large))
  ]

  module _ (opens : TempOpens) where
    -- A buffer goes to memory, to a new temporary file or to the one that is open.
    pub keep_buffer_lem :
        (buffer : Bytes) (p : Plaintext) (w : World)
        → IsOrdered p
        → (q : Plaintext) × (h : H.State) × (keep_buffer buffer p w ≡ (ok q, record w { host = h }))
          × HasRead p buffer q
    unfolding keep_buffer
    keep_buffer_lem buffer p w o =
        elim (Bool-cases (leb (p.file_size + length buffer) memory_limit)) [
          | inl small ↦ (
            record p {
              hmac = hmac_add H.openssl p.hmac buffer;
              file_size = p.file_size + length buffer;
              file_contents = p.file_contents ++ buffer;
            },
            w.host,
            rw small refl,
            let fits : p.file_size + length buffer ≤ memory_limit = ground arith in
                let e : p.temp_file ≡ none = in_memory-none p o (omega (arith, fits)) in
                record {
                  hashed = refl;
                  counted = refl;
                  collected =
                      rw (e, append-nil (p.file_contents ++ buffer), append-nil p.file_contents)
                        refl;
                  ordered = record { in_memory = inl e };
                },
          )
          | inr large ↦
              let big : memory_limit < p.file_size + length buffer = ground arith in
              elim (Option-cases p.temp_file) [
                | inl e ↦
                    let (h, opened) = opens w in
                    (
                      record p {
                        hmac = hmac_add H.openssl p.hmac buffer;
                        file_size = p.file_size + length buffer;
                        temp_file = some buffer;
                      },
                      h,
                      rw (large, e, opened) refl,
                      record {
                        hashed = refl;
                        counted = refl;
                        collected = rw (e, append-nil p.file_contents) refl;
                        ordered = record { in_memory = inr big };
                      },
                    )
                | inr (s, e) ↦ (
                  record p {
                    hmac = hmac_add H.openssl p.hmac buffer;
                    file_size = p.file_size + length buffer;
                    temp_file = some (s ++ buffer);
                  },
                  w.host,
                  rw (large, e) refl,
                  record {
                    hashed = refl;
                    counted = refl;
                    collected = rw (e, append_assoc p.file_contents s buffer) refl;
                    ordered = record { in_memory = inr big };
                  },
                )
              ]
        ]

  -- Two readings, one after the other.
  HasRead-append :
      (p q r : Plaintext) (s t : Bytes) → HasRead p s q → HasRead q t r → HasRead p (s ++ t) r
  HasRead-append p q r s t a b = record {
    hashed = b.hashed ∙ rw (a.hashed, append_assoc p.hmac.message s t) refl;
    counted = omega (arith, a.counted, b.counted, length-append s t);
    collected = b.collected ∙ rw (a.collected, append_assoc (contents p) s t) refl;
    ordered = b.ordered;
  }

  module _ (opens : TempOpens) where
    -- With enough fuel, the loop reads the whole of an input that stays below the limit.
    pub read_plaintext_lem :
        (fuel : ℕ) (input : Bytes) (p : Plaintext) (w : World)
        → IsOrdered p
        → length input < fuel
        → p.file_size + length input < max_crypt_bytes
        → (q : Plaintext) × (h : H.State) × (read_plaintext fuel input p w
            ≡ (ok q, record w { host = h }))
          × HasRead p input q
    unfolding read_plaintext
    read_plaintext_lem zero input p w o enough small = absurd (omega arith)
    read_plaintext_lem (suc fuel) input p w o enough small =
        let taken = length-take 1024 input in
        let left = length-drop 1024 input in
        let room : ltb p.file_size max_crypt_bytes ≡ true = ground arith in
        let (q, h, e, got) = keep_buffer_lem opens (take 1024 input) p w o in
        elim (Bool-cases (length (take 1024 input) == 1024)) [
          | inl full ↦
              let n : length (take 1024 input) ≡ 1024 = (==_iff _ 1024).0 full in
              let (r, h', e', got') =
                read_plaintext_lem fuel (drop 1024 input) q (record w { host = h }) got.ordered
                  (omega (arith, n, left)) (omega (arith, n, left, got.counted)) in
              (
                r,
                h',
                rw (room, e, full, e') refl,
                subst (λ s. HasRead p s r) (take-append-drop 1024 input)
                    (HasRead-append p q r _ _ got got'),
              )
          | inr last ↦
              let short : length (take 1024 input) ≢ 1024 = λ n. cc (last, (==_iff _ 1024).1 n) in
              let whole : take 1024 input ≡ input =
                take_of_le 1024 input (omega (arith, taken, short)) in
              (q, h, rw (room, e, last) refl, subst (λ s. HasRead p s q) whole got)
        ]
