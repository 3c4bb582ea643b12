-- ===== src/FileHandle/Writes.antt =====
-- fhstream.cpp, `ofhbuf`: what a write, and a byte that is put, delivers to the handle.

use git_crypt.Base.{
  ℕ, zero, suc, ◌≤◌, ◌<◌, ◌≡◌, refl, sym, ap, List, [], ◌∷◌, ◌++◌, append_assoc, append-nil, Bytes,
  length, take, drop, is_nil, ltb, Option, some, arith, length-append, length-drop,
  take-append-drop, Bool-cases, inl, inr, true, ◌≢◌, ltb→lt,
}
use git_crypt.Base.Results.{Result, Exception, ok, err, stuck}
use git_crypt.FileHandle.Output.{
  Sink, OutBuf, default_buffer_size, reset_buffer, write_loop, write_all, overflow, sputc,
  sputc_each, write_direct, with_buf, after, carry_on, eof_or, Put, char, text, flush,
}

-- What `write(2)` does to a pipe: it takes a byte at least, and no more than it was given, and
-- what was received before stays in front; where it fails, nothing is taken.
pub record Pipe (S : Sink) : Type 1 where
  pub received : S.State → Bytes
  pub takes :
      (c : ℕ) (p : Bytes) (h h1 : S.State) (n : ℕ)
      → S.write_fun (c ∷ p) h ≡ (ok n, h1)
      → (1 ≤ n) × (n ≤ length (c ∷ p)) × (received h1 ≡ received h ++ take n (c ∷ p))
  -- The exceptions that a write throws.
  pub Fault : Exception → Type 0
  pub fails :
      (c : ℕ) (p : Bytes) (h h1 : S.State) (e : Exception)
      → S.write_fun (c ∷ p) h ≡ (err e, h1)
      → Fault e × (received h1 ≡ received h)
  pub returns : (c : ℕ) (p : Bytes) (h h1 : S.State) → S.write_fun (c ∷ p) h ≢ (stuck, h1)

-- The buffer stays inside its storage, with a place kept for the byte that overflows.
pub record IsBuffer (b : OutBuf) : Type 0 where
  pub fits : length b.pending ≤ b.room
  pub inside : b.room < default_buffer_size
  pub sized : (1 ≤ b.buffer_size) × (b.buffer_size ≤ default_buffer_size)

pub eq_nil : (s : Bytes) → is_nil s ≡ true → s ≡ []
eq_nil [] e = refl
eq_nil (c ∷ s) e = cc

pub append-cancel : (s t : Bytes) → s ≡ s ++ t → t ≡ []
append-cancel s [] e = refl
append-cancel s (c ∷ t) e =
    let same : length s ≡ length (s ++ (c ∷ t)) = ap length e in
    absurd (omega (arith, same, length-append s (c ∷ t)))

-- The bytes that a call puts.
abbrev pub bytes_of : Put → Bytes
bytes_of (char c) = c ∷ []
bytes_of (text s) = s
bytes_of flush = []

abbrev pub all_bytes : List Put → Bytes
all_bytes [] = []
all_bytes (p ∷ puts) = bytes_of p ++ all_bytes puts

module _ (S : Sink) (P : Pipe S) where
  -- After writing these bytes: all were received, or those before a failure.
  abbrev pub Written : Bytes → Result (Unit {0}) × S.State → Type 0
  Written total (ok done, h) = P.received h ≡ total
  Written total (err e, h) = P.Fault e × (lost : Bytes) × (P.received h ++ lost ≡ total)
  Written total (stuck, h) = ⊥

  pub write_step :
      (fuel : ℕ) (c : ℕ) (p : Bytes) (h : S.State) (r : Result ℕ) (h1 : S.State)
      → S.write_fun (c ∷ p) h ≡ (r, h1)
      → ((n : ℕ)
          → 1 ≤ n
          → n ≤ length (c ∷ p)
          → Written (P.received h1 ++ drop n (c ∷ p)) (write_loop S fuel (drop n (c ∷ p)) h1))
      → Written
          (P.received h ++ (c ∷ p))
          (carry_on S r (λ n. write_loop S fuel (drop n (c ∷ p))) h1)
  write_step fuel c p h (ok n) h1 e ih =
      let taken = P.takes c p h h1 n e in
      let kept : P.received h1 ++ drop n (c ∷ p) ≡ P.received h ++ (c ∷ p) =
        rw (taken.2, append_assoc, take-append-drop n (c ∷ p)) in
      rw (← kept) (ih n taken.0 taken.1)
  write_step fuel c p h (err thrown) h1 e ih =
      let failed = P.fails c p h h1 thrown e in (failed.0, c ∷ p, rw failed.1)
  write_step fuel c p h stuck h1 e ih = absurd (P.returns c p h h1 e)

  pub write_loop-Written :
      (fuel : ℕ) (p : Bytes) (h : S.State)
      → length p ≤ fuel
      → Written (P.received h ++ p) (write_loop S fuel p h)
  unfolding write_loop
  write_loop-Written fuel [] h le = sym (append-nil (P.received h))
  write_loop-Written zero (c ∷ p) h le = absurd (omega arith)
  write_loop-Written (suc fuel) (c ∷ p) h le =
      let (r, h1) = S.write_fun (c ∷ p) h in
      write_step fuel c p h r h1 refl (λ n lo hi.
        write_loop-Written fuel (drop n (c ∷ p)) h1 (omega (arith, length-drop n (c ∷ p))))

  pub write_all-Written : (p : Bytes) (h : S.State) → Written (P.received h ++ p) (write_all S p h)
  unfolding write_all
  write_all-Written p h = write_loop-Written (length p) p h (omega arith)

  -- After an operation: the bytes were received or are in the buffer, which is sound; or a write
  -- failed, and what was received is the beginning of them.
  abbrev pub Delivered : Bytes → Result (Unit {0}) × OutBuf × S.State → Type 0
  Delivered total (ok done, b, h) = IsBuffer b × (P.received h ++ b.pending ≡ total)
  Delivered total (err e, b, h) = P.Fault e × (lost : Bytes) × (P.received h ++ lost ≡ total)
  Delivered total (stuck, b, h) = ⊥

  -- All that was put into the buffer so far.
  abbrev pub put_so_far : OutBuf → S.State → Bytes
  put_so_far b h = P.received h ++ b.pending

  pub with_buf-Delivered :
      (kept b : OutBuf) (total : Bytes) (r : Result (Unit {0}) × S.State)
      → IsBuffer b
      → b.pending ≡ []
      → Written total r
      → Delivered total (with_buf S kept b r)
  with_buf-Delivered kept b total (ok done, h) v e w = (v, rw (e, w, append-nil))
  with_buf-Delivered kept b total (err x, h) v e w = w
  with_buf-Delivered kept b total (stuck, h) v e w = w

  pub reset_buffer-IsBuffer : (b : OutBuf) → IsBuffer b → IsBuffer (reset_buffer b)
  unfolding reset_buffer
  reset_buffer-IsBuffer b v = omega arith

  pub overflow-Delivered :
      (c : Option ℕ) (b : OutBuf) (h : S.State)
      → IsBuffer b
      → Delivered (put_so_far b h ++ eof_or c) (overflow S c b h)
  unfolding overflow
  overflow-Delivered c b h v = rw (append_assoc (P.received h) b.pending (eof_or c)) (
      with_buf-Delivered b (reset_buffer b) (P.received h ++ (b.pending ++ eof_or c))
        (write_all S (b.pending ++ eof_or c) h) (reset_buffer-IsBuffer b v)
        (unfold reset_buffer in refl) (write_all-Written (b.pending ++ eof_or c) h))

  pub put-IsBuffer :
      (c : ℕ) (b : OutBuf)
      → IsBuffer b
      → length b.pending < b.room
      → IsBuffer (record b { pending = b.pending ++ (c ∷ []) })
  put-IsBuffer c b v room = record {
    fits = omega (arith, length-append b.pending (c ∷ []));
    inside = v.inside;
    sized = v.sized;
  }

  pub sputc-Delivered :
      (c : ℕ) (b : OutBuf) (h : S.State)
      → IsBuffer b
      → Delivered (put_so_far b h ++ (c ∷ [])) (sputc S c b h)
  unfolding sputc
  sputc-Delivered c b h v = elim (Bool-cases (ltb (length b.pending) b.room)) [
    | inl room ↦ rw room (
      put-IsBuffer c b v (ltb→lt (length b.pending) b.room room),
      sym (append_assoc (P.received h) b.pending (c ∷ [])),
    )
    | inr full ↦ rw full (overflow-Delivered (some c) b h v)
  ]

  -- One operation after another.
  pub after-Delivered :
      (total more : Bytes) (r : Result (Unit {0}) × OutBuf × S.State)
      (next : OutBuf → S.State → Result (Unit {0}) × OutBuf × S.State)
      → Delivered total r
      → ((b : OutBuf) (h : S.State)
          → IsBuffer b
          → r ≡ (ok tt, b, h)
          → Delivered (put_so_far b h ++ more) (next b h))
      → Delivered (total ++ more) (after S r next)
  after-Delivered total more (ok done, b, h) next (v, e) f = rw (← e) (f b h v refl)
  after-Delivered total more (err x, b, h) next (fault, lost, e) f =
      (fault, lost ++ more, rw (← e) (sym (append_assoc (P.received h) lost more)))
  after-Delivered total more (stuck, b, h) next d f = absurd d

  pub sputc_each-Delivered :
      (s : Bytes) (b : OutBuf) (h : S.State)
      → IsBuffer b
      → Delivered (put_so_far b h ++ s) (sputc_each S s b h)
  unfolding sputc_each
  sputc_each-Delivered [] b h v = (v, sym (append-nil (put_so_far b h)))
  sputc_each-Delivered (c ∷ s) b h v = rw (← append_assoc (put_so_far b h) (c ∷ []) s) (
      after-Delivered (put_so_far b h ++ (c ∷ [])) s (sputc S c b h) (sputc_each S s)
        (sputc-Delivered c b h v) (λ b' h' v' e. sputc_each-Delivered s b' h' v'))

  pub write_direct-Delivered :
      (s : Bytes) (b : OutBuf) (h : S.State)
      → IsBuffer b
      → b.pending ≡ []
      → Delivered (put_so_far b h ++ s) (write_direct S s b h)
  unfolding write_direct
  write_direct-Delivered s b h v e =
      let w : Written (put_so_far b h ++ s) (write_all S s h) =
        rw (e, append-nil (P.received h)) (write_all-Written s h) in
      with_buf-Delivered b b (put_so_far b h ++ s) (write_all S s h) v e w
