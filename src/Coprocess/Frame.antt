-- ===== src/Coprocess/Frame.antt =====
-- What a write or a read leaves alone, the stream over it leaves alone.
use Prim.Native.Nat.{min}
use git_crypt.Base.{
  ℕ, zero, suc, ◌+◌, ◌-◌, [], ◌∷◌, ◌++◌, Bytes, length, is_nil, ltb, drop, Option, none, some,
  get_or, if◌then◌else◌, Bool, true, false,
}
use git_crypt.Base.Results.{Result, ok, err, stuck}
use git_crypt.FileHandle.Output.{
  Sink, OutBuf, reset_buffer, eof_or, carry_on, write_loop, write_all, with_buf, overflow, sync,
  sputc, after, sputc_each, write_direct, xsputn, destroy, Put, char, text, flush, put_one,
}
use git_crypt.FileHandle.Input.{
  Source, InBuf, Get, peek, next, read, get_one, sgetc, sbumpc, bump, underflow, taken,
  keep_putback, sbumpc_each, then_more, prepend, read_on, put_before, read_loop, finish_read,
  available, xsgetn, as_bytes,
}

-- A choice between two states keeps what both keep.
pub if-keeps :
    {A : Type 0} (Q : A → Type 0) (b : Bool) (x y : A) → Q x → Q y → Q (if b then x else y)
if-keeps Q true x y p q = p
if-keeps Q false x y p q = q

module _ (S : Sink) (I : S.State → Type 0)
    (keeps : (p : Bytes) (h : S.State) → I h → I (S.write_fun p h).1) where
  abbrev pub Kept : Result (Unit {0}) × OutBuf × S.State → Type 0
  Kept r = I r.2

  carry_on-keeps :
      (r : Result ℕ) (rest : ℕ → S.State → Result (Unit {0}) × S.State) (h : S.State)
      → I h
      → ((n : ℕ) → I (rest n h).1)
      → I (carry_on S r rest h).1
  carry_on-keeps (ok n) rest h i f = f n
  carry_on-keeps (err e) rest h i f = i
  carry_on-keeps stuck rest h i f = i

  write_loop-keeps : (fuel : ℕ) (p : Bytes) (h : S.State) → I h → I (write_loop S fuel p h).1
  unfolding write_loop
  write_loop-keeps fuel [] h i = i
  write_loop-keeps zero (c ∷ p) h i = i
  write_loop-keeps (suc fuel) (c ∷ p) h i =
      let (r, h1) = S.write_fun (c ∷ p) h in
      let i1 : I h1 = keeps (c ∷ p) h i in
      carry_on-keeps r (λ n. write_loop S fuel (drop n (c ∷ p))) h1 i1
        (λ n. write_loop-keeps fuel (drop n (c ∷ p)) h1 i1)

  with_buf-keeps :
      (kept b : OutBuf) (r : Result (Unit {0}) × S.State) → I r.1 → Kept (with_buf S kept b r)
  with_buf-keeps kept b (ok done, h) i = i
  with_buf-keeps kept b (err e, h) i = i
  with_buf-keeps kept b (stuck, h) i = i

  overflow-keeps : (c : Option ℕ) (b : OutBuf) (h : S.State) → I h → Kept (overflow S c b h)
  unfolding overflow write_all
  overflow-keeps c b h i =
      let p = b.pending ++ eof_or c in
      with_buf-keeps b (reset_buffer b) (write_loop S (length p) p h)
        (write_loop-keeps (length p) p h i)

  after-keeps :
      (r : Result (Unit {0}) × OutBuf × S.State)
      (rest : OutBuf → S.State → Result (Unit {0}) × OutBuf × S.State)
      → Kept r
      → ((b : OutBuf) (h : S.State) → I h → Kept (rest b h))
      → Kept (after S r rest)
  after-keeps (ok done, b, h) rest i f = f b h i
  after-keeps (err e, b, h) rest i f = i
  after-keeps (stuck, b, h) rest i f = i

  sputc-keeps : (c : ℕ) (b : OutBuf) (h : S.State) → I h → Kept (sputc S c b h)
  unfolding sputc
  sputc-keeps c b h i =
      if-keeps Kept (ltb (length b.pending) b.room)
        (ok tt, record b { pending = b.pending ++ (c ∷ []) }, h) (overflow S (some c) b h) i
        (overflow-keeps (some c) b h i)

  sputc_each-keeps : (s : Bytes) (b : OutBuf) (h : S.State) → I h → Kept (sputc_each S s b h)
  unfolding sputc_each
  sputc_each-keeps [] b h i = i
  sputc_each-keeps (c ∷ s) b h i =
      after-keeps (sputc S c b h) (sputc_each S s) (sputc-keeps c b h i)
        (λ b' h' i'. sputc_each-keeps s b' h' i')

  write_direct-keeps : (s : Bytes) (b : OutBuf) (h : S.State) → I h → Kept (write_direct S s b h)
  unfolding write_direct write_all
  write_direct-keeps s b h i =
      with_buf-keeps b b (write_loop S (length s) s h) (write_loop-keeps (length s) s h i)

  xsputn-keeps : (s : Bytes) (b : OutBuf) (h : S.State) → I h → Kept (xsputn S s b h)
  unfolding xsputn
  xsputn-keeps s b h i =
      let direct =
        if is_nil b.pending
        then write_direct S s b h
        else after S (overflow S none b h) (write_direct S s) in
      if-keeps Kept (ltb (length s) (min 4096 (b.room - length b.pending))) (sputc_each S s b h)
        direct (sputc_each-keeps s b h i)
        (if-keeps Kept (is_nil b.pending) (write_direct S s b h)
          (after S (overflow S none b h) (write_direct S s)) (write_direct-keeps s b h i)
          (after-keeps (overflow S none b h) (write_direct S s) (overflow-keeps none b h i)
            (λ b' h' i'. write_direct-keeps s b' h' i')))

  pub put_one-keeps : (p : Put) (b : OutBuf) (h : S.State) → I h → Kept (put_one S p b h)
  unfolding put_one sync
  put_one-keeps (char c) b h i = sputc-keeps c b h i
  put_one-keeps (text s) b h i = xsputn-keeps s b h i
  put_one-keeps flush b h i = overflow-keeps none b h i

  pub destroy-keeps : (b : OutBuf) (h : S.State) → I h → I (destroy S b h)
  unfolding destroy sync
  destroy-keeps b h i = overflow-keeps none b h i

module _ (S : Source) (I : S.State → Type 0)
    (keeps : (n : ℕ) (h : S.State) → I h → I (S.read_fun n h).1) where
  abbrev pub KeptBy : {A : Type 0} → Result A × InBuf × S.State → Type 0
  KeptBy r = I r.2

  taken-keeps : (n : ℕ) (b : InBuf) (r : Result Bytes × S.State) → I r.1 → KeptBy (taken S n b r)
  taken-keeps n b (ok s, h) i = i
  taken-keeps n b (err e, h) i = i
  taken-keeps n b (stuck, h) i = i

  sgetc-keeps : (b : InBuf) (h : S.State) → I h → KeptBy (sgetc S b h)
  unfolding sgetc underflow
  sgetc-keeps b h i =
      let here : Result (Option ℕ) × InBuf × S.State =
        (ok (some (get_or b.buffer b.gptr 0)), b, h) in
      let kept = keep_putback b in
      let asked = taken S kept.0 kept.1 (S.read_fun b.buffer_size h) in
      let asked_keeps =
        taken-keeps kept.0 kept.1 (S.read_fun b.buffer_size h) (keeps b.buffer_size h i) in
      if-keeps KeptBy (ltb b.gptr b.egptr) here (if ltb b.gptr b.egptr then here else asked) i
        (if-keeps KeptBy (ltb b.gptr b.egptr) here asked i asked_keeps)

  bump-keeps : (r : Result (Option ℕ) × InBuf × S.State) → KeptBy r → KeptBy (bump S r)
  bump-keeps (ok (some c), b, h) i = i
  bump-keeps (ok none, b, h) i = i
  bump-keeps (err e, b, h) i = i
  bump-keeps (stuck, b, h) i = i

  sbumpc-keeps : (b : InBuf) (h : S.State) → I h → KeptBy (sbumpc S b h)
  unfolding sbumpc
  sbumpc-keeps b h i = bump-keeps (sgetc S b h) (sgetc-keeps b h i)

  prepend-keeps :
      (s : Bytes) (r : Result Bytes × InBuf × S.State) → KeptBy r → KeptBy (prepend S s r)
  prepend-keeps s (ok t, b, h) i = i
  prepend-keeps s (err e, b, h) i = i
  prepend-keeps s (stuck, b, h) i = i

  then_more-keeps :
      (r : Result (Option ℕ) × InBuf × S.State)
      (more : InBuf → S.State → Result Bytes × InBuf × S.State)
      → KeptBy r
      → ((b : InBuf) (h : S.State) → I h → KeptBy (more b h))
      → KeptBy (then_more S r more)
  then_more-keeps (ok (some c), b, h) more i f = prepend-keeps (c ∷ []) (more b h) (f b h i)
  then_more-keeps (ok none, b, h) more i f = i
  then_more-keeps (err e, b, h) more i f = i
  then_more-keeps (stuck, b, h) more i f = i

  sbumpc_each-keeps : (n : ℕ) (b : InBuf) (h : S.State) → I h → KeptBy (sbumpc_each S n b h)
  unfolding sbumpc_each
  sbumpc_each-keeps zero b h i = i
  sbumpc_each-keeps (suc n) b h i =
      then_more-keeps (sbumpc S b h) (sbumpc_each S n) (sbumpc-keeps b h i)
        (λ b' h' i'. sbumpc_each-keeps n b' h' i')

  put_before-keeps : (s : Bytes) (r : Result Bytes × S.State) → I r.1 → I (put_before S s r).1
  put_before-keeps s (ok t, h) i = i
  put_before-keeps s (err e, h) i = i
  put_before-keeps s (stuck, h) i = i

  read_on-keeps :
      (r : Result Bytes × S.State) (more : Bytes → S.State → Result Bytes × S.State)
      → I r.1
      → ((s : Bytes) (h : S.State) → I h → I (more s h).1)
      → I (read_on S r more).1
  read_on-keeps (ok [], h) more i f = i
  read_on-keeps (ok (c ∷ s), h) more i f = f (c ∷ s) h i
  read_on-keeps (err e, h) more i f = i
  read_on-keeps (stuck, h) more i f = i

  read_loop-keeps : (fuel n : ℕ) (h : S.State) → I h → I (read_loop S fuel n h).1
  unfolding read_loop
  read_loop-keeps fuel zero h i = i
  read_loop-keeps zero (suc n) h i = i
  read_loop-keeps (suc fuel) (suc n) h i =
      read_on-keeps (S.read_fun (suc n) h)
        (λ s h1. put_before S s (read_loop S fuel (suc n - length s) h1)) (keeps (suc n) h i)
        (λ s h1 i1.
          put_before-keeps s (read_loop S fuel (suc n - length s) h1)
            (read_loop-keeps fuel (suc n - length s) h1 i1))

  finish_read-keeps :
      (s : Bytes) (b : InBuf) (r : Result Bytes × S.State) → I r.1 → KeptBy (finish_read S s b r)
  finish_read-keeps s b (ok t, h) i = i
  finish_read-keeps s b (err e, h) i = i
  finish_read-keeps s b (stuck, h) i = i

  xsgetn-keeps : (n : ℕ) (b : InBuf) (h : S.State) → I h → KeptBy (xsgetn S n b h)
  unfolding xsgetn
  xsgetn-keeps n b h i =
      let rest = n - (b.egptr - b.gptr) in
      let direct = read_loop S rest rest h in
      if-keeps KeptBy (ltb n (b.egptr - b.gptr + 4096)) (sbumpc_each S n b h)
        (finish_read S (available b) b direct) (sbumpc_each-keeps n b h i)
        (finish_read-keeps (available b) b direct (read_loop-keeps rest rest h i))

  as_bytes-keeps : (r : Result (Option ℕ) × InBuf × S.State) → KeptBy r → KeptBy (as_bytes S r)
  as_bytes-keeps (ok c, b, h) i = i
  as_bytes-keeps (err e, b, h) i = i
  as_bytes-keeps (stuck, b, h) i = i

  pub get_one-keeps : (g : Get) (b : InBuf) (h : S.State) → I h → KeptBy (get_one S g b h)
  unfolding get_one
  get_one-keeps peek b h i = as_bytes-keeps (sgetc S b h) (sgetc-keeps b h i)
  get_one-keeps next b h i = as_bytes-keeps (sbumpc S b h) (sbumpc-keeps b h i)
  get_one-keeps (read n) b h i = xsgetn-keeps n b h i
