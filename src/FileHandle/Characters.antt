-- ===== src/FileHandle/Characters.antt =====
-- fhstream.cpp, `ifhbuf`: one character after another is read in the order of the handle.

use git_crypt.Base.{
  ℕ, zero, suc, ◌+◌, ◌-◌, ◌≤◌, ◌<◌, ◌≡◌, refl, sym, ap, ◌∙◌, [], ◌∷◌, ◌++◌, Bytes, take, drop,
  get_or, ltb, Option, none, some, arith, Bool-cases, inl, inr, false, ltb→lt,
}
use git_crypt.Base.Results.{Result, ok, err, stuck}
use git_crypt.FileHandle.Output.{default_buffer_size}
use git_crypt.FileHandle.Input.{
  Source, InBuf, reset_buffer, available, keep_putback, take_in, taken, underflow, sgetc, sbumpc,
  bump, sbumpc_each, then_more, prepend,
}
use git_crypt.FileHandle.Storage.{
  FeedUpTo, IsInput, available-suc, available-head, available-nil, keep_putback-IsInput,
  take_in-IsInput, take_in-available, take_in-byte,
}

pub bump-IsInput :
    (b : InBuf) → IsInput b → b.gptr < b.egptr → IsInput (record b { gptr = b.gptr + 1 })
bump-IsInput b v h = record {
  storage = v.storage;
  putback = (v.putback.0, omega arith);
  ordered = (omega arith, v.ordered.1);
  sized = v.sized;
}

module _ (S : Source) (unread : S.State → Bytes) where
  -- All that is left to read.
  abbrev pub left : InBuf → S.State → Bytes
  left b h = available b ++ unread h

  -- After a look at the next character: it is the first of those that are left, or none are left.
  abbrev pub Peeked : Bytes → Result (Option ℕ) × InBuf × S.State → Type 0
  Peeked total (ok (some c), b, h) =
      IsInput b × (left b h ≡ total) × (b.gptr < b.egptr) × (get_or b.buffer b.gptr 0 ≡ c)
  Peeked total (ok none, b, h) = IsInput b × (left b h ≡ total) × (total ≡ [])
  Peeked total (err e, b, h) = Unit {0}
  Peeked total (stuck, b, h) = ⊥

  -- After reading a number of characters: they are the first of those that are left, fewer only if
  -- no more are left, and the others are still to be read.
  abbrev pub Got : ℕ → Bytes → Result Bytes × InBuf × S.State → Type 0
  Got n total (ok s, b, h) = IsInput b × (s ≡ take n total) × (left b h ≡ drop n total)
  Got n total (err e, b, h) = Unit {0}
  Got n total (stuck, b, h) = ⊥

-- Where the handle is asked for no more than a limit, which is at least the size of the buffer.
module _ (S : Source) (limit : ℕ) (F : FeedUpTo S limit) (fits : default_buffer_size ≤ limit) where
  pub taken-Peeked :
      (n k : ℕ) (b : InBuf) (h : S.State) (r : Result Bytes × S.State)
      → IsInput b
      → b.gptr ≡ b.egptr
      → b.buffer_size ≡ suc k
      → suc k ≤ limit
      → S.read_fun (suc k) h ≡ r
      → Peeked S F.unread (F.unread h) (taken S n b r)
  taken-Peeked n k b h (ok [], h1) v e z le g =
      let given = F.gives k h h1 [] le g in
      unfold take_in in (v, rw (available-nil b (omega arith)) (sym given.1), F.ends k h h1 le g)
  taken-Peeked n k b h (ok (c ∷ s), h1) v e z le g =
      let given = F.gives k h h1 (c ∷ s) le g in
      let b' = (take_in n b (c ∷ s)).1 in
      let v' : IsInput b' = take_in-IsInput n b (c ∷ s) v (omega arith) in
      let here = take_in-available n c b s v in
      let some_left : b'.gptr < b'.egptr = unfold take_in reset_buffer in omega arith in
      rw (take_in-byte n c b s)
        (v', rw here (sym given.1), some_left, available-head b' c s v' some_left here)
  taken-Peeked n k b h (err x, h1) v e z le g = tt
  taken-Peeked n k b h (stuck, h1) v e z le g = absurd (F.returns k h h1 le g)

  pub keep_putback-places :
      (b : InBuf)
      → ((keep_putback b).1.gptr ≡ b.gptr)
        × ((keep_putback b).1.egptr ≡ b.egptr)
        × ((keep_putback b).1.buffer_size ≡ b.buffer_size)
  unfolding keep_putback
  keep_putback-places b = (refl, refl, refl)

  pub underflow-Peeked :
      (b : InBuf) (h : S.State)
      → IsInput b
      → b.egptr ≤ b.gptr
      → Peeked S F.unread (left S F.unread b h) (underflow S b h)
  unfolding underflow
  underflow-Peeked b h v le =
      let past : ltb b.gptr b.egptr ≡ false = ground arith in
      let k = b.buffer_size - 1 in
      let size : b.buffer_size ≡ suc k = omega arith in
      let places = keep_putback-places b in
      let kept = (keep_putback b).1 in
      rw (past, available-nil b le)
        (taken-Peeked (keep_putback b).0 k kept h (S.read_fun b.buffer_size h)
          (keep_putback-IsInput b v) (rw (places.0, places.1) (omega arith)) (places.2 ∙ size)
          (omega arith) (rw (← size)))

  pub sgetc-Peeked :
      (b : InBuf) (h : S.State) → IsInput b → Peeked S F.unread (left S F.unread b h) (sgetc S b h)
  unfolding sgetc
  sgetc-Peeked b h v = elim (Bool-cases (ltb b.gptr b.egptr)) [
    | inl some_left ↦ rw some_left (v, refl, ltb→lt b.gptr b.egptr some_left, refl)
    | inr past ↦ rw past (underflow-Peeked b h v (ground arith))
  ]

  pub prepend-Got :
      (n c : ℕ) (total : Bytes) (r : Result Bytes × InBuf × S.State)
      → Got S F.unread n total r
      → Got S F.unread (suc n) (c ∷ total) (prepend S (c ∷ []) r)
  prepend-Got n c total (ok s, b, h) (v, e, f) = (v, ap (◌∷◌ c) e, f)
  prepend-Got n c total (err x, b, h) g = tt
  prepend-Got n c total (stuck, b, h) g = g

  pub then_more-Got :
      (n : ℕ) (total : Bytes) (r : Result (Option ℕ) × InBuf × S.State)
      (more : InBuf → S.State → Result Bytes × InBuf × S.State)
      → Peeked S F.unread total r
      → ((b : InBuf) (h : S.State) → IsInput b → Got S F.unread n (left S F.unread b h) (more b h))
      → Got S F.unread (suc n) total (then_more S (bump S r) more)
  then_more-Got n total (ok none, b, h) more (v, e, z) f = rw z (v, refl, e ∙ z)
  then_more-Got n total (ok (some c), b, h) more (v, e, lt, here) f =
      let b' = record b { gptr = b.gptr + 1 } in
      let split : total ≡ c ∷ left S F.unread b' h = sym e ∙ rw (available-suc b v lt, here) in
      rw split (prepend-Got n c (left S F.unread b' h) (more b' h) (f b' h (bump-IsInput b v lt)))
  then_more-Got n total (err x, b, h) more p f = tt
  then_more-Got n total (stuck, b, h) more p f = p

  pub sbumpc_each-Got :
      (n : ℕ) (b : InBuf) (h : S.State)
      → IsInput b
      → Got S F.unread n (left S F.unread b h) (sbumpc_each S n b h)
  unfolding sbumpc_each sbumpc
  sbumpc_each-Got zero b h v = (v, refl, refl)
  sbumpc_each-Got (suc n) b h v =
      then_more-Got n (left S F.unread b h) (sgetc S b h) (sbumpc_each S n) (sgetc-Peeked b h v)
        (λ b' h' v'. sbumpc_each-Got n b' h' v')
