-- ===== src/FileHandle/Reading.antt =====
-- fhstream.cpp, `ifhbuf::xsgetn`: many characters are read in the order of the handle.

use git_crypt.Base.{
  ℕ, zero, suc, ◌+◌, ◌-◌, ◌≤◌, ◌≡◌, refl, sym, ap, ◌∙◌, [], ◌∷◌, ◌++◌, Bytes, length, take, drop,
  ltb, arith, Bool-cases, inl, inr,
}
use git_crypt.Base.Results.{Result, ok, err, stuck}
use git_crypt.FileHandle.Output.{default_buffer_size}
use git_crypt.FileHandle.Input.{
  Source, InBuf, available, read_loop, read_on, put_before, finish_read, xsgetn,
}
use git_crypt.FileHandle.Storage.{
  FeedUpTo, IsInput, take-append-more, drop-append-more, length-available, fill_putback-IsInput,
  fill_putback-nil,
}
use git_crypt.FileHandle.Characters.{left, Got, sbumpc_each-Got}

module _ (S : Source) (unread : S.State → Bytes) where
  -- After the direct read.
  abbrev Read : ℕ → Bytes → Result Bytes × S.State → Type 0
  Read n total (ok s, h) = (s ≡ take n total) × (unread h ≡ drop n total)
  Read n total (err e, h) = Unit {0}
  Read n total (stuck, h) = ⊥

module _ (S : Source) (limit : ℕ) (F : FeedUpTo S limit) (fits : default_buffer_size ≤ limit) where
  put_before-Read :
      (n : ℕ) (s u : Bytes) (r : Result Bytes × S.State)
      → length s ≤ n
      → Read S F.unread (n - length s) u r
      → Read S F.unread n (s ++ u) (put_before S s r)
  put_before-Read n s u (ok t, h) le (e, f) =
      (ap (◌++◌ s) e ∙ sym (take-append-more n s u le), f ∙ sym (drop-append-more n s u le))
  put_before-Read n s u (err x, h) le r = tt
  put_before-Read n s u (stuck, h) le r = r

  read_on-Read :
      (n : ℕ) (h : S.State) (r : Result Bytes × S.State)
      (more : Bytes → S.State → Result Bytes × S.State)
      → suc n ≤ limit
      → S.read_fun (suc n) h ≡ r
      → ((c : ℕ) (s : Bytes) (h1 : S.State)
          → length (c ∷ s) ≤ suc n
          → Read S F.unread (suc n) ((c ∷ s) ++ F.unread h1) (more (c ∷ s) h1))
      → Read S F.unread (suc n) (F.unread h) (read_on S r more)
  read_on-Read n h (ok [], h1) more small g f =
      let none_left = F.ends n h h1 small g in
      rw none_left (refl, sym (F.gives n h h1 [] small g).1 ∙ none_left)
  read_on-Read n h (ok (c ∷ s), h1) more small g f =
      let given = F.gives n h h1 (c ∷ s) small g in rw given.1 (f c s h1 given.0)
  read_on-Read n h (err x, h1) more small g f = tt
  read_on-Read n h (stuck, h1) more small g f = absurd (F.returns n h h1 small g)

  read_loop-Read :
      (fuel n : ℕ) (h : S.State)
      → n ≤ fuel
      → n ≤ limit
      → Read S F.unread n (F.unread h) (read_loop S fuel n h)
  unfolding read_loop
  read_loop-Read fuel zero h le small = (refl, refl)
  read_loop-Read zero (suc n) h le small = absurd (omega arith)
  read_loop-Read (suc fuel) (suc n) h le small =
      read_on-Read n h (S.read_fun (suc n) h)
        (λ s h1. put_before S s (read_loop S fuel (suc n - length s) h1)) small refl
        (λ c s h1 short.
          put_before-Read (suc n) (c ∷ s) (F.unread h1)
            (read_loop S fuel (suc n - length (c ∷ s)) h1) short
            (read_loop-Read fuel (suc n - length (c ∷ s)) h1 (omega arith) (omega arith)))

  finish_read-Got :
      (n : ℕ) (b : InBuf) (h : S.State) (r : Result Bytes × S.State)
      → IsInput b
      → length (available b) ≤ n
      → Read S F.unread (n - length (available b)) (F.unread h) r
      → Got S F.unread n (left S F.unread b h) (finish_read S (available b) b r)
  finish_read-Got n b h (ok s, h1) v le (e, f) =
      let all = available b ++ s in
      (
        fill_putback-IsInput all b v,
        ap (◌++◌ (available b)) e ∙ sym (take-append-more n (available b) (F.unread h) le),
        rw (fill_putback-nil all b) (f ∙ sym (drop-append-more n (available b) (F.unread h) le)),
      )
  finish_read-Got n b h (err x, h1) v le r = tt
  finish_read-Got n b h (stuck, h1) v le r = r

  pub xsgetn-Got :
      (n : ℕ) (b : InBuf) (h : S.State)
      → IsInput b
      → n ≤ limit
      → Got S F.unread n (left S F.unread b h) (xsgetn S n b h)
  unfolding xsgetn
  xsgetn-Got n b h v small = elim (Bool-cases (ltb n (b.egptr - b.gptr + 4096))) [
    | inl few ↦ rw few (sbumpc_each-Got S limit F fits n b h v)
    | inr many ↦
        let size = length-available b v in
        let le : length (available b) ≤ n = rw size (ground arith) in
        let rest = n - (b.egptr - b.gptr) in
        rw many (
          finish_read-Got n b h (read_loop S rest rest h) v le
            (rw size (read_loop-Read rest rest h (omega arith) (omega arith))))
  ]
