-- ===== src/FileHandle/Arrival.antt =====
-- fhstream.cpp, `ifhbuf`: an input buffer refines the bytes that its handle has left to give.

use git_crypt.Base.{
  All, ℕ, ◌+◌, ◌≤◌, ◌≡◌, refl, sym, ap, ◌∙◌, List, [], ◌∷◌, Bytes, length, take, drop, Option, none,
  some, arith,
}
use git_crypt.Base.Results.{Result, ok, err, stuck}
use git_crypt.FileHandle.Output.{default_buffer_size}
use git_crypt.FileHandle.Input.{
  Source, InBuf, putback_size, reset_buffer, in_buf, sgetc, sbumpc, bump, xsgetn, Get, peek, next,
  read, get_one, get_all, collect, as_bytes, collected,
}
use git_crypt.FileHandle.Storage.{Feed, FeedUpTo, feed_up_to, IsInput, available-suc}
use git_crypt.FileHandle.Reading.{xsgetn-Got}
use git_crypt.FileHandle.Characters.{left, Peeked, sgetc-Peeked, Got, bump-IsInput}

-- What a call gives of the bytes that are left, and what it leaves.
abbrev pub stream_get : Get → Bytes → Bytes × Bytes
stream_get peek s = (take 1 s, s)
stream_get next s = (take 1 s, drop 1 s)
stream_get (read n) s = (take n s, drop n s)

abbrev pub stream_get_all : List Get → Bytes → List Bytes × Bytes
stream_get_all [] s = ([], s)
stream_get_all (g ∷ gets) s =
    let (given, rest) = stream_get g s in
    let (others, end) = stream_get_all gets rest in (given ∷ others, end)

-- A read of no more than a limit.
abbrev pub Within : ℕ → Get → Type 0
Within limit peek = Unit
Within limit next = Unit
Within limit (read n) = n ≤ limit

-- All that some calls ask for.
unfoldable asked : List Get → ℕ
asked [] = 0
asked (peek ∷ gets) = asked gets
asked (next ∷ gets) = asked gets
asked (read n ∷ gets) = n + asked gets

asked-Within : (limit : ℕ) (gets : List Get) → asked gets ≤ limit → All (Within limit) gets
unfolding asked
asked-Within limit [] le = tt
asked-Within limit (peek ∷ gets) le = (tt, asked-Within limit gets le)
asked-Within limit (next ∷ gets) le = (tt, asked-Within limit gets le)
asked-Within limit (read n ∷ gets) le = (omega arith, asked-Within limit gets (omega arith))

module _ (S : Source) (unread : S.State → Bytes) where
  -- The result is the one that was expected, and the bytes that are left are those expected.
  abbrev pub Agrees : {A : Type 0} → A × Bytes → Result A × InBuf × S.State → Type 0
  Agrees (given, rest) (ok a, b, h) = IsInput b × (a ≡ given) × (left S unread b h ≡ rest)
  Agrees (given, rest) (err e, b, h) = Unit {0}
  Agrees (given, rest) (stuck, b, h) = ⊥

module _ (S : Source) (limit : ℕ) (F : FeedUpTo S limit) (fits : default_buffer_size ≤ limit) where
  Agrees-Got :
      (n : ℕ) (total : Bytes) (r : Result Bytes × InBuf × S.State)
      → Got S F.unread n total r
      → Agrees S F.unread (take n total, drop n total) r
  Agrees-Got n total (ok s, b, h) g = g
  Agrees-Got n total (err e, b, h) g = g
  Agrees-Got n total (stuck, b, h) g = g

  -- The character at hand is the first of those that are left.
  left-suc :
      (c : ℕ) (total : Bytes) (b : InBuf) (h : S.State)
      → Peeked S F.unread total (ok (some c), b, h)
      → total ≡ c ∷ left S F.unread (record b { gptr = b.gptr + 1 }) h
  left-suc c total b h (v, e, lt, here) = sym e ∙ rw (available-suc b v lt, here)

  peek-Agrees :
      (total : Bytes) (r : Result (Option ℕ) × InBuf × S.State)
      → Peeked S F.unread total r
      → Agrees S F.unread (take 1 total, total) (as_bytes S r)
  peek-Agrees total (ok none, b, h) (v, e, z) = (v, rw z refl, e)
  peek-Agrees total (ok (some c), b, h) p = (p.0, ap (take 1) (sym (left-suc c total b h p)), p.1)
  peek-Agrees total (err x, b, h) p = tt
  peek-Agrees total (stuck, b, h) p = p

  next-Agrees :
      (total : Bytes) (r : Result (Option ℕ) × InBuf × S.State)
      → Peeked S F.unread total r
      → Agrees S F.unread (take 1 total, drop 1 total) (as_bytes S (bump S r))
  next-Agrees total (ok none, b, h) (v, e, z) = (v, rw z refl, e ∙ rw z refl)
  next-Agrees total (ok (some c), b, h) p =
      let split = left-suc c total b h p in
      (bump-IsInput b p.0 p.2, ap (take 1) (sym split), ap (drop 1) (sym split))
  next-Agrees total (err x, b, h) p = tt
  next-Agrees total (stuck, b, h) p = p

  get_one-Agrees :
      (g : Get) (b : InBuf) (h : S.State)
      → Within limit g
      → IsInput b
      → Agrees S F.unread (stream_get g (left S F.unread b h)) (get_one S g b h)
  unfolding get_one sbumpc
  get_one-Agrees peek b h small v =
      peek-Agrees (left S F.unread b h) (sgetc S b h) (sgetc-Peeked S limit F fits b h v)
  get_one-Agrees next b h small v =
      next-Agrees (left S F.unread b h) (sgetc S b h) (sgetc-Peeked S limit F fits b h v)
  get_one-Agrees (read n) b h small v =
      Agrees-Got n (left S F.unread b h) (xsgetn S n b h) (xsgetn-Got S limit F fits n b h v small)

  collected-Agrees :
      (given : Bytes) (rest : List Bytes × Bytes) (s : Bytes)
      (r : Result (List Bytes) × InBuf × S.State)
      → s ≡ given
      → Agrees S F.unread rest r
      → Agrees S F.unread (given ∷ rest.0, rest.1) (collected S s r)
  collected-Agrees given rest s (ok ss, b, h) e (v, f, g) = (v, rw (e, f) refl, g)
  collected-Agrees given rest s (err x, b, h) e a = tt
  collected-Agrees given rest s (stuck, b, h) e a = a

  collect-Agrees :
      (one : Bytes × Bytes) (gets : List Get) (r : Result Bytes × InBuf × S.State)
      → Agrees S F.unread one r
      → ((b : InBuf) (h : S.State)
          → IsInput b
          → Agrees S F.unread (stream_get_all gets (left S F.unread b h)) (get_all S gets b h))
      → let (others, end) = stream_get_all gets one.1 in
        Agrees S F.unread (one.0 ∷ others, end) (collect S r (get_all S gets))
  collect-Agrees (given, rest) gets (ok s, b, h) (v, e, f) ih =
      collected-Agrees given (stream_get_all gets rest) s (get_all S gets b h) e
        (rw (← f) (ih b h v))
  collect-Agrees one gets (err x, b, h) a ih = tt
  collect-Agrees one gets (stuck, b, h) a ih = absurd a

  get_all-Agrees :
      (gets : List Get) (b : InBuf) (h : S.State)
      → All (Within limit) gets
      → IsInput b
      → Agrees S F.unread (stream_get_all gets (left S F.unread b h)) (get_all S gets b h)
  unfolding get_all
  get_all-Agrees [] b h small v = (v, refl, refl)
  get_all-Agrees (g ∷ gets) b h (small, others) v =
      collect-Agrees (stream_get g (left S F.unread b h)) gets (get_one S g b h)
        (get_one-Agrees g b h small v) (λ b' h' v'. get_all-Agrees gets b' h' others v')

  pub get_all-FeedUpTo :
      (gets : List Get) (buffer : Bytes) (h : S.State)
      → All (Within limit) gets
      → length buffer ≡ putback_size + default_buffer_size
      → Agrees S F.unread (stream_get_all gets (F.unread h)) (get_all S gets (in_buf buffer) h)
  unfolding in_buf reset_buffer
  get_all-FeedUpTo gets buffer h small e =
      get_all-Agrees gets (in_buf buffer) h small
        (record { storage = e; putback = omega arith; ordered = omega arith; sized = omega arith })

-- On a fresh input buffer, any calls that look at a character, read one or read a number of them
-- give what they would give on the bytes that the handle has left, and leave what those would
-- leave, unless a read throws; fewer characters come only at the end of the file. The handle
-- gives the next bytes, no more than asked for, and none only at the end.
pub get_all-in_buf :
    (S : Source) (F : Feed S) (gets : List Get) (buffer : Bytes) (h : S.State)
    → length buffer ≡ putback_size + default_buffer_size
    → Agrees S F.unread (stream_get_all gets (F.unread h)) (get_all S gets (in_buf buffer) h)
unfolding feed_up_to
get_all-in_buf S F gets buffer h e =
    let limit = asked gets + default_buffer_size in
    get_all-FeedUpTo S limit (feed_up_to S limit F) (omega arith) gets buffer h
      (asked-Within limit gets (omega arith)) e
