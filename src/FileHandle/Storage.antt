-- ===== src/FileHandle/Storage.antt =====
-- fhstream.cpp, `ifhbuf`: the storage of an input buffer stays sound, and what can be read from it.
use Prim.Native.Nat.{min}
use git_crypt.Base.{
  ℕ, zero, suc, ◌+◌, ◌-◌, ◌≤◌, ◌<◌, ◌≡◌, refl, sym, ap, ◌∙◌, [], ◌∷◌, ◌++◌, Bytes, length, take,
  drop, get_or, some, arith, length-append, length-drop, length-take, take-append, drop-append, ◌≢◌,
}
use git_crypt.Base.Results.{ok, stuck}
use git_crypt.FileHandle.Output.{default_buffer_size}
use git_crypt.FileHandle.Input.{
  Source, InBuf, putback_size, bytes_at, write_at, reset_buffer, available, keep_putback, take_in,
  fill_putback,
}

-- What `read(2)` does to a pipe: it gives the next bytes, no more than were asked for, and none at
-- the end of the file only.
pub record Feed (S : Source) : Type 0 where
  pub unread : S.State → Bytes
  pub gives :
      (n : ℕ) (h h1 : S.State) (s : Bytes)
      → S.read_fun (suc n) h ≡ (ok s, h1)
      → (length s ≤ suc n) × (unread h ≡ s ++ unread h1)
  pub ends : (n : ℕ) (h h1 : S.State) → S.read_fun (suc n) h ≡ (ok [], h1) → unread h ≡ []
  pub returns : (n : ℕ) (h h1 : S.State) → S.read_fun (suc n) h ≢ (stuck, h1)

-- The same for calls that ask for no more than a limit.
pub record FeedUpTo (S : Source) (limit : ℕ) : Type 0 where
  pub unread : S.State → Bytes
  pub gives :
      (n : ℕ) (h h1 : S.State) (s : Bytes)
      → suc n ≤ limit
      → S.read_fun (suc n) h ≡ (ok s, h1)
      → (length s ≤ suc n) × (unread h ≡ s ++ unread h1)
  pub ends :
      (n : ℕ) (h h1 : S.State) → suc n ≤ limit → S.read_fun (suc n) h ≡ (ok [], h1) → unread h ≡ []
  pub returns : (n : ℕ) (h h1 : S.State) → suc n ≤ limit → S.read_fun (suc n) h ≢ (stuck, h1)

unfoldable pub feed_up_to : (S : Source) (limit : ℕ) → Feed S → FeedUpTo S limit
feed_up_to S limit F = record {
  unread = F.unread;
  gives = λ n h h1 s le e. F.gives n h h1 s e;
  ends = λ n h h1 le e. F.ends n h h1 e;
  returns = λ n h h1 le e. F.returns n h h1 e;
}

-- The places are in order and inside the storage.
pub record IsInput (b : InBuf) : Type 0 where
  pub storage : length b.buffer ≡ putback_size + default_buffer_size
  pub putback : (b.eback ≤ putback_size) × (putback_size ≤ b.gptr)
  pub ordered : (b.gptr ≤ b.egptr) × (b.egptr ≤ putback_size + default_buffer_size)
  pub sized : (1 ≤ b.buffer_size) × (b.buffer_size ≤ default_buffer_size)

pub bytes_at-suc :
    (i k : ℕ) (s : Bytes)
    → i < length s
    → bytes_at i (suc k) s ≡ get_or s i 0 ∷ bytes_at (i + 1) k s
bytes_at-suc zero k [] h = absurd (omega arith)
bytes_at-suc zero k (c ∷ s) h = refl
bytes_at-suc (suc i) k [] h = absurd (omega arith)
bytes_at-suc (suc i) k (c ∷ s) h =
    let e : suc i + 1 ≡ suc (i + 1) = omega arith in rw (e, bytes_at-suc i k s (omega arith))

pub length-write_at :
    (i : ℕ) (s t : Bytes) → i + length s ≤ length t → length (write_at i s t) ≡ length t
length-write_at i s t h = omega (
  arith,
  length-append (take i t) (s ++ drop (i + length s) t),
  length-append s (drop (i + length s) t),
  length-take i t,
  length-drop (i + length s) t,
)

-- What was put into the storage is there.
pub bytes_at-write_at :
    (i : ℕ) (s t : Bytes) → i ≤ length t → bytes_at i (length s) (write_at i s t) ≡ s
bytes_at-write_at i s t h =
    let front =
      drop-append i (take i t) (s ++ drop (i + length s) t) (omega (arith, length-take i t)) in
    rw front (take-append (length s) s (drop (i + length s) t) refl)

-- The next available byte.
pub available-suc :
    (b : InBuf)
    → IsInput b
    → b.gptr < b.egptr
    → available b ≡ get_or b.buffer b.gptr 0 ∷ available (record b { gptr = b.gptr + 1 })
available-suc b v h =
    let e : b.egptr - b.gptr ≡ suc (b.egptr - (b.gptr + 1)) = omega arith in
    rw (e, bytes_at-suc b.gptr (b.egptr - (b.gptr + 1)) b.buffer (omega arith))

pub available-head :
    (b : InBuf) (c : ℕ) (s : Bytes)
    → IsInput b
    → b.gptr < b.egptr
    → available b ≡ c ∷ s
    → get_or b.buffer b.gptr 0 ≡ c
available-head b c s v h e = ap (λ (t : Bytes). get_or t 0 0) (sym (available-suc b v h) ∙ e)

-- Nothing is available at the end of the buffer.
pub available-nil : (b : InBuf) → b.egptr ≤ b.gptr → available b ≡ []
available-nil b h = let none_left : b.egptr - b.gptr ≡ 0 = omega arith in rw none_left

pub keep_putback-IsInput : (b : InBuf) → IsInput b → IsInput (keep_putback b).1
unfolding keep_putback
keep_putback-IsInput b v =
    let n = min (b.gptr - b.eback) putback_size in
    let recent = bytes_at (b.gptr - n) n b.buffer in
    let short : length recent ≤ n = omega (arith, length-take n (drop (b.gptr - n) b.buffer)) in
    record {
      storage = length-write_at (putback_size - n) recent b.buffer (omega arith) ∙ v.storage;
      putback = v.putback;
      ordered = v.ordered;
      sized = v.sized;
    }

pub take_in-IsInput :
    (n : ℕ) (b : InBuf) (s : Bytes)
    → IsInput b
    → length s ≤ b.buffer_size
    → IsInput (take_in n b s).1
unfolding take_in reset_buffer
take_in-IsInput n b [] v h = v
take_in-IsInput n b (c ∷ s) v h = record {
  storage = length-write_at putback_size (c ∷ s) b.buffer (omega arith) ∙ v.storage;
  putback = omega arith;
  ordered = omega arith;
  sized = v.sized;
}

pub take_in-available :
    (n c : ℕ) (b : InBuf) (s : Bytes) → IsInput b → available (take_in n b (c ∷ s)).1 ≡ c ∷ s
unfolding take_in reset_buffer
take_in-available n c b s v =
    let e : putback_size + length (c ∷ s) - putback_size ≡ length (c ∷ s) = omega arith in
    rw e (bytes_at-write_at putback_size (c ∷ s) b.buffer (omega arith))

pub take_in-byte : (n c : ℕ) (b : InBuf) (s : Bytes) → (take_in n b (c ∷ s)).0 ≡ some c
unfolding take_in
take_in-byte n c b s = refl

pub take-append-more :
    (n : ℕ) (s u : Bytes) → length s ≤ n → take n (s ++ u) ≡ s ++ take (n - length s) u
take-append-more n [] u h = let e : n - 0 ≡ n = omega arith in rw e
take-append-more zero (c ∷ s) u h = absurd (omega arith)
take-append-more (suc n) (c ∷ s) u h =
    let e : suc n - length (c ∷ s) ≡ n - length s = omega arith in
    rw e (ap (◌∷◌ c) (take-append-more n s u (omega arith)))

pub drop-append-more :
    (n : ℕ) (s u : Bytes) → length s ≤ n → drop n (s ++ u) ≡ drop (n - length s) u
drop-append-more n [] u h = let e : n - 0 ≡ n = omega arith in rw e
drop-append-more zero (c ∷ s) u h = absurd (omega arith)
drop-append-more (suc n) (c ∷ s) u h =
    let e : suc n - length (c ∷ s) ≡ n - length s = omega arith in
    rw e (drop-append-more n s u (omega arith))

pub length-available : (b : InBuf) → IsInput b → length (available b) ≡ b.egptr - b.gptr
length-available b v =
    omega
      (arith, length-take (b.egptr - b.gptr) (drop b.gptr b.buffer), length-drop b.gptr b.buffer)

pub fill_putback-IsInput : (s : Bytes) (b : InBuf) → IsInput b → IsInput (fill_putback s b)
unfolding fill_putback reset_buffer
fill_putback-IsInput s b v =
    let n = min (length s) putback_size in
    let recent = drop (length s - n) s in
    let short : length recent ≤ n = omega (arith, length-drop (length s - n) s) in
    record {
      storage = length-write_at (putback_size - n) recent b.buffer (omega arith) ∙ v.storage;
      putback = omega arith;
      ordered = omega arith;
      sized = v.sized;
    }

pub fill_putback-nil : (s : Bytes) (b : InBuf) → available (fill_putback s b) ≡ []
unfolding fill_putback reset_buffer
fill_putback-nil s b = available-nil (fill_putback s b) (omega arith)
