-- ===== src/FileHandle/Input.antt =====
-- fhstream.cpp, `ifhbuf`: the buffer of an input stream over a handle.
use Prim.Native.Nat.{min}
use git_crypt.Base.{
  ℕ, zero, suc, ◌+◌, ◌-◌, List, [], ◌∷◌, ◌++◌, Bytes, length, take, drop, get_or, ltb,
  if◌then◌else◌, Option, none, some,
}
use git_crypt.Base.Results.{Result, ok, err, stuck}
use git_crypt.FileHandle.Output.{default_buffer_size, eof_or}

-- The handle and `read_fun`: the bytes that it gave, at most as many as asked for, or the exception.
pub record Source : Type 1 where
  pub State : Type 0
  pub read_fun : ℕ → State → Result Bytes × State

abbrev pub putback_size : ℕ
putback_size = 4

-- The storage, and the places in it of `eback()`, `gptr()` and `egptr()`.
pub record InBuf : Type 0 where
  pub buffer : Bytes
  pub eback : ℕ
  pub gptr : ℕ
  pub egptr : ℕ
  pub buffer_size : ℕ

-- `memmove` and `memcpy`: what is at a place, and putting bytes there.
abbrev pub bytes_at : ℕ → ℕ → Bytes → Bytes
bytes_at at n buffer = take n (drop at buffer)

abbrev pub write_at : ℕ → Bytes → Bytes → Bytes
write_at at s buffer = take at buffer ++ (s ++ drop (at + length s) buffer)

-- `reset_buffer`
unfoldable pub reset_buffer : ℕ → ℕ → InBuf → InBuf
reset_buffer nputback nread b = record b {
  eback = putback_size - nputback;
  gptr = putback_size;
  egptr = putback_size + nread;
}

-- `ifhbuf::ifhbuf`, on the storage that `new` gave.
unfoldable pub in_buf : Bytes → InBuf
unfolding reset_buffer
in_buf buffer =
    reset_buffer 0 0 (record {
      buffer = buffer;
      eback = 0;
      gptr = 0;
      egptr = 0;
      buffer_size = default_buffer_size;
    })

-- `ifhbuf::setbuf` of a null pointer and 0.
unfoldable pub setbuf : InBuf → InBuf
setbuf b = record b { buffer_size = 1 }

-- What can be read without asking the handle.
abbrev pub available : InBuf → Bytes
available b = bytes_at b.gptr (b.egptr - b.gptr) b.buffer

-- The most recently read characters, moved into the putback area.
unfoldable pub keep_putback : InBuf → ℕ × InBuf
keep_putback b =
    let nputback = min (b.gptr - b.eback) putback_size in
    let recent = bytes_at (b.gptr - nputback) nputback b.buffer in
    (nputback, record b { buffer = write_at (putback_size - nputback) recent b.buffer })

-- What `read_fun` put into the storage: nothing at the end of the file.
unfoldable pub take_in : ℕ → InBuf → Bytes → Option ℕ × InBuf
unfolding reset_buffer
take_in nputback b [] = (none, b)
take_in nputback b (c ∷ s) = (
  some c,
  reset_buffer nputback (length (c ∷ s))
      (record b { buffer = write_at putback_size (c ∷ s) b.buffer }),
)

-- The putback area, filled up from all the bytes that were read.
unfoldable pub fill_putback : Bytes → InBuf → InBuf
unfolding reset_buffer
fill_putback s b =
    let nputback = min (length s) putback_size in
    let recent = drop (length s - nputback) s in
    reset_buffer nputback 0
      (record b { buffer = write_at (putback_size - nputback) recent b.buffer })

module _ (S : Source) where
  open S use {State, read_fun}

  abbrev pub Reading : Type 0 → Type 0
  Reading A = InBuf → State → Result A × InBuf × State

  abbrev pub taken : ℕ → InBuf → Result Bytes × State → Result (Option ℕ) × InBuf × State
  taken nputback b (ok s, h) = let (c, b') = take_in nputback b s in (ok c, b', h)
  taken nputback b (err e, h) = (err e, b, h)
  taken nputback b (stuck, h) = (stuck, b, h)

  -- `ifhbuf::underflow`: the next character, or none at the end of the file.
  unfoldable pub underflow : Reading (Option ℕ)
  unfolding keep_putback take_in
  underflow b h =
      let (nputback, kept) = keep_putback b in
      if ltb b.gptr b.egptr
      then (ok (some (get_or b.buffer b.gptr 0)), b, h)
      else taken nputback kept (read_fun b.buffer_size h)

  -- `std::streambuf::sgetc`
  unfoldable pub sgetc : Reading (Option ℕ)
  sgetc b h =
      if ltb b.gptr b.egptr then (ok (some (get_or b.buffer b.gptr 0)), b, h) else underflow b h

  abbrev pub bump : Result (Option ℕ) × InBuf × State → Result (Option ℕ) × InBuf × State
  bump (ok (some c), b, h) = (ok (some c), record b { gptr = b.gptr + 1 }, h)
  bump (ok none, b, h) = (ok none, b, h)
  bump (err e, b, h) = (err e, b, h)
  bump (stuck, b, h) = (stuck, b, h)

  -- `std::streambuf::sbumpc`
  unfoldable pub sbumpc : Reading (Option ℕ)
  unfolding sgetc
  sbumpc b h = bump (sgetc b h)

  -- Bytes read before the others.
  abbrev pub prepend : Bytes → Result Bytes × InBuf × State → Result Bytes × InBuf × State
  prepend s (ok t, b, h) = (ok (s ++ t), b, h)
  prepend s (err e, b, h) = (err e, b, h)
  prepend s (stuck, b, h) = (stuck, b, h)

  abbrev pub then_more :
      Result (Option ℕ) × InBuf × State → Reading Bytes → Result Bytes × InBuf × State
  then_more (ok none, b, h) more = (ok [], b, h)
  then_more (ok (some c), b, h) more = prepend (c ∷ []) (more b h)
  then_more (err e, b, h) more = (err e, b, h)
  then_more (stuck, b, h) more = (stuck, b, h)

  -- `std::streambuf::xsgetn`: as if by calls of `sbumpc`.
  unfoldable pub sbumpc_each : ℕ → Reading Bytes
  unfolding sbumpc
  sbumpc_each zero b h = (ok [], b, h)
  sbumpc_each (suc n) b h = then_more (sbumpc b h) (sbumpc_each n)

  -- What a round of the direct read gave, and the rounds after it; nothing is the end of the file.
  abbrev pub read_on :
      Result Bytes × State → (Bytes → State → Result Bytes × State) → Result Bytes × State
  read_on (ok [], h) more = (ok [], h)
  read_on (ok (c ∷ s), h) more = more (c ∷ s) h
  read_on (err e, h) more = (err e, h)
  read_on (stuck, h) more = (stuck, h)

  abbrev pub put_before : Bytes → Result Bytes × State → Result Bytes × State
  put_before s (ok t, h) = (ok (s ++ t), h)
  put_before s (err e, h) = (err e, h)
  put_before s (stuck, h) = (stuck, h)

  -- The loop of the direct read of `ifhbuf::xsgetn`.
  unfoldable pub read_loop : ℕ → ℕ → State → Result Bytes × State
  read_loop fuel zero h = (ok [], h)
  read_loop zero (suc n) h = (stuck, h)
  read_loop (suc fuel) (suc n) h =
      read_on (read_fun (suc n) h) (λ s h1. put_before s (read_loop fuel (suc n - length s) h1))

  abbrev pub finish_read : Bytes → InBuf → Result Bytes × State → Result Bytes × InBuf × State
  finish_read held b (ok s, h) = (ok (held ++ s), fill_putback (held ++ s) b, h)
  finish_read held b (err e, h) = (err e, b, h)
  finish_read held b (stuck, h) = (stuck, b, h)

  -- `ifhbuf::xsgetn`
  unfoldable pub xsgetn : ℕ → Reading Bytes
  unfolding sbumpc_each read_loop fill_putback
  xsgetn n b h =
      let bytes_available = b.egptr - b.gptr in
      let rest = n - bytes_available in
      if ltb n (bytes_available + 4096)
      then sbumpc_each n b h
      else finish_read (available b) b (read_loop rest rest h)

-- The calls that a client of the stream makes.
pub data Get : Type 0 where
  peek : Get
  next : Get
  read : ℕ → Get

module _ (S : Source) where
  abbrev pub as_bytes : Result (Option ℕ) × InBuf × S.State → Result Bytes × InBuf × S.State
  as_bytes (ok c, b, h) = (ok (eof_or c), b, h)
  as_bytes (err e, b, h) = (err e, b, h)
  as_bytes (stuck, b, h) = (stuck, b, h)

  unfoldable pub get_one : Get → Reading S Bytes
  unfolding sgetc sbumpc xsgetn
  get_one peek b h = as_bytes (sgetc S b h)
  get_one next b h = as_bytes (sbumpc S b h)
  get_one (read n) b h = xsgetn S n b h

  abbrev pub collected :
      Bytes → Result (List Bytes) × InBuf × S.State → Result (List Bytes) × InBuf × S.State
  collected s (ok ss, b, h) = (ok (s ∷ ss), b, h)
  collected s (err e, b, h) = (err e, b, h)
  collected s (stuck, b, h) = (stuck, b, h)

  abbrev pub collect :
      Result Bytes × InBuf × S.State
      → (InBuf → S.State → Result (List Bytes) × InBuf × S.State)
      → Result (List Bytes) × InBuf × S.State
  collect (ok s, b, h) more = collected s (more b h)
  collect (err e, b, h) more = (err e, b, h)
  collect (stuck, b, h) more = (stuck, b, h)

  -- They stop at the first exception.
  unfoldable pub get_all : List Get → Reading S (List Bytes)
  unfolding get_one
  get_all [] b h = (ok [], b, h)
  get_all (g ∷ gets) b h = collect (get_one g b h) (get_all gets)
