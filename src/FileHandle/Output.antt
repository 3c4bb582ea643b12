-- ===== src/FileHandle/Output.antt =====
-- fhstream.cpp, `ofhbuf`: the buffer of an output stream over a handle.
use Prim.Native.Nat.{min}
use git_crypt.Base.{
  ℕ, zero, suc, ◌+◌, ◌-◌, List, [], ◌∷◌, ◌++◌, Bytes, length, take, drop, is_nil, ltb,
  if◌then◌else◌, Option, none, some,
}
use git_crypt.Base.Results.{Result, ok, err, stuck}

-- The handle and `write_fun`: how many of the bytes it took, or the exception.
pub record Sink : Type 1 where
  pub State : Type 0
  pub write_fun : Bytes → State → Result ℕ × State

abbrev pub default_buffer_size : ℕ
default_buffer_size = 8192

-- The bytes from `pbase()` to `pptr()`, the place of `epptr()` from `pbase()`, and `buffer_size`.
pub record OutBuf : Type 0 where
  pub pending : Bytes
  pub room : ℕ
  pub buffer_size : ℕ

-- `reset_buffer`
unfoldable pub reset_buffer : OutBuf → OutBuf
reset_buffer b = record b { pending = []; room = b.buffer_size - 1 }

-- `ofhbuf::ofhbuf`
unfoldable pub out_buf : OutBuf
out_buf = record { pending = []; room = default_buffer_size - 1; buffer_size = default_buffer_size }

-- A byte, or none for `eof()`.
abbrev pub eof_or : Option ℕ → Bytes
eof_or none = []
eof_or (some c) = c ∷ []

-- `pbase()`, `pptr()` and `epptr()`, counted from the first byte of the put area.
pub record PutArea : Type 0 where
  pub pbase : ℕ
  pub pptr : ℕ
  pub epptr : ℕ

abbrev pub put_area : OutBuf → PutArea
put_area b = record { pbase = 0; pptr = length b.pending; epptr = b.room }

-- `std::streambuf::setp`, which begins the put area anew, and `std::streambuf::pbump`.
abbrev pub setp : ℕ → ℕ → PutArea → PutArea
setp first last a = record { pbase = first; pptr = first; epptr = last }

abbrev pub pbump : ℕ → PutArea → PutArea
pbump n a = record a { pptr = a.pptr + n }

-- `ofhbuf::setbuf` of a null pointer and 0. The storage is not written, so that the bytes from
-- `pbase()` to `pptr()` are still those that were there.
unfoldable pub setbuf : OutBuf → OutBuf
setbuf b =
    let a = put_area b in
    let a1 = setp a.pbase a.pptr a in
    let a2 = pbump (a1.pptr - a1.pbase) a1 in
    record {
      pending = take (a2.pptr - a2.pbase) (drop a2.pbase b.pending);
      room = a2.epptr - a2.pbase;
      buffer_size = 1;
    }

module _ (S : Sink) where
  open S use {State, write_fun}

  abbrev pub carry_on :
      {A B : Type 0} → Result A → (A → State → Result B × State) → State → Result B × State
  carry_on (ok a) next h = next a h
  carry_on (err thrown) next h = (err thrown, h)
  carry_on stuck next h = (stuck, h)

  -- The loop that writes what is left, a byte a round at least.
  unfoldable pub write_loop : ℕ → Bytes → State → Result (Unit {0}) × State
  write_loop fuel [] h = (ok tt, h)
  write_loop zero (c ∷ p) h = (stuck, h)
  write_loop (suc fuel) (c ∷ p) h =
      let (r, h1) = write_fun (c ∷ p) h in
      carry_on r (λ bytes_written. write_loop fuel (drop bytes_written (c ∷ p))) h1

  unfoldable pub write_all : Bytes → State → Result (Unit {0}) × State
  unfolding write_loop
  write_all p = write_loop (length p) p

  -- A buffer is reset after its bytes are written; an exception leaves it as it was.
  abbrev pub with_buf :
      OutBuf → OutBuf → Result (Unit {0}) × State → Result (Unit {0}) × OutBuf × State
  with_buf kept b (ok done, h) = (ok done, b, h)
  with_buf kept b (err thrown, h) = (err thrown, kept, h)
  with_buf kept b (stuck, h) = (stuck, kept, h)

  -- `ofhbuf::overflow`; `none` is `eof()`.
  unfoldable pub overflow : Option ℕ → OutBuf → State → Result (Unit {0}) × OutBuf × State
  unfolding reset_buffer write_all
  overflow c b h = with_buf b (reset_buffer b) (write_all (b.pending ++ eof_or c) h)

  -- `ofhbuf::sync`
  unfoldable pub sync : OutBuf → State → Result (Unit {0}) × OutBuf × State
  unfolding overflow
  sync = overflow none

  -- `std::streambuf::sputc`
  unfoldable pub sputc : ℕ → OutBuf → State → Result (Unit {0}) × OutBuf × State
  unfolding overflow
  sputc c b h =
      if ltb (length b.pending) b.room
      then (ok tt, record b { pending = b.pending ++ (c ∷ []) }, h)
      else overflow (some c) b h

  abbrev pub after :
      {A : Type 0}
      → Result A × OutBuf × State
      → (OutBuf → State → Result (Unit {0}) × OutBuf × State)
      → Result (Unit {0}) × OutBuf × State
  after (ok done, b, h) next = next b h
  after (err thrown, b, h) next = (err thrown, b, h)
  after (stuck, b, h) next = (stuck, b, h)

  -- `std::streambuf::xsputn`: as if by calls of `sputc`.
  unfoldable pub sputc_each : Bytes → OutBuf → State → Result (Unit {0}) × OutBuf × State
  unfolding sputc
  sputc_each [] b h = (ok tt, b, h)
  sputc_each (c ∷ s) b h = after (sputc c b h) (sputc_each s)

  -- The direct write of `ofhbuf::xsputn`, after the buffer is flushed.
  unfoldable pub write_direct : Bytes → OutBuf → State → Result (Unit {0}) × OutBuf × State
  unfolding write_all
  write_direct s b h = with_buf b b (write_all s h)

  -- `ofhbuf::xsputn`
  unfoldable pub xsputn : Bytes → OutBuf → State → Result (Unit {0}) × OutBuf × State
  unfolding sputc_each write_direct overflow
  xsputn s b h =
      if ltb (length s) (min 4096 (b.room - length b.pending))
      then sputc_each s b h
      else if is_nil b.pending
      then write_direct s b h
      else after (overflow none b h) (write_direct s)

  -- `ofhbuf::~ofhbuf`, of a handle that is not null: exceptions are ignored.
  unfoldable pub destroy : OutBuf → State → State
  unfolding sync
  destroy b h = (sync b h).2

-- The calls that a client of the stream makes.
pub data Put : Type 0 where
  char : ℕ → Put
  text : Bytes → Put
  flush : Put

module _ (S : Sink) where
  unfoldable pub put_one : Put → OutBuf → S.State → Result (Unit {0}) × OutBuf × S.State
  unfolding sputc xsputn sync
  put_one (char c) = sputc S c
  put_one (text s) = xsputn S s
  put_one flush = sync S

  -- They stop at the first exception.
  unfoldable pub put_all : List Put → OutBuf → S.State → Result (Unit {0}) × OutBuf × S.State
  unfolding put_one
  put_all [] b h = (ok tt, b, h)
  put_all (p ∷ puts) b h = after S (put_one p b h) (put_all puts)
