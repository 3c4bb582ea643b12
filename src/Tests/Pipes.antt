-- ===== src/Tests/Pipes.antt =====
-- Streams over handles and coprocesses, on small systems.
use git_crypt.Base.{
  map, ℕ, zero, suc, ◌≤◌, ◌≡◌, ◌≢◌, refl, sym, List, [], ◌∷◌, ◌++◌, Bytes, length, take, drop,
  replicate, none, codes, arith,
}
use git_crypt.Base.Results.{Result, Exception, ok, err, stuck}
use git_crypt.FileHandle.Output.{
  Sink, out_buf, sync, setbuf, after, put_all, Put, char, text, flush,
}
use git_crypt.FileHandle.Writes.{Pipe, all_bytes}
use git_crypt.FileHandle.Delivery.{Flushed, sync-put_all, sync-setbuf}
use git_crypt.FileHandle.Input.{Source, InBuf, in_buf, underflow, Get, peek, next, read, get_all}
use git_crypt.FileHandle.Storage.{Feed}
use git_crypt.FileHandle.Arrival.{Agrees, stream_get_all, get_all-in_buf}
use git_crypt.Tests.Toy.{length-replicate}

-- A handle that takes one byte at a time.
unfoldable pub take_byte : Bytes → Bytes → Result ℕ × Bytes
take_byte [] h = (ok 0, h)
take_byte (c ∷ p) h = (ok 1, h ++ (c ∷ []))

abbrev slow_sink : Sink
slow_sink = record { State = Bytes; write_fun = take_byte }

take_byte-takes :
    (c : ℕ) (p h h1 : Bytes) (n : ℕ)
    → take_byte (c ∷ p) h ≡ (ok n, h1)
    → (1 ≤ n) × (n ≤ length (c ∷ p)) × (h1 ≡ h ++ take n (c ∷ p))
unfolding take_byte
take_byte-takes c p h h1 n e =
    let one : 1 ≡ n = cc in
    let got : h ++ (c ∷ []) ≡ h1 = cc in rw (← one) (omega arith, omega arith, sym got)

take_byte-fails :
    (c : ℕ) (p h h1 : Bytes) (e : Exception) → take_byte (c ∷ p) h ≡ (err e, h1) → ⊥ × (h1 ≡ h)
unfolding take_byte
take_byte-fails c p h h1 e eq = cc

take_byte-returns : (c : ℕ) (p h h1 : Bytes) → take_byte (c ∷ p) h ≢ (stuck, h1)
unfolding take_byte
take_byte-returns c p h h1 eq = cc

abbrev slow_pipe : Pipe slow_sink
slow_pipe = record {
  received = λ h. h;
  takes = take_byte-takes;
  Fault = λ e. ⊥;
  fails = take_byte-fails;
  returns = take_byte-returns;
}

abbrev puts : List Put
puts = char b'a' ∷ (text (codes "bc") ∷ (flush ∷ (text (replicate 4096 b'd') ∷ [])))

sync-put_all_example :
    Flushed slow_sink slow_pipe
      (slow_pipe.received (codes "x") ++ all_bytes puts)
      (after slow_sink (put_all slow_sink puts out_buf (codes "x")) (sync slow_sink))
sync-put_all_example = sync-put_all slow_sink slow_pipe puts (codes "x")

-- Two bytes that are not flushed.
sync-setbuf_example :
    let (r, b, h1) = put_all slow_sink (map char (codes "ab")) out_buf [] in
    let (r2, b2, h2) = sync slow_sink (setbuf b) h1 in
    (r ≡ ok tt)
    × (r2 ≡ ok tt)
    × (b2.pending ≡ [])
    × (h2 ≡ [])
    × Flushed slow_sink slow_pipe ([] ++ codes "ab") (sync slow_sink b h1)
sync-setbuf_example = sync-setbuf slow_sink slow_pipe (codes "ab") [] (omega arith)

-- A handle that gives one byte at a time.
unfoldable pub give_byte : ℕ → Bytes → Result Bytes × Bytes
give_byte zero h = (ok [], h)
give_byte (suc n) [] = (ok [], [])
give_byte (suc n) (c ∷ h) = (ok (c ∷ []), h)

abbrev slow_source : Source
slow_source = record { State = Bytes; read_fun = give_byte }

give_byte-gives :
    (n : ℕ) (h h1 s : Bytes) → give_byte (suc n) h ≡ (ok s, h1) → (length s ≤ suc n) × (h ≡ s ++ h1)
unfolding give_byte
give_byte-gives n [] h1 s e =
    let none_given : [] ≡ s = cc in
    let none_left : [] ≡ h1 = cc in rw (← none_given, ← none_left) (omega arith, refl)
give_byte-gives n (c ∷ h) h1 s e =
    let given : c ∷ [] ≡ s = cc in
    let rest : h ≡ h1 = cc in rw (← given, ← rest) (omega arith, refl)

give_byte-ends : (n : ℕ) (h h1 : Bytes) → give_byte (suc n) h ≡ (ok [], h1) → h ≡ []
unfolding give_byte
give_byte-ends n [] h1 e = refl
give_byte-ends n (c ∷ h) h1 e = cc

give_byte-returns : (n : ℕ) (h h1 : Bytes) → give_byte (suc n) h ≢ (stuck, h1)
unfolding give_byte
give_byte-returns n [] h1 e = cc
give_byte-returns n (c ∷ h) h1 e = cc

abbrev slow_feed : Feed slow_source
slow_feed = record {
  unread = λ h. h;
  gives = give_byte-gives;
  ends = give_byte-ends;
  returns = give_byte-returns;
}

abbrev gets : List Get
gets = peek ∷ (next ∷ (read 5000 ∷ (next ∷ [])))

abbrev storage : Bytes
storage = replicate 8196 0

get_all-in_buf_example :
    Agrees slow_source slow_feed.unread
      (stream_get_all gets (slow_feed.unread (codes "abc")))
      (get_all slow_source gets (in_buf storage) (codes "abc"))
get_all-in_buf_example =
    get_all-in_buf slow_source slow_feed gets storage (codes "abc") (length-replicate 8196 0)

-- A buffer that has been read to its end: "ab" was put back, "cd" came after it.
abbrev read_up : InBuf
read_up = record {
  buffer = 0 ∷ (0 ∷ (codes "abcd" ++ replicate 6 0));
  eback = 2;
  gptr = 6;
  egptr = 6;
  buffer_size = 6;
}

-- At the end of the file the last bytes are moved, but the places are not: between `eback()` and
-- `gptr()` there is now "cdcd" where there was "abcd".
putback_after_end :
    let (c, b, h) = underflow slow_source read_up [] in
    (c ≡ ok none) × (b.eback ≡ 2) × (b.gptr ≡ 6) × (take 4 (drop 2 b.buffer) ≡ codes "cdcd")
unfolding underflow give_byte
putback_after_end = (refl, refl, refl, refl)
