-- ===== src/FileHandle/Delivery.antt =====
-- fhstream.cpp, `ofhbuf`: an output buffer refines the stream of the bytes that were put into it.
use Prim.Native.Nat.{min}
use mathlib.Core.Path.{subst}
use git_crypt.Base.{
  ℕ, ◌-◌, ◌≡◌, refl, sym, ap, ◌∙◌, List, [], ◌∷◌, ◌++◌, append_assoc, append-nil, Bytes, length,
  is_nil, ltb, Option, none, arith, Bool-cases, inl, inr, ◌+◌, ◌≤◌, ◌<◌, true, map, length-append,
}
use git_crypt.Base.Results.{Result, ok, err, stuck}
use git_crypt.FileHandle.Output.{
  Sink, OutBuf, out_buf, sputc, default_buffer_size, reset_buffer, write_loop, write_all, overflow,
  sync, write_direct, xsputn, with_buf, after, eof_or, setbuf, Put, char, text, flush, put_one,
  put_all,
}
use git_crypt.FileHandle.Writes.{
  Pipe, IsBuffer, eq_nil, bytes_of, all_bytes, Delivered, put_so_far, overflow-Delivered,
  sputc-Delivered, after-Delivered, sputc_each-Delivered, write_direct-Delivered,
}

module _ (S : Sink) (P : Pipe S) where
  with_buf-ok :
      (kept b b' : OutBuf) (r : Result (Unit {0}) × S.State) (h : S.State)
      → with_buf S kept b r ≡ (ok tt, b', h)
      → b' ≡ b
  with_buf-ok kept b b' (ok done, h') h e =
      ap (λ (t : Result (Unit {0}) × OutBuf × S.State). t.1) (sym e)
  with_buf-ok kept b b' (err x, h') h e = cc
  with_buf-ok kept b b' (stuck, h') h e = cc

  -- The buffer is empty once it was written out.
  overflow-empties :
      (c : Option ℕ) (b b' : OutBuf) (h h' : S.State)
      → overflow S c b h ≡ (ok tt, b', h')
      → b'.pending ≡ []
  unfolding overflow reset_buffer
  overflow-empties c b b' h h' e =
      ap (λ (t : OutBuf). t.pending)
        (with_buf-ok b (reset_buffer b) b' (write_all S (b.pending ++ eof_or c) h) h' e)

  pub flush-Delivered :
      (b : OutBuf) (h : S.State)
      → IsBuffer b
      → Delivered S P (put_so_far S P b h) (overflow S none b h)
  flush-Delivered b h v =
      let d : Delivered S P (put_so_far S P b h ++ []) (overflow S none b h) =
        overflow-Delivered S P none b h v in
      rw (← append-nil (put_so_far S P b h)) d

  xsputn-Delivered :
      (s : Bytes) (b : OutBuf) (h : S.State)
      → IsBuffer b
      → Delivered S P (put_so_far S P b h ++ s) (xsputn S s b h)
  unfolding xsputn
  xsputn-Delivered s b h v =
      elim (Bool-cases (ltb (length s) (min 4096 (b.room - length b.pending)))) [
        | inl small ↦ rw small (sputc_each-Delivered S P s b h v)
        | inr large ↦ elim (Bool-cases (is_nil b.pending)) [
          | inl empty ↦
              rw (large, empty) (write_direct-Delivered S P s b h v (eq_nil b.pending empty))
          | inr held ↦
              rw (large, held)
                (after-Delivered S P (put_so_far S P b h) s (overflow S none b h) (write_direct S s)
                  (flush-Delivered b h v)
                  (λ b' h' v' e.
                    write_direct-Delivered S P s b' h' v' (overflow-empties none b b' h h' e)))
        ]
      ]

  put_one-Delivered :
      (p : Put) (b : OutBuf) (h : S.State)
      → IsBuffer b
      → Delivered S P (put_so_far S P b h ++ bytes_of p) (put_one S p b h)
  unfolding put_one sync
  put_one-Delivered (char c) b h v = sputc-Delivered S P c b h v
  put_one-Delivered (text s) b h v = xsputn-Delivered s b h v
  put_one-Delivered flush b h v = overflow-Delivered S P none b h v

  pub put_all-Delivered :
      (puts : List Put) (b : OutBuf) (h : S.State)
      → IsBuffer b
      → Delivered S P (put_so_far S P b h ++ all_bytes puts) (put_all S puts b h)
  unfolding put_all
  put_all-Delivered [] b h v = (v, sym (append-nil (put_so_far S P b h)))
  put_all-Delivered (p ∷ puts) b h v =
      rw (← append_assoc (put_so_far S P b h) (bytes_of p) (all_bytes puts)) (
        after-Delivered S P (put_so_far S P b h ++ bytes_of p) (all_bytes puts) (put_one S p b h)
          (put_all S puts) (put_one-Delivered p b h v)
          (λ b' h' v' e. put_all-Delivered puts b' h' v'))

  -- After the bytes are flushed: the buffer is empty and they were received, or a write failed.
  abbrev pub Flushed : Bytes → Result (Unit {0}) × OutBuf × S.State → Type 0
  Flushed total (ok done, b, h) = (b.pending ≡ []) × (P.received h ≡ total)
  Flushed total (err e, b, h) = P.Fault e × (lost : Bytes) × (P.received h ++ lost ≡ total)
  Flushed total (stuck, b, h) = ⊥

  Flushed-empty :
      (total : Bytes) (r : Result (Unit {0}) × OutBuf × S.State)
      → Delivered S P total r
      → ((b : OutBuf) (h : S.State) → r ≡ (ok tt, b, h) → b.pending ≡ [])
      → Flushed total r
  Flushed-empty total (ok done, b, h) (v, e) f =
      let empty = f b h refl in (empty, sym (append-nil (P.received h)) ∙ rw (← empty) e)
  Flushed-empty total (err x, b, h) d f = d
  Flushed-empty total (stuck, b, h) d f = d

  pub after-sync-Flushed :
      (total : Bytes) (r : Result (Unit {0}) × OutBuf × S.State)
      → Delivered S P total r
      → Flushed total (after S r (sync S))
  unfolding sync
  after-sync-Flushed total (ok done, b, h) (v, e) =
      Flushed-empty total (overflow S none b h) (rw (← e) (flush-Delivered b h v))
        (λ b' h' e'. overflow-empties none b b' h h' e')
  after-sync-Flushed total (err x, b, h) d = d
  after-sync-Flushed total (stuck, b, h) d = absurd d

  pub out_buf-IsBuffer : IsBuffer out_buf
  unfolding out_buf
  out_buf-IsBuffer = omega arith

  -- Whatever bytes, texts and flushes a client puts into a fresh output buffer, a flush after
  -- them leaves the buffer empty with all the bytes received by the handle in their order, behind
  -- those received before; or a write threw one of its exceptions, and what was received is the
  -- beginning of them. The handle takes a byte at least of what it is given, and none where it
  -- fails.
  pub sync-put_all :
      (puts : List Put) (h : S.State)
      → Flushed (P.received h ++ all_bytes puts) (after S (put_all S puts out_buf h) (sync S))
  sync-put_all puts h =
      let start : put_so_far S P out_buf h ≡ P.received h =
        unfold out_buf in append-nil (P.received h) in
      after-sync-Flushed (P.received h ++ all_bytes puts) (put_all S puts out_buf h)
        (rw (← start) (put_all-Delivered puts out_buf h out_buf-IsBuffer))

  -- The bytes that a client puts one at a time stay in the buffer while there is room.
  put_all-held :
      (s : Bytes) (b : OutBuf) (h : S.State)
      → length b.pending + length s ≤ b.room
      → put_all S (map char s) b h ≡ (ok tt, record b { pending = b.pending ++ s }, h)
  unfolding put_all put_one sputc
  put_all-held [] b h fits = rw (append-nil b.pending) refl
  put_all-held (c ∷ s) b h fits =
      let room : ltb (length b.pending) b.room ≡ true = ground arith in
      let b1 = record b { pending = b.pending ++ (c ∷ []) } in
      rw room (
        put_all-held s b1 h (omega (arith, length-append b.pending (c ∷ [])))
        ∙ rw (append_assoc b.pending (c ∷ []) s) refl)

  all_bytes-char : (s : Bytes) → all_bytes (map char s) ≡ s
  all_bytes-char [] = refl
  all_bytes-char (c ∷ s) = ap (◌∷◌ c) (all_bytes-char s)

  -- Where fewer than 8192 bytes are put one at a time into a fresh output buffer, `setbuf` of a
  -- null pointer loses them: the flush that follows returns, leaves nothing in the buffer, and
  -- leaves the handle as it was at the start. Without `setbuf`, that flush delivers all of them,
  -- unless a write throws. The writes of the handle take a beginning of what they are given.
  pub sync-setbuf :
      (s : Bytes) (h : S.State)
      → length s < default_buffer_size
      → let (r, b, h1) = put_all S (map char s) out_buf h in
        let (r2, b2, h2) = sync S (setbuf b) h1 in
        (r ≡ ok tt)
        × (r2 ≡ ok tt)
        × (b2.pending ≡ [])
        × (h2 ≡ h)
        × Flushed (P.received h ++ s) (sync S b h1)
  unfolding sync overflow setbuf reset_buffer write_all write_loop
  sync-setbuf s h fits =
      let held = put_all-held s out_buf h (unfold out_buf in omega arith) in
      let delivered : Flushed (P.received h ++ s)
          (after S (put_all S (map char s) out_buf h) (sync S)) =
        subst
          (λ (t : Bytes).
            Flushed (P.received h ++ t) (after S (put_all S (map char s) out_buf h) (sync S)))
          (all_bytes-char s) (sync-put_all (map char s) h) in
      rw held (refl, refl, refl, refl, rw held at delivered)
