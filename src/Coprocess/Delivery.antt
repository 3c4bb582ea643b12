-- ===== src/Coprocess/Delivery.antt =====
-- What a client puts into a coprocess's standard input arrives there, also where writes are
-- interrupted, before the descriptor is closed.
use git_crypt.Base.{
  ℕ, zero, suc, ◌≤◌, ◌<◌, ◌≡◌, refl, ap, ◌∙◌, ◌⊎◌, inl, inr, List, ◌∷◌, ◌++◌, Bytes, length, take,
  Option, none, some, arith, codes, append-nil, ==_iff,
}
use mathlib.Core.Path.{subst}
use git_crypt.Base.Results.{Result, ok, err, stuck}
use git_crypt.FileHandle.Output.{OutBuf, out_buf, destroy, sync, Put, put_all}
use git_crypt.FileHandle.Writes.{Pipe, Delivered, all_bytes}
use git_crypt.FileHandle.Delivery.{Flushed, after-sync-Flushed, put_all-Delivered, out_buf-IsBuffer}
use git_crypt.Coprocess.{
  Kernel, Coprocess, eintr, restart, write_tries, write_stdin, stdin_sink, close_some, close_stdin,
}

-- A pipe whose reader stays there: `write` takes a byte at least, or it was interrupted and took
-- none, and it is interrupted fewer times in a row than it is tried. Closing loses nothing.
pub record Channel (K : Kernel) (tries : ℕ) (writer : Option ℕ) : Type 0 where
  pub received : K.State → Bytes
  pub interrupts : K.State → ℕ
  pub takes :
      (c : ℕ) (p : Bytes) (h h1 : K.State) (n : ℕ)
      → K.write writer (c ∷ p) h ≡ (inr n, h1)
      → (1 ≤ n) × (n ≤ length (c ∷ p)) × (received h1 ≡ received h ++ take n (c ∷ p))
  pub interrupted :
      (p : Bytes) (h h1 : K.State) (errno : ℕ)
      → K.write writer p h ≡ (inl errno, h1)
      → (errno ≡ eintr) × (interrupts h1 < interrupts h) × (received h1 ≡ received h)
  pub bounded : (h : K.State) → interrupts h < tries
  pub closed : (x : ℕ) (h : K.State) → received (K.close x h) ≡ received h

module _ (K : Kernel) (tries : ℕ) (writer : Option ℕ) (C : Channel K tries writer) where
  -- A write that was tried again until it was not interrupted.
  abbrev Tried : ℕ → Bytes → K.State → Result ℕ × K.State → Type 0
  Tried c p h (ok n, h1) =
      (1 ≤ n) × (n ≤ length (c ∷ p)) × (C.received h1 ≡ C.received h ++ take n (c ∷ p))
  Tried c p h (err e, h1) = ⊥
  Tried c p h (stuck, h1) = ⊥

  Tried-same :
      (c : ℕ) (p : Bytes) (h1 h : K.State) (r : Result ℕ × K.State)
      → C.received h1 ≡ C.received h
      → Tried c p h1 r
      → Tried c p h r
  Tried-same c p h1 h (ok n, h2) e (lo, hi, t) =
      (lo, hi, t ∙ ap (λ (s : Bytes). s ++ take n (c ∷ p)) e)
  Tried-same c p h1 h (err x, h2) e t = t
  Tried-same c p h1 h (stuck, h2) e t = t

  restart-Tried :
      (c : ℕ) (p : Bytes) (h : K.State) (r : (ℕ ⊎ ℕ) × K.State)
      (again : K.State → Result ℕ × K.State)
      → K.write writer (c ∷ p) h ≡ r
      → ((h1 : K.State) → C.interrupts h1 < C.interrupts h → Tried c p h1 (again h1))
      → Tried c p h (restart K tries (codes "write") r again)
  restart-Tried c p h (inr n, h1) again e f = C.takes c p h h1 n e
  restart-Tried c p h (inl errno, h1) again e f =
      let stopped = C.interrupted (c ∷ p) h h1 errno e in
      let again' : Tried c p h (again h1) =
        Tried-same c p h1 h (again h1) stopped.2 (f h1 stopped.1) in
      rw ((==_iff errno eintr).1 stopped.0) again'

  write_tries-Tried :
      (k c : ℕ) (p : Bytes) (h : K.State)
      → C.interrupts h < k
      → Tried c p h (write_tries K tries k writer (c ∷ p) h)
  unfolding write_tries
  write_tries-Tried zero c p h lt = absurd (omega arith)
  write_tries-Tried (suc k) c p h lt =
      restart-Tried c p h (K.write writer (c ∷ p) h) (write_tries K tries k writer (c ∷ p)) refl
        (λ h1 less. write_tries-Tried k c p h1 (omega arith))

  write_stdin-Tried :
      (c : ℕ) (p : Bytes) (h : K.State) → Tried c p h (write_stdin K tries writer (c ∷ p) h)
  unfolding write_stdin
  write_stdin-Tried c p h = write_tries-Tried tries c p h (C.bounded h)

  -- `write_stdin` is a write that never throws.
  write_stdin-Pipe : Pipe (stdin_sink K tries writer)
  write_stdin-Pipe = record {
    received = C.received;
    Fault = λ e. ⊥;
    takes = λ c p h h1 n e. subst (Tried c p h) e (write_stdin-Tried c p h);
    fails = λ c p h h1 x e. absurd (subst (Tried c p h) e (write_stdin-Tried c p h));
    returns = λ c p h h1 e. subst (Tried c p h) e (write_stdin-Tried c p h);
  }

  close_some-received :
      (x : Option ℕ) (h : K.State) → C.received (close_some K tries x h) ≡ C.received h
  close_some-received none h = refl
  close_some-received (some x) h = C.closed x h

  -- After a stream is deleted, all that was put into it was received.
  Flushed-received :
      (total : Bytes) (r : Result (Unit {0}) × OutBuf × K.State)
      → Flushed (stdin_sink K tries writer) write_stdin-Pipe total r
      → C.received r.2 ≡ total
  unfolding write_stdin-Pipe
  Flushed-received total (ok done, b, h) f = f.1
  Flushed-received total (err e, b, h) f = absurd f.0
  Flushed-received total (stuck, b, h) f = absurd f

  destroy-received :
      (total : Bytes) (x : Result (Unit {0}) × OutBuf × K.State)
      → Delivered (stdin_sink K tries writer) write_stdin-Pipe total x
      → (x.0 ≡ ok tt) × (C.received (destroy (stdin_sink K tries writer) x.1 x.2) ≡ total)
  unfolding destroy write_stdin-Pipe
  destroy-received total (ok done, b, h) d =
      let S = stdin_sink K tries writer in
      (
        refl,
        Flushed-received total (sync S b h)
            (after-sync-Flushed S write_stdin-Pipe total (ok done, b, h) d),
      )
  destroy-received total (err e, b, h) d = absurd d.0
  destroy-received total (stuck, b, h) d = absurd d

  out_buf-Delivered :
      (puts : List Put) (h : K.State)
      → Delivered
          (stdin_sink K tries writer)
          write_stdin-Pipe
          (C.received h ++ all_bytes puts)
          (put_all (stdin_sink K tries writer) puts out_buf h)
  unfolding write_stdin-Pipe out_buf
  out_buf-Delivered puts h = rw (← append-nil (C.received h)) (
      put_all-Delivered (stdin_sink K tries writer) write_stdin-Pipe puts out_buf h
        (out_buf-IsBuffer (stdin_sink K tries writer) write_stdin-Pipe))

-- What a client puts into the standard input of a coprocess is taken without an exception, and
-- once `close_stdin` is done all of it was received in its order, behind what was received
-- before, and the descriptor is given up; writes take a byte at least or are interrupted, and
-- fewer times in a row than they are tried.
pub close_stdin-received :
    (K : Kernel) (tries : ℕ) (c : Coprocess) (C : Channel K tries c.stdin_pipe_writer)
    (puts : List Put) (h : K.State)
    → let (r, b, h1) = put_all (stdin_sink K tries c.stdin_pipe_writer) puts out_buf h in
      let (c2, h2) = close_stdin K tries (record c { stdin_pipe_ostream = some b }) h1 in
      (r ≡ ok tt) × (C.received h2 ≡ C.received h ++ all_bytes puts) × (c2.stdin_pipe_writer ≡ none)
unfolding close_stdin
close_stdin-received K tries c C puts h =
    let writer = c.stdin_pipe_writer in
    let S = stdin_sink K tries writer in
    let (r, b, h1) = put_all S puts out_buf h in
    let total = C.received h ++ all_bytes puts in
    let d =
      destroy-received K tries writer C total (put_all S puts out_buf h)
        (out_buf-Delivered K tries writer C puts h) in
    let h2 = destroy S b h1 in
    let shut =
      close_some-received K tries writer C c.stdin_pipe_reader (close_some K tries writer h2)
      ∙ close_some-received K tries writer C writer h2 in
    (d.0, shut ∙ d.1, refl)
