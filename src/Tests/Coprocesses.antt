-- ===== src/Tests/Coprocesses.antt =====
-- Coprocesses, on a small system.
use git_crypt.Base.{
  ℕ, zero, suc, ◌+◌, ◌-◌, ◌≤◌, ◌<◌, ◌≡◌, refl, ap, sym, ◌⊎◌, inl, inr, List, [], ◌∷◌, ◌++◌, Bytes,
  length, take, replicate, ◌==◌, if◌then◌else◌, Bool, true, false, Option, none, some, codes, arith,
  take_of_le,
}
use git_crypt.Base.Results.{ok}
use git_crypt.FileHandle.Output.{Put, char, text, flush, out_buf, put_all}
use git_crypt.FileHandle.Writes.{all_bytes}
use git_crypt.FileHandle.Input.{next}
use git_crypt.Coprocess.{
  Kernel, Coprocess, coprocess, eintr, stdin_sink, close_stdin, destroy_coprocess,
}
use git_crypt.Coprocess.Streams.{
  Step, open_stdin, open_stdout, put, get, spawned, waited, shut_stdin, run_steps,
}
use git_crypt.Coprocess.Descriptors.{Table, bit, held, held_by}
use git_crypt.Coprocess.Tidy.{run_steps-Accounted}
use git_crypt.Coprocess.Delivery.{Channel, close_stdin-received}
use git_crypt.Coprocess.Child.{Descriptors, apply_calls, child_calls, child_calls-streams}

-- The open descriptors, the bytes in the pipe, and whether the next call is interrupted.
pub record Machine : Type 0 where
  pub open_fds : List ℕ
  pub in_pipe : Bytes
  pub signalled : Bool

unfoldable pub mem : ℕ → List ℕ → Bool
mem fd [] = false
mem fd (x ∷ fds) = if fd == x then true else mem fd fds

unfoldable pub remove : ℕ → List ℕ → List ℕ
remove x [] = []
remove x (y ∷ fds) = let rest = remove x fds in if y == x then rest else y ∷ rest

-- The lowest descriptor above all of them.
unfoldable pub above : List ℕ → ℕ
above [] = 3
above (x ∷ fds) = x + 1 + above fds

mem-above : (fds : List ℕ) (fd : ℕ) → above fds ≤ fd → mem fd fds ≡ false
unfolding mem above
mem-above [] fd h = refl
mem-above (x ∷ fds) fd h =
    let other : (fd == x) ≡ false = ground arith in rw other (mem-above fds fd (omega arith))

abbrev pipe_of : Machine → (ℕ ⊎ (ℕ × ℕ)) × Machine
pipe_of m =
    let r = above m.open_fds in (inr (r, r + 1), record m { open_fds = r ∷ ((r + 1) ∷ m.open_fds) })

abbrev close_of : ℕ → Machine → Machine
close_of x m = record m { open_fds = remove x m.open_fds }

-- The first call after a signal is interrupted.
abbrev write_of : Bytes → Bool → Machine → (ℕ ⊎ ℕ) × Machine
write_of p false m = (inr (length p), record m { in_pipe = m.in_pipe ++ p })
write_of p true m = (inl eintr, record m { signalled = false })

abbrev read_of : ℕ → Bool → Bytes → Machine → (ℕ ⊎ Bytes) × Machine
read_of n true s m = (inl eintr, record m { signalled = false })
read_of zero false s m = (inr [], m)
read_of (suc n) false [] m = (inr [], record m { in_pipe = [] })
read_of (suc n) false (c ∷ s) m = (inr (c ∷ []), record m { in_pipe = s })

abbrev machine : Kernel
machine = record {
  State = Machine;
  pipe = pipe_of;
  close = close_of;
  write = λ fd p m. write_of p m.signalled m;
  read = λ fd n m. read_of n m.signalled m.in_pipe m;
  fork = λ m. (inr 100, m);
  waitpid = λ pid m. (inr 0, m);
}

mem-remove :
    (x fd : ℕ) (fds : List ℕ) → bit (mem fd (remove x fds)) ≡ bit (mem fd fds) - held (some x) fd
unfolding mem remove
mem-remove x fd [] = ground arith
mem-remove x fd (y ∷ fds) = ground (arith, mem-remove x fd fds)

machine-pipe :
    (h h1 : Machine) (r w : ℕ)
    → pipe_of h ≡ (inr (r, w), h1)
    → (fd : ℕ)
    → bit (mem fd h1.open_fds) ≡ bit (mem fd h.open_fds) + held (some r) fd + held (some w) fd
unfolding mem
machine-pipe h h1 r w e fd =
    let top = above h.open_fds in
    let reader : top ≡ r = cc in
    let writer : top + 1 ≡ w = cc in
    let after : record h { open_fds = top ∷ ((top + 1) ∷ h.open_fds) } ≡ h1 = cc in
    rw (← after, ← reader, ← writer) (ground (arith, mem-above h.open_fds fd))

machine-pipe_fails :
    (h h1 : Machine) (errno : ℕ)
    → pipe_of h ≡ (inl errno, h1)
    → (fd : ℕ) → mem fd h1.open_fds ≡ mem fd h.open_fds
machine-pipe_fails h h1 errno e fd = cc

write_of-open_fds :
    (p : Bytes) (b : Bool) (m : Machine) (fd : ℕ)
    → mem fd (write_of p b m).1.open_fds ≡ mem fd m.open_fds
write_of-open_fds p false m fd = refl
write_of-open_fds p true m fd = refl

read_of-open_fds :
    (n : ℕ) (b : Bool) (s : Bytes) (m : Machine) (fd : ℕ)
    → mem fd (read_of n b s m).1.open_fds ≡ mem fd m.open_fds
read_of-open_fds n true s m fd = refl
read_of-open_fds zero false s m fd = refl
read_of-open_fds (suc n) false [] m fd = refl
read_of-open_fds (suc n) false (c ∷ s) m fd = refl

abbrev machine_table : Table machine
machine_table = record {
  is_open = λ m fd. mem fd m.open_fds;
  pipe_opens = machine-pipe;
  pipe_fails = machine-pipe_fails;
  closes = λ x m fd. mem-remove x fd m.open_fds;
  write_keeps = λ w p m fd. write_of-open_fds p m.signalled m fd;
  read_keeps = λ r n m fd. read_of-open_fds n m.signalled m.in_pipe m fd;
  fork_keeps = λ m fd. refl;
  waitpid_keeps = λ p m fd. refl;
}

abbrev start : Machine
start = record { open_fds = 0 ∷ (1 ∷ (2 ∷ [])); in_pipe = []; signalled = true }

abbrev steps : List Step
steps =
    open_stdin
    ∷ (open_stdout (replicate 8196 0)
        ∷ (spawned ∷ (put (text (codes "hi")) ∷ (shut_stdin ∷ (get next ∷ (waited ∷ []))))))

run_steps-Accounted_example :
    let (c, h1) = run_steps machine 2 steps coprocess start in
    let (c2, h2) = destroy_coprocess machine 2 c h1 in
    ((fd : ℕ)
      → bit (machine_table.is_open h1 fd) ≡ bit (machine_table.is_open start fd) + held_by c fd)
    × ((fd : ℕ) → machine_table.is_open h2 fd ≡ machine_table.is_open start fd)
run_steps-Accounted_example = run_steps-Accounted machine machine_table 2 steps start

bit-lt-two : (b : Bool) → bit b < 2
bit-lt-two true = omega arith
bit-lt-two false = omega arith

write_of-takes :
    (c : ℕ) (p : Bytes) (m m1 : Machine) (b : Bool) (n : ℕ)
    → write_of (c ∷ p) b m ≡ (inr n, m1)
    → (1 ≤ n) × (n ≤ length (c ∷ p)) × (m1.in_pipe ≡ m.in_pipe ++ take n (c ∷ p))
write_of-takes c p m m1 true n e = cc
write_of-takes c p m m1 false n e =
    let all : length (c ∷ p) ≡ n = cc in
    let after : record m { in_pipe = m.in_pipe ++ (c ∷ p) } ≡ m1 = cc in
    rw (← after, ← all)
      (
        omega arith,
        omega arith,
        ap (◌++◌ m.in_pipe) (sym (take_of_le (length (c ∷ p)) (c ∷ p) (omega arith))),
      )

write_of-interrupted :
    (p : Bytes) (m m1 : Machine) (b : Bool) (errno : ℕ)
    → m.signalled ≡ b
    → write_of p b m ≡ (inl errno, m1)
    → (errno ≡ eintr) × (bit m1.signalled < bit m.signalled) × (m1.in_pipe ≡ m.in_pipe)
write_of-interrupted p m m1 true errno s e =
    let code : eintr ≡ errno = cc in
    let after : record m { signalled = false } ≡ m1 = cc in
    rw (← after, ← code, ap bit s) (refl, omega arith, refl)
write_of-interrupted p m m1 false errno s e = cc

abbrev channel : (fd : Option ℕ) → Channel machine 2 fd
channel fd = record {
  received = λ m. m.in_pipe;
  interrupts = λ m. bit m.signalled;
  takes = λ c p m m1 n e. write_of-takes c p m m1 m.signalled n e;
  interrupted = λ p m m1 errno e. write_of-interrupted p m m1 m.signalled errno refl e;
  bounded = λ m. bit-lt-two m.signalled;
  closed = λ x m. refl;
}

abbrev with_stdin : Coprocess
with_stdin = record {
  pid = none;
  stdin_pipe_reader = some 3;
  stdin_pipe_writer = some 4;
  stdin_pipe_ostream = some out_buf;
  stdout_pipe_reader = none;
  stdout_pipe_writer = none;
  stdout_pipe_istream = none;
}

abbrev puts : List Put
puts = text (codes "a") ∷ (flush ∷ (char b'b' ∷ []))

close_stdin-received_example :
    let (r, b, h1) = put_all (stdin_sink machine 2 (some 4)) puts out_buf start in
    let (c2, h2) = close_stdin machine 2 (record with_stdin { stdin_pipe_ostream = some b }) h1 in
    (r ≡ ok tt)
    × ((channel (some 4)).received h2 ≡ (channel (some 4)).received start ++ all_bytes puts)
    × (c2.stdin_pipe_writer ≡ none)
close_stdin-received_example =
    close_stdin-received machine 2 with_stdin (channel (some 4)) puts start

-- The child's part, with the pipes 3, 4 and 5, 6.
abbrev both_pipes : Coprocess
both_pipes = record with_stdin { stdout_pipe_reader = some 5; stdout_pipe_writer = some 6 }

abbrev files : Descriptors
files fd = some (fd + 100)

child_calls-streams_example :
    let after = apply_calls (child_calls both_pipes) files in
    (after 0 ≡ files 3)
    × (after 1 ≡ files 6)
    × (after 4 ≡ (
        if ◌==◌ 4 3
        then none
        else if ◌==◌ 4 4
        then none
        else if ◌==◌ 4 5
        then none
        else if ◌==◌ 4 6
        then none
        else files 4))
child_calls-streams_example =
    child_calls-streams both_pipes 3 4 5 6 4 files refl refl refl refl (omega arith) (omega arith)

-- With the standard input closed, `pipe` may give 0, and the child is left without it.
abbrev pipe_at_zero : Coprocess
pipe_at_zero = record with_stdin { stdin_pipe_reader = some 0; stdin_pipe_writer = some 3 }

child_loses_stdin : apply_calls (child_calls pipe_at_zero) files 0 ≡ none
unfolding child_calls
child_loses_stdin = refl
