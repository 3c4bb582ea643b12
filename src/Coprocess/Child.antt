-- ===== src/Coprocess/Child.antt =====
-- coprocess-unix.cpp, `spawn` in the child: the calls between `fork` and `execvp`, and what they do
-- to the child's descriptors.
use git_crypt.Base.{
  ℕ, ◌<◌, ◌≡◌, ◌≢◌, List, [], ◌∷◌, ◌++◌, ◌==◌, if◌then◌else◌, Option, none, some, arith,
}
use git_crypt.Coprocess.{Coprocess}

-- The calls that change the child's descriptors.
pub data Call : Type 0 where
  close : ℕ → Call
  dup2 : ℕ → ℕ → Call

abbrev close_it : Option ℕ → List Call
close_it none = []
close_it (some fd) = close fd ∷ []

abbrev move_to : ℕ → Option ℕ → List Call
move_to target none = []
move_to target (some fd) = dup2 fd target ∷ (close fd ∷ [])

-- `Coprocess::spawn` in the child, up to `execvp`.
unfoldable pub child_calls : Coprocess → List Call
child_calls c =
    close_it c.stdin_pipe_writer
    ++ (close_it c.stdout_pipe_reader
        ++ (move_to 0 c.stdin_pipe_reader ++ move_to 1 c.stdout_pipe_writer))

-- What each descriptor stands for: an open file, or none.
abbrev pub Descriptors : Type 0
Descriptors = ℕ → Option ℕ

-- `close(2)` and `dup2(2)`, of descriptors that are open.
abbrev pub apply_call : Call → Descriptors → Descriptors
apply_call (close x) t fd = if fd == x then none else t fd
apply_call (dup2 x target) t fd = if fd == target then t x else t fd

abbrev pub apply_calls : List Call → Descriptors → Descriptors
apply_calls [] t = t
apply_calls (call ∷ calls) t = apply_calls calls (apply_call call t)

-- The descriptors of two pipes: four different ones, none of them a standard stream.
abbrev pub IsApart : ℕ → ℕ → ℕ → ℕ → Type 0
IsApart a b c d =
    (1 < a)
    × (1 < b)
    × (1 < c)
    × (1 < d)
    × (a ≢ b)
    × (a ≢ c)
    × (a ≢ d)
    × (b ≢ c)
    × (b ≢ d)
    × (c ≢ d)

module _ (c : Coprocess) (r w r' w' fd : ℕ) (t : Descriptors) where
  -- With both pipes open on four different descriptors above 1, the child that `spawn` prepares
  -- reads the one pipe as its standard input and writes the other as its standard output, has
  -- none of the four descriptors open itself, and any other descriptor above 1 is what it was.
  pub child_calls-streams :
      c.stdin_pipe_reader ≡ some r
      → c.stdin_pipe_writer ≡ some w
      → c.stdout_pipe_reader ≡ some r'
      → c.stdout_pipe_writer ≡ some w'
      → IsApart r w r' w'
      → 1 < fd
      → let after = apply_calls (child_calls c) t in
        (after 0 ≡ t r)
        × (after 1 ≡ t w')
        × (after fd ≡ (
            if fd == r
            then none
            else if fd == w
            then none
            else if fd == r'
            then none
            else if fd == w'
            then none
            else t fd))
  unfolding child_calls
  child_calls-streams a b e d apart above =
      rw (a, b, e, d) (ground arith, ground arith, ground arith)
