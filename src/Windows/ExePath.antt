-- ===== src/Windows/ExePath.antt =====
-- util-win32.cpp, `our_exe_path`: the buffer grows until the whole path fits.
use git_crypt.Base.{
  ℕ, zero, suc, ◌%◌, [], codes, if◌then◌else◌, refl, ◌*◌, ◌^◌, ◌<◌, ◌≡◌, inl, inr, false, Bytes,
  length, take, ◌==◌, arith, length-take, take_of_le, Bool-cases, ==_iff, ltb→lt, ltb, ◌≤◌, ◌∙◌,
}
use git_crypt.Base.Results.{Result, ok, err, system_error}
use git_crypt.Windows.Win32.{Win32}
use git_crypt.Windows.System.{our_exe_path, exe_path_loop}

-- The size of the buffer after so many rounds.
abbrev doubled : ℕ → ℕ → ℕ
doubled zero size = size
doubled (suc rounds) size = doubled rounds (size * 2)

-- The fuel for so many rounds and the two at the end.
abbrev fuel_for : ℕ → ℕ
fuel_for zero = 2
fuel_for (suc rounds) = suc (fuel_for rounds)

le-doubled : (rounds size : ℕ) → size ≤ doubled rounds size
le-doubled zero size = omega arith
le-doubled (suc rounds) size = omega (arith, le-doubled rounds (size * 2))

-- What the path of the program makes of `our_exe_path`: the whole path, or the error of the call
-- where there is none, and where it is too long for a buffer whose size is a DWORD.
abbrev pub exe_path_of : Bytes → (ℕ → ℕ) → Result Bytes
exe_path_of path code =
    if length path == 0
    then err (system_error (codes "GetModuleFileNameA") [] (code 128))
    else if ltb (length path) (2 ^ 31)
    then ok path
    else err (system_error (codes "GetModuleFileNameA") [] (code 0))

module _ (W : Win32) (h : W.State) (path : Bytes) (code : ℕ → ℕ)
    (copies : (size : ℕ) → W.get_module_file_name size h ≡ (take size path, code size)) where
  -- A round whose buffer is large enough.
  exe_path_fits :
      (rounds size : ℕ)
      → size < 2 ^ 32
      → 0 < length path
      → length path < size
      → exe_path_loop W (suc rounds) size h ≡ (ok path, h)
  unfolding exe_path_loop
  exe_path_fits rounds size small some_path lt =
      let shorter : (length path == size) ≡ false = ground arith in
      let there : (length path == 0) ≡ false = ground arith in
      let cast : size % 2 ^ 32 ≡ size = omega (arith, small) in
      rw (cast, copies size, take_of_le size path (omega arith), shorter, there) refl

  -- A round whose buffer is filled up.
  exe_path_grows :
      (rounds size : ℕ)
      → size < 2 ^ 32
      → size ≤ length path
      → exe_path_loop W (suc rounds) size h ≡ exe_path_loop W rounds (size * 2) h
  unfolding exe_path_loop
  exe_path_grows rounds size small le =
      let filled : length (take size path) ≡ size = omega (arith, length-take size path) in
      let cast : size % 2 ^ 32 ≡ size = omega (arith, small) in
      rw (cast, copies size, (==_iff (length (take size path)) size).1 filled) refl

  -- The path fits before the size is cast to another.
  exe_path_loop_fits :
      (rounds size : ℕ)
      → doubled rounds size < 2 ^ 32
      → 0 < length path
      → length path < doubled rounds size
      → exe_path_loop W (fuel_for rounds) size h ≡ (ok path, h)
  exe_path_loop_fits zero size small some_path lt = exe_path_fits 1 size small some_path lt
  exe_path_loop_fits (suc rounds) size small some_path lt =
      let less : size < 2 ^ 32 = omega (arith, le-doubled (suc rounds) size, small) in
      elim (Bool-cases (ltb (length path) size)) [
        | inl fits ↦
            exe_path_fits (fuel_for rounds) size less some_path (ltb→lt (length path) size fits)
        | inr longer ↦
            exe_path_grows (fuel_for rounds) size less (ground arith)
            ∙ exe_path_loop_fits rounds (size * 2) small some_path lt
      ]

  -- The path fills every buffer before that.
  exe_path_loop_fills :
      (rounds size : ℕ)
      → doubled rounds size < 2 ^ 32
      → doubled rounds size ≤ length path
      → exe_path_loop W (fuel_for rounds) size h ≡ exe_path_loop W 1 (doubled rounds size * 2) h
  exe_path_loop_fills zero size small le = exe_path_grows 1 size small le
  exe_path_loop_fills (suc rounds) size small le =
      let less = le-doubled (suc rounds) size in
      exe_path_grows (fuel_for rounds) size (omega (arith, less, small)) (omega (arith, less, le))
      ∙ exe_path_loop_fills rounds (size * 2) small le

  -- A round that asks for nothing, as its size is cast to 0.
  exe_path_cast :
      exe_path_loop W 1 (2 ^ 32) h
      ≡ (err (system_error (codes "GetModuleFileNameA") [] (code 0)), h)
  unfolding exe_path_loop
  exe_path_cast = rw (copies 0) refl

  exe_path_none :
      length path ≡ 0
      → exe_path_loop W 26 128 h
        ≡ (err (system_error (codes "GetModuleFileNameA") [] (code 128)), h)
  unfolding exe_path_loop
  exe_path_none e =
      let none_copied : length (take 128 path) ≡ 0 = omega (arith, length-take 128 path, e) in
      rw (copies 128, none_copied) refl

  -- On Windows, where the call for the path of the program copies as much of it as fits into its
  -- buffer, `our_exe_path` ends for a path of any length and changes nothing: it returns the
  -- whole path if that is not empty and shorter than 2^31 bytes, and otherwise throws with the
  -- error code that the call leaves, for an empty path on the first buffer, for a longer one on a
  -- buffer whose size is cut to 0 by the cast to 32 bits.
  pub our_exe_path_lem : our_exe_path W h ≡ (exe_path_of path code, h)
  unfolding our_exe_path
  our_exe_path_lem = elim (Bool-cases (length path == 0)) [
    | inl none ↦ rw none (exe_path_none ((==_iff (length path) 0).0 none))
    | inr some_path ↦ elim (Bool-cases (ltb (length path) (2 ^ 31))) [
      | inl short ↦
          rw (some_path, short)
            (exe_path_loop_fits 24 128 (omega arith) (ground arith) (ground arith))
      | inr long ↦
          rw (some_path, long)
            (exe_path_loop_fills 24 128 (omega arith) (ground arith) ∙ exe_path_cast)
    ]
  ]
