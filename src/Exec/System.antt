-- ===== src/Exec/System.antt =====
-- util-unix.cpp and random_bytes: calls of the system, with the errors that they throw.
use git_crypt.Base.{
  ℕ, ◌/◌, ◌%◌, ◌^◌, ◌⊎◌, inl, inr, Bool, true, false, not, ◌&&◌, ◌||◌, Option, none, some, List, [],
  ◌∷◌, ◌++◌, Bytes, codes, length, get_or, equal, ◌==◌, ltb, if◌then◌else◌, any_byte, is_nil,
}
use git_crypt.Base.Results.{system_error, crypto_error, logic_error, ok, err}
use git_crypt.Host.{Host}
use git_crypt.Exec.{Exec, ◌>>=◌, ◌>>◌, pure, throw, ask, call, skip, when}
use git_crypt.Base.{less}

abbrev pub enoent : ℕ
enoent = 2

abbrev pub enotdir : ℕ
enotdir = 20

-- `std::sort`
unfoldable pub insert_sorted : Bytes → List Bytes → List Bytes
insert_sorted s [] = s ∷ []
insert_sorted s (t ∷ ts) = if less t s then t ∷ insert_sorted s ts else s ∷ (t ∷ ts)

unfoldable pub sort : List Bytes → List Bytes
unfolding insert_sorted
sort [] = []
sort (s ∷ ts) = insert_sorted s (sort ts)

-- `exit_status`: `none` is -1. WIFEXITED and WEXITSTATUS are those of Linux.
unfoldable pub exit_status : ℕ → Option ℕ
exit_status wait_status =
    if wait_status % 2 ^ 7 == 0 then some (wait_status / 2 ^ 8 % 2 ^ 8) else none

unfoldable pub successful_exit : ℕ → Bool
unfolding exit_status
successful_exit wait_status = elim (exit_status wait_status) [ none ↦ false | some s ↦ s == 0 ]

-- The names without "." and "..".
unfoldable pub directory_entries : List Bytes → List Bytes
directory_entries [] = []
directory_entries (s ∷ ts) =
    let rest = directory_entries ts in
    if equal s (codes ".") || equal s (codes "..") then rest else s ∷ rest

module _ ⦃H : Host⦄ where
  -- `if (call == -1 && errno != ignored) { throw System_error(action, target, errno); }`
  abbrev check_errno : Bool → Bytes → Bytes → ℕ → Exec (Unit {0})
  check_errno fails action target errno = when fails (throw (system_error action target errno))

  unfoldable pub touch_file : Bytes → Exec (Unit {0})
  touch_file filename = do
    errno ← call (H.utimes filename)
    check_errno (not (errno == 0) && not (errno == enoent)) (codes "utimes") filename errno

  unfoldable pub remove_file : Bytes → Exec (Unit {0})
  remove_file filename = do
    errno ← call (H.unlink filename)
    check_errno (not (errno == 0) && not (errno == enoent)) (codes "unlink") filename errno

  unfoldable pub create_protected_file : Bytes → Exec (Unit {0})
  create_protected_file path = do
    errno ← call (H.open_create path)
    check_errno (not (errno == 0)) (codes "open") path errno

  -- The body of the loop of `mkdir_parent`.
  unfoldable pub ensure_directory : ℕ ⊎ Bool → Bytes → Exec (Unit {0})
  ensure_directory (inr true) prefix = skip
  ensure_directory (inr false) prefix = throw (system_error (codes "mkdir_parent") prefix enotdir)
  ensure_directory (inl errno) prefix = do
    when (not (errno == enoent)) (throw (system_error (codes "mkdir_parent") prefix errno))
    failed ← call (H.mkdir prefix)
    check_errno (not (failed == 0)) (codes "mkdir") prefix failed

  -- From the prefix already passed: every '/' but one at the start ends a parent's path.
  unfoldable pub mkdir_parents : Bytes → Bytes → Exec (Unit {0})
  unfolding ensure_directory
  mkdir_parents prefix [] = skip
  mkdir_parents prefix (c ∷ path) = do
    when (c == b'/' && not (is_nil prefix))
        (do status ← ask (H.stat_is_dir prefix); ensure_directory status prefix)
    mkdir_parents (prefix ++ (c ∷ [])) path

  unfoldable pub mkdir_parent : Bytes → Exec (Unit {0})
  unfolding mkdir_parents
  mkdir_parent path = mkdir_parents [] path

  unfoldable pub get_directory_contents : Bytes → Exec (List Bytes)
  unfolding directory_entries sort
  get_directory_contents path = do
    listing ← ask (H.read_dir path)
    elim listing [
      | inl errno ↦ throw (system_error (codes "opendir") path errno)
      | inr (names, errno) ↦ (do
        check_errno (not (errno == 0)) (codes "readdir") path errno
        pure (sort (directory_entries names)))
    ]

  -- A null `realpath` makes the constructor of `std::string` throw.
  unfoldable pub our_exe_path : Exec Bytes
  our_exe_path w =
      if get_or w.argv0 0 0 == b'/'
      then (ok w.argv0, w)
      else if any_byte b'/' w.argv0
      then elim (H.realpath w.argv0 w.host) [
        | none ↦ (err (logic_error (codes "basic_string")), w)
        | some path ↦ (ok path, w)
      ]
      else (ok w.argv0, w)

  -- `temp_fstream::open`, on a stream that is not open. The umask is set around `mkstemp` and put
  -- back, and the descriptor is closed, on every path.
  unfoldable pub open_temp_file : Exec (Unit {0})
  open_temp_file = do
    found ← ask (H.getenv (codes "TMPDIR"))
    let named : Bytes = elim found [ none ↦ [] | some d ↦ d ]
    let tmpdir = if length named == 0 || ltb 4096 (length named) then codes "/tmp" else named
    made ← call (H.mkstemp (tmpdir ++ codes "/git-crypt.XXXXXX"))
    elim made [
      | inl errno ↦ throw (system_error (codes "mkstemp") [] errno)
      | inr path ↦ (do
        opened ← call (H.open_temp path)
        call (λ h. (tt, (H.unlink path h).1))
        when (not opened) (throw (system_error (codes "std::fstream::open") path 0)))
    ]

  error_messages : List Bytes → Bytes
  error_messages [] = []
  error_messages (s ∷ ts) = codes "OpenSSL Error: " ++ (s ++ (codes "; " ++ error_messages ts))

  -- `random_bytes`, of crypto-openssl-11.cpp
  unfoldable pub random_bytes : ℕ → Exec Bytes
  unfolding error_messages
  random_bytes len = do
    drawn ← call (H.rand_bytes len)
    elim drawn [
      | inl queue ↦ throw (crypto_error (codes "random_bytes") (error_messages queue))
      | inr bytes ↦ pure bytes
    ]
