-- ===== src/Windows/System.antt =====
-- util-win32.cpp: the calls of Windows, with the errors that they throw.
use git_crypt.Base.{
  ℕ, zero, suc, ◌*◌, ◌%◌, ◌^◌, true, ◌⊎◌, inl, inr, Bool, false, not, ◌&&◌, ◌||◌, Option, none,
  some, List, [], ◌∷◌, ◌++◌, Bytes, codes, length, ◌==◌, ltb, if◌then◌else◌, is_nil,
}
use git_crypt.Exec.System.{directory_entries}
use git_crypt.Base.Results.{Result, system_error, ok, err, stuck}
use git_crypt.Windows.Win32.{
  Win32, ExplicitAccess, generic_all, set_access, no_inheritance, max_path, error_file_not_found,
  error_no_more_files, error_buffer_overflow, Run, go_on, throws, checked,
}

-- `exit_status`
abbrev pub exit_status : ℕ → ℕ
exit_status status = status

module _ (W : Win32) where
  open W use {State, Acl, Descriptor}

  -- `Owner_only_security`: the list, the descriptor, and whether the attributes are good.
  pub record OwnerOnly : Type 0 where
    pub dacl : Option Acl
    pub sd : Option Descriptor
    pub good : Bool

  -- The user of the token, if the token can be opened and read.
  unfoldable pub token_user_of : State → Option Bytes
  token_user_of h =
      if not (W.open_process_token h) || W.token_size h == 0
      then none
      else W.token_user (W.token_size h) h

  abbrev pub protected : Acl → Option Descriptor → OwnerOnly
  protected acl none = record { dacl = some acl; sd = none; good = false }
  protected acl (some sd) = record { dacl = some acl; sd = some sd; good = true }

  abbrev pub attached : Acl → Option Descriptor → State → OwnerOnly
  attached acl none h = protected acl none
  attached acl (some sd) h = protected acl (W.set_descriptor_control sd h)

  abbrev pub initialized : Acl → Option Descriptor → State → OwnerOnly
  initialized acl none h = protected acl none
  initialized acl (some sd) h = attached acl (W.set_descriptor_dacl sd acl h) h

  abbrev pub with_dacl : Option Acl → State → OwnerOnly
  with_dacl none h = record { dacl = none; sd = none; good = false }
  with_dacl (some acl) h = initialized acl (W.initialize_descriptor h) h

  -- All rights for that user.
  abbrev pub explicit_access : Bytes → ExplicitAccess
  explicit_access user_sid = record {
    permissions = generic_all;
    mode = set_access;
    inheritance = no_inheritance;
    trustee = user_sid;
  }

  abbrev pub for_user : Option Bytes → State → OwnerOnly
  for_user none h = record { dacl = none; sd = none; good = false }
  for_user (some user_sid) h = with_dacl (W.set_entries_in_acl (explicit_access user_sid) h) h

  -- The constructor.
  unfoldable pub owner_only : State → OwnerOnly
  unfolding token_user_of
  owner_only h = for_user (token_user_of h) h

  -- `attributes`, by the descriptor that they carry.
  unfoldable pub attributes : OwnerOnly → Option Descriptor
  attributes security = if security.good then security.sd else none

  -- `acl`
  unfoldable pub acl : OwnerOnly → Option Acl
  acl security = if security.good then security.dacl else none

  -- `System_error::message`
  unfoldable pub message : Bytes → Bytes → ℕ → Bytes
  message action target code =
      action
      ++ ((if is_nil target then [] else codes ": " ++ target)
          ++ (if code == 0 then [] else W.format_message code))

  -- `temp_fstream::close`, of a stream that is open or is not.
  unfoldable pub close_temp_file : Option Bytes → State → State
  close_temp_file none h = h
  close_temp_file (some filename) h = (W.delete_file filename (W.close_stream h)).1

  -- The file is for its owner only before it is opened; that this fails is passed over.
  protect_temp_file : Bytes → State → State
  unfolding owner_only acl
  protect_temp_file filename h =
      let security = owner_only h in
      let h1 = if security.good then W.set_named_security_info filename (acl security) h else h in
      W.set_temporary filename h1

  open_named : Bytes → Run W Bytes
  unfolding protect_temp_file
  open_named filename h =
      let (opened, h1) = W.open_stream filename (protect_temp_file filename h) in
      if opened then (ok filename, h1) else (
        err (system_error (codes "std::fstream::open") filename 0),
        (W.delete_file filename h1).1,
      )

  named_temp : (ℕ ⊎ Bytes) × State → Result Bytes × State
  unfolding open_named
  named_temp (inl code, h) = throws W (codes "GetTempFileName") [] code h
  named_temp (inr filename, h) = open_named filename h

  temp_in : ℕ ⊎ Bytes → Run W Bytes
  unfolding named_temp
  temp_in (inl code) h = throws W (codes "GetTempPath") [] code h
  temp_in (inr tmpdir) h =
      if ltb max_path (length tmpdir)
      then throws W (codes "GetTempPath") [] error_buffer_overflow h
      else named_temp (W.get_temp_file_name tmpdir h)

  -- `temp_fstream::open`: the name of the file.
  unfoldable pub open_temp_file : Option Bytes → Run W Bytes
  unfolding close_temp_file temp_in
  open_temp_file open_file h =
      let h1 = close_temp_file open_file h in temp_in (W.get_temp_path h1) h1

  -- The body of the loop of `mkdir_parent`.
  unfoldable pub ensure_directory : Bytes → Run W (Unit {0})
  ensure_directory prefix h =
      if W.has_attributes prefix h
      then (ok tt, h)
      else checked W (codes "CreateDirectory") prefix (W.create_directory prefix h)

  -- From the prefix already passed: every '/' but one at the start ends a parent's path.
  unfoldable pub mkdir_parents : Bytes → Bytes → Run W (Unit {0})
  mkdir_parents prefix [] h = (ok tt, h)
  mkdir_parents prefix (c ∷ path) h =
      go_on W (if c == b'/' && not (is_nil prefix) then ensure_directory prefix h else (ok tt, h))
        (λ done. mkdir_parents (prefix ++ (c ∷ [])) path)

  unfoldable pub mkdir_parent : Bytes → Run W (Unit {0})
  unfolding mkdir_parents ensure_directory
  mkdir_parent = mkdir_parents []

  -- A round of the loop of `our_exe_path`, on a buffer of that size; it grows while it is filled up,
  -- and nothing in it is an error.
  abbrev pub exe_path_round : ℕ → Bytes × ℕ → Run W Bytes → Run W Bytes
  exe_path_round size (path, code) grow h =
      if length path == size
      then grow h
      else if length path == 0
      then throws W (codes "GetModuleFileNameA") [] code h
      else (ok path, h)

  -- The size of the buffer is cast to a DWORD.
  unfoldable pub exe_path_loop : ℕ → ℕ → Run W Bytes
  exe_path_loop zero size h = (stuck, h)
  exe_path_loop (suc fuel) size h =
      exe_path_round size (W.get_module_file_name (size % 2 ^ 32) h) (exe_path_loop fuel (size * 2))
        h

  -- The size is 2 ^ 32 in the 26th round, where the cast makes 0 of it.
  unfoldable pub our_exe_path : Run W Bytes
  unfolding exe_path_loop
  our_exe_path = exe_path_loop 26 128

  touch_handle : Bytes → (ℕ ⊎ W.Handle) × State → Result (Unit {0}) × State
  touch_handle filename (inl code, h) =
      if code == error_file_not_found
      then (ok tt, h)
      else throws W (codes "CreateFileA") filename code h
  touch_handle filename (inr fh, h) =
      let (code, h1) = W.set_file_time fh h in
      checked W (codes "SetFileTime") filename (code, W.close_handle fh h1)

  unfoldable pub touch_file : Bytes → Run W (Unit {0})
  unfolding touch_handle
  touch_file filename h = touch_handle filename (W.open_existing filename h)

  unfoldable pub remove_file : Bytes → Run W (Unit {0})
  remove_file filename h =
      let (code, h1) = W.delete_file filename h in
      if code == error_file_not_found
      then (ok tt, h1)
      else checked W (codes "DeleteFileA") filename (code, h1)

  abbrev pub protected_handle : Bytes → (ℕ ⊎ W.Handle) × State → Result (Unit {0}) × State
  protected_handle path (inl code, h) = throws W (codes "CreateFileA") path code h
  protected_handle path (inr fh, h) = (ok tt, W.close_handle fh h)

  -- `create_protected_file`, with the code that GetLastError has after the constructor.
  unfoldable pub create_protected_file : ℕ → Bytes → Run W (Unit {0})
  create_protected_file last_error path h =
      let security = owner_only h in
      if security.good
      then protected_handle path (W.open_always path (attributes security) h)
      else throws W (codes "create_protected_file") path last_error h

  unfoldable pub util_rename : Bytes → Bytes → State → ℕ × State
  util_rename from to h = W.rename from to (W.unlink to h)

  last_byte : ℕ → Bytes → ℕ
  last_byte d [] = d
  last_byte d (c ∷ s) = last_byte c s

  -- The pattern that is searched for.
  unfoldable pub search_pattern : Bytes → Bytes
  unfolding last_byte
  search_pattern path =
      let last = last_byte 0 path in
      let slashed = is_nil path || (last == b'/' || last == b'\\') in
      (if slashed then path else path ++ (b'\\' ∷ [])) ++ (b'*' ∷ [])

  found_files : Bytes → ℕ ⊎ (List Bytes × ℕ) → Run W (List Bytes)
  unfolding directory_entries
  found_files patt (inl code) h = throws W (codes "FindFirstFileA") patt code h
  found_files patt (inr (names, code)) h =
      if code == error_no_more_files
      then (ok (directory_entries names), h)
      else throws W (codes "FileNextFileA") patt code h

  unfoldable pub get_directory_contents : Bytes → Run W (List Bytes)
  unfolding search_pattern found_files
  get_directory_contents path h =
      found_files (search_pattern path) (W.find_files (search_pattern path) h) h
