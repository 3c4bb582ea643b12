-- ===== src/Windows/Win32.antt =====
-- util-win32.cpp: what it calls of Windows, and how a failing call is thrown.
use git_crypt.Base.{ℕ, ◌^◌, ◌⊎◌, Bool, Option, List, Bytes, ◌==◌, if◌then◌else◌}
use git_crypt.Base.Results.{Result, system_error, ok, err, stuck}

-- `EXPLICIT_ACCESS`, of a user: the rights, the mode and the inheritance, as Windows numbers them.
pub record ExplicitAccess : Type 0 where
  pub permissions : ℕ
  pub mode : ℕ
  pub inheritance : ℕ
  pub trustee : Bytes

abbrev pub generic_all : ℕ
generic_all = 2 ^ 28

abbrev pub set_access : ℕ
set_access = 2

abbrev pub no_inheritance : ℕ
no_inheritance = 0

-- The calls, with the error code of GetLastError where one fails; 0 stands for success.
pub record Win32 : Type 1 where
  pub State : Type 0
  -- An access control list, and a security descriptor.
  pub Acl : Type 0
  pub Descriptor : Type 0
  pub Handle : Type 0
  pub open_process_token : State → Bool
  -- GetTokenInformation, of no buffer and of one of that size.
  pub token_size : State → ℕ
  pub token_user : ℕ → State → Option Bytes
  -- SetEntriesInAcl of one entry and no old list.
  pub set_entries_in_acl : ExplicitAccess → State → Option Acl
  -- InitializeSecurityDescriptor, SetSecurityDescriptorDacl of a list that is present and not by
  -- default, and SetSecurityDescriptorControl of SE_DACL_PROTECTED: what they make of a descriptor.
  pub initialize_descriptor : State → Option Descriptor
  pub set_descriptor_dacl : Descriptor → Acl → State → Option Descriptor
  pub set_descriptor_control : Descriptor → State → Option Descriptor
  -- GetTempPath: the path, however long it is. GetTempFileName makes an empty file.
  pub get_temp_path : State → ℕ ⊎ Bytes
  pub get_temp_file_name : Bytes → State → (ℕ ⊎ Bytes) × State
  pub set_named_security_info : Bytes → Option Acl → State → State
  pub set_temporary : Bytes → State → State
  pub open_stream : Bytes → State → Bool × State
  pub close_stream : State → State
  pub delete_file : Bytes → State → ℕ × State
  -- GetFileAttributes is not INVALID_FILE_ATTRIBUTES.
  pub has_attributes : Bytes → State → Bool
  pub create_directory : Bytes → State → ℕ × State
  -- GetModuleFileName, of a buffer of that size: the bytes that it put there, whose number it
  -- returns, and the error code.
  pub get_module_file_name : ℕ → State → Bytes × ℕ
  -- CreateFile to write attributes of an existing file, and with OPEN_ALWAYS and such attributes.
  pub open_existing : Bytes → State → (ℕ ⊎ Handle) × State
  pub open_always : Bytes → Option Descriptor → State → (ℕ ⊎ Handle) × State
  pub set_file_time : Handle → State → ℕ × State
  pub close_handle : Handle → State → State
  pub unlink : Bytes → State → State
  pub rename : Bytes → Bytes → State → ℕ × State
  -- FindFirstFile, or the names that FindNextFile gives and the code that it ends with.
  pub find_files : Bytes → State → ℕ ⊎ (List Bytes × ℕ)
  pub format_message : ℕ → Bytes

abbrev pub max_path : ℕ
max_path = 260

abbrev pub error_file_not_found : ℕ
error_file_not_found = 2

abbrev pub error_no_more_files : ℕ
error_no_more_files = 18

abbrev pub error_buffer_overflow : ℕ
error_buffer_overflow = 111

module _ (W : Win32) where
  open W use {State}

  -- A call that returns or throws.
  abbrev pub Run : Type 0 → Type 0
  Run A = State → Result A × State

  abbrev pub go_on : {A B : Type 0} → Result A × State → (A → Run B) → Result B × State
  go_on (ok a, h) f = f a h
  go_on (err e, h) f = (err e, h)
  go_on (stuck, h) f = (stuck, h)

  abbrev pub throws : {A : Type 0} → Bytes → Bytes → ℕ → Run A
  throws action target code h = (err (system_error action target code), h)

  -- A call that gives 0, or throws its code.
  abbrev pub checked : Bytes → Bytes → ℕ × State → Result (Unit {0}) × State
  checked action target (code, h) =
      if code == 0 then (ok tt, h) else (err (system_error action target code), h)
