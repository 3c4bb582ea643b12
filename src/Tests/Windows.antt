-- ===== src/Tests/Windows.antt =====
-- The parts for Windows, on a small system.
use mathlib.Core.Option.{some-injective}
use git_crypt.Base.{
  Option, sym, ap, equal, equal_refl, if◌then◌else◌, ℕ, zero, suc, ◌≤◌, ◌<◌, ◌≡◌, refl, ◌⊎◌, inl,
  inr, List, [], ◌∷◌, ◌++◌, Bytes, length, take, replicate, Bool, true, false, none, some, codes,
  arith,
}
use git_crypt.Base.Results.{ok}
use git_crypt.FileHandle.Input.{in_buf, Get, peek, next, read, get_all}
use git_crypt.FileHandle.Arrival.{Agrees, stream_get_all}
use git_crypt.Windows.CommandLine.{format_cmdline}
use git_crypt.Windows.Runtime.{read_cmdline}
use git_crypt.Windows.Arguments.{read_cmdline-format_cmdline}
use git_crypt.Windows.Win32.{ExplicitAccess, Win32}
use git_crypt.Windows.System.{our_exe_path, create_protected_file}
use git_crypt.Windows.ExePath.{our_exe_path_lem}
use git_crypt.Windows.Protected.{Security, Protected, create_protected_file-Protected}
use git_crypt.Windows.Coprocess.{Kernel32, stdout_source, error_broken_pipe}
use git_crypt.Windows.Arrival.{ChildPipe, get_all-ChildPipe}
use git_crypt.Tests.Toy.{length-replicate}

-- `git`, with an argument that ends with a backslash and one with a quote after one.
abbrev command : List Bytes
command = codes "a b\\" ∷ (codes "c\\\"d" ∷ ([] ∷ []))

format_cmdline-command :
    format_cmdline (codes "git" ∷ command) ≡ codes "\"git\" \"a b\\\\\" \"c\\\\\\\"d\" \"\""
unfolding format_cmdline
format_cmdline-command = refl

read_cmdline-format_cmdline_example :
    read_cmdline (format_cmdline (codes "git" ∷ command)) ≡ codes "git" ∷ command
read_cmdline-format_cmdline_example =
    read_cmdline-format_cmdline (codes "git") command (omega arith)
      (λ e. ground arith, (λ e. ground arith, (λ e. ground arith, λ e. ground arith)))
      (omega arith, (omega arith, (omega arith, tt)))

-- A program of that path.
abbrev exe : Bytes
exe = replicate 300 b'x'

-- A list is its entries, a descriptor its list and whether it is protected, and the state is the
-- descriptors of the files, the latest first; a descriptor begins with a list of no entries.
abbrev Acl : Type 0
Acl = List ExplicitAccess

abbrev Descriptor : Type 0
Descriptor = Option Acl × Bool

abbrev Descriptors : Type 0
Descriptors = List (Bytes × Descriptor)

abbrev descriptor_of : Bytes → Descriptors → Option Descriptor
descriptor_of path [] = none
descriptor_of path ((name, d) ∷ files) =
    let more = descriptor_of path files in if equal path name then some d else more

abbrev with_attributes : Bytes → Option Descriptor → Option Descriptor → Descriptors → Descriptors
with_attributes path given (some old) files = files
with_attributes path none none files = (path, (none, false)) ∷ files
with_attributes path (some d) none files = (path, d) ∷ files

abbrev windows : Win32
windows = record {
  State = Descriptors;
  Acl = Acl;
  Descriptor = Descriptor;
  Handle = ℕ;
  open_process_token = λ h. true;
  token_size = λ h. 4;
  token_user = λ n h. some (codes "user");
  set_entries_in_acl = λ access h. some (access ∷ []);
  initialize_descriptor = λ h. some (none, false);
  set_descriptor_dacl = λ d l h. some (some l, d.1);
  set_descriptor_control = λ d h. some (d.0, true);
  get_temp_path = λ h. inr (codes "C:/tmp");
  get_temp_file_name = λ dir h. (inr (dir ++ codes "/git-crypt.tmp"), h);
  set_named_security_info = λ name l h. h;
  set_temporary = λ name h. h;
  open_stream = λ name h. (true, h);
  close_stream = λ h. h;
  delete_file = λ name h. (0, h);
  has_attributes = λ name h. false;
  create_directory = λ name h. (0, h);
  get_module_file_name = λ size h. (take size exe, 122);
  open_existing = λ name h. (inr 1, h);
  open_always = λ name d h. (inr 1, with_attributes name d (descriptor_of name h) h);
  set_file_time = λ handle h. (0, h);
  close_handle = λ handle h. h;
  unlink = λ name h. h;
  rename = λ from to h. (0, h);
  find_files = λ patt h. inr ([], 18);
  format_message = λ code. codes "error";
}

our_exe_path_lem_example : our_exe_path windows [] ≡ (ok exe, [])
our_exe_path_lem_example = our_exe_path_lem windows [] exe (λ size. 122) (λ size. refl)

created-descriptor_of :
    (path : Bytes) (d : Descriptor) (h h1 : Descriptors)
    → descriptor_of path h ≡ none
    → with_attributes path (some d) (descriptor_of path h) h ≡ h1
    → descriptor_of path h1 ≡ some d
created-descriptor_of path d h h1 missing e = rw (← e, missing, equal_refl path) refl

kept-descriptor_of :
    (path : Bytes) (d old : Descriptor) (h h1 : Descriptors)
    → descriptor_of path h ≡ some old
    → with_attributes path (some d) (descriptor_of path h) h ≡ h1
    → descriptor_of path h1 ≡ some old
kept-descriptor_of path d old h h1 there e = rw (← e, there) there

abbrev windows_security : Security windows
windows_security = record {
  entries = λ l. l;
  list_of = λ d. d.0;
  is_protected = λ d. d.1;
  descriptor_of = descriptor_of;
  makes_list = λ access h l e. let made : access ∷ [] ≡ l = some-injective _ _ e in sym made;
  sets_list = λ d d1 l h e.
      let made : (some l, d.1) ≡ d1 = some-injective _ _ e in
      ap (λ (x : Descriptor). x.0) (sym made);
  protects = λ d d1 h e.
      let made : (d.0, true) ≡ d1 = some-injective _ _ e in
      (ap (λ (x : Descriptor). x.0) (sym made), ap (λ (x : Descriptor). x.1) (sym made));
  creates = λ path d h h1 fh missing e.
      created-descriptor_of path d h h1 missing (ap (λ (r : (ℕ ⊎ ℕ) × Descriptors). r.1) e);
  keeps = λ path d old h h1 fh there e.
      kept-descriptor_of path d old h h1 there (ap (λ (r : (ℕ ⊎ ℕ) × Descriptors). r.1) e);
  closes = λ path fh h. refl;
}

create_protected_file-Protected_example :
    Protected windows windows_security 0
      (codes "key")
      []
      none
      (create_protected_file windows 0 (codes "key") [])
create_protected_file-Protected_example =
    create_protected_file-Protected windows windows_security 0 (codes "key") []

-- A pipe from a child that writes nothing first; the flag says that this was not read yet.
abbrev ChildState : Type 0
ChildState = Bytes × Bool

abbrev read_of : ℕ → ChildState → (ℕ ⊎ Bytes) × ChildState
read_of n (s, true) = (inr [], (s, false))
read_of n ([], false) = (inl error_broken_pipe, ([], false))
read_of zero (c ∷ s, false) = (inr [], (c ∷ s, false))
read_of (suc n) (c ∷ s, false) = (inr (c ∷ []), (s, false))

abbrev child : Kernel32
child = record {
  State = ChildState;
  Handle = ℕ;
  create_pipe = λ h. (inr (1, 2), h);
  keep_private = λ handle h. (none, h);
  create_process = λ line input output h. (inr 3, h);
  close_handle = λ handle h. h;
  wait_for = λ process h. (none, h);
  exit_code = λ process h. (inr 0, h);
  write_file = λ handle s h. (inr (length s), h);
  read_file = λ handle n h. read_of n h;
}

abbrev empty_writes : ChildState → ℕ
empty_writes (s, true) = 1
empty_writes (s, false) = 0

read_of-gives :
    (n c : ℕ) (s : Bytes) (h h1 : ChildState)
    → read_of (suc n) h ≡ (inr (c ∷ s), h1)
    → (length (c ∷ s) ≤ suc n) × (h.0 ≡ (c ∷ s) ++ h1.0)
read_of-gives n c s (t, true) h1 e = cc
read_of-gives n c s ([], false) h1 e = cc
read_of-gives n c s (d ∷ t, false) h1 e =
    let head : d ≡ c = cc in
    let tail : [] ≡ s = cc in
    let rest : (t, false) ≡ h1 = cc in rw (← head, ← tail, ← rest) (omega arith, refl)

read_of-gives_none :
    (n : ℕ) (h h1 : ChildState)
    → read_of (suc n) h ≡ (inr [], h1)
    → (h1.0 ≡ h.0) × (empty_writes h1 < empty_writes h)
read_of-gives_none n (t, true) h1 e =
    let rest : (t, false) ≡ h1 = cc in rw (← rest) (refl, omega arith)
read_of-gives_none n ([], false) h1 e = cc
read_of-gives_none n (d ∷ t, false) h1 e = cc

read_of-breaks :
    (n : ℕ) (h h1 : ChildState)
    → read_of (suc n) h ≡ (inl error_broken_pipe, h1)
    → (h.0 ≡ []) × (h1.0 ≡ [])
read_of-breaks n (t, true) h1 e = cc
read_of-breaks n ([], false) h1 e = let rest : ([], false) ≡ h1 = cc in rw (← rest) (refl, refl)
read_of-breaks n (d ∷ t, false) h1 e = cc

empty_writes-lt-two : (h : ChildState) → empty_writes h < 2
empty_writes-lt-two (s, true) = omega arith
empty_writes-lt-two (s, false) = omega arith

abbrev child_pipe : ChildPipe child 2 none
child_pipe = record {
  unread = λ h. h.0;
  empty_writes = empty_writes;
  gives = λ n c s h h1 small e. read_of-gives n c s h h1 e;
  gives_none = λ n h h1 small e. read_of-gives_none n h h1 e;
  breaks = λ n h h1 small e. read_of-breaks n h h1 e;
  bounded = empty_writes-lt-two;
}

abbrev gets : List Get
gets = next ∷ (read 2 ∷ (peek ∷ []))

abbrev written : ChildState
written = (codes "abc", true)

get_all-ChildPipe_example :
    Agrees
      (stdout_source child 2 none)
      child_pipe.unread
      (stream_get_all gets (child_pipe.unread written))
      (get_all (stdout_source child 2 none) gets (in_buf (replicate 8196 0)) written)
get_all-ChildPipe_example =
    get_all-ChildPipe child 2 none child_pipe gets (replicate 8196 0) written
      (tt, (omega arith, (tt, tt))) (length-replicate 8196 0)
