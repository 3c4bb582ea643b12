-- ===== src/Lib.antt =====
-- git-crypt: files that git encrypts when they are committed and decrypts when they are checked out.
--
-- The program. `main` (git-crypt.cpp) reads the global options and passes a command off to its
-- handler in commands.cpp. git runs `clean`, `smudge` and `diff` as filters: they load a key file,
-- read the standard input or a file, and write to the standard output. The other commands manage
-- keys: they run git and gpg, keep key files in .git/git-crypt/keys, and keep copies encrypted to
-- GPG users in .git-crypt/keys.
--
-- How it is modelled. A run is an action `Exec A`: from a world (the system's state, what is left of
-- the standard input, what was written to the two output streams, argv[0]) to a result and a world.
-- A result is a value, an exception of the program, or `stuck`, which stands for fuel that has run
-- out and for nothing in the program. What was done before an exception stays done. The operating
-- system, the child processes, the random generator and OpenSSL are not in the repository: they are
-- the record Host, an instance argument, and the record OpenSsl in it. A byte is a natural number
-- below 256; 32-bit counters wrap where they do in the program.
--
-- The files, and the code that they model:
--   Base: library names passed on, Boolean tests, lists, results, bit laws, text streams, words.
--   Util: util.cpp. Words, shell quoting and the comparison in constant time.
--   KeyFile: key.hpp and key.cpp. The versions of a key, its name, and what names are valid.
--   KeyFormat: key.cpp. Key_file::load, load_legacy and store, and those of its entries.
--   KeyStore: key.cpp. Key_file::generate, load_from_file and store_to_file.
--   Crypto: crypto.hpp, crypto.cpp, crypto-openssl-11.cpp. The counter mode and the HMAC state.
--   Host, Exec: the system, and actions over it; Exec.System is util-unix.cpp and random_bytes,
--     Exec.Process the functions of util.cpp that run a command.
--   Options: parse_options.hpp and parse_options.cpp.
--   Git: the helpers of commands.cpp that run git: configuration, paths, attributes, checkout;
--     Batches, EncryptedFiles, FoundFiles and the files below Attributes hold proofs.
--   Plumbing, Clean, Smudge: the filters of commands.cpp; load_key and parse_plumbing_options.
--   Gpg: gpg.cpp; Run has the runs of gpg, Columns and Listing hold proofs.
--   Commands: the other commands of commands.cpp. Help has the help texts, Repo the keys encrypted
--     to GPG users, Keys init, export-key, keygen and migrate-key, Unlock, Lock, AddUser
--     add-gpg-user, Listing and Status the command status. Safety, Entries, Conflicts,
--     Shared, Collaborator, Fuel and Reports hold proofs.
--   FileHandle: fhstream.hpp and fhstream.cpp. Output and Input are the two stream buffers; Writes,
--     Delivery, Storage, Characters, Reading and Arrival hold proofs.
--   Coprocess: coprocess-unix.hpp and coprocess-unix.cpp, with the child's part of spawn in Child.
--     Streams has what a client does; Frame, Descriptors, Tidy, Delivery and Arrival hold proofs.
--   Windows: CommandLine and Coprocess are coprocess-win32.cpp, Win32 and System util-win32.cpp and
--     Crypto win-build/crypto-win32.cpp; Runtime says how a Windows program reads its command line;
--     Arguments, Arrival, ExePath, Protected and those below Crypto hold proofs.
--   Main: git-crypt.cpp; Statuses has proofs.
--   Tests: a small system, runs of the model on it, and the theorems at concrete inputs.
--
-- Fuel. The loops over a stream carry fuel: the length of the stream, or one more, where each round
-- takes a byte at least or ends the loop (load_entry, load_header, load_entries, process_chunks,
-- read_plaintext, encrypt_out, decrypt_out, encrypted_files_loop, status_loop). git_checkout takes
-- 100 paths a round and parse_loop an argument a round. Other loops are structural recursion.
--
-- The loops of fhstream.cpp have the length of what is left as fuel, that of our_exe_path on Windows
-- 26 rounds, after which its buffer has a size that is cut to 0. The calls that are tried again while
-- they are interrupted (write_stdin, read_stdout) have the number of tries as a parameter, and the
-- theorems ask that this is enough.
--
-- The streams and coprocesses stand beside the commands: in the commands a run of a child is one
-- call of Host, and the streams and coprocesses are modelled over records of system calls of their
-- own (Sink, Source, Kernel, Kernel32, Win32, Cng).
--
-- Not modelled: failures of the standard streams (std::ios_base::failure), the state bits of the
-- streams over handles, the permission bits and the umask, and the clearing of key memory (but for
-- the object buffers of CNG). git_version keeps its first answer in a static variable in the
-- program, and asks git each time in the model.
-- `catch` handlers that main does not have (std::invalid_argument, std::logic_error) leave the
-- exception in the result, where the program would be ended by the runtime.
pub mod Base
pub mod Util
pub mod KeyFile
pub mod KeyFormat
pub mod Crypto
pub mod Host
pub mod Exec
pub mod Options
pub mod Git
pub mod Plumbing
pub mod Clean
pub mod Smudge
pub mod Gpg
pub mod KeyStore
pub mod Commands
pub mod Main
pub mod Tests
pub mod Windows
pub mod FileHandle
pub mod Coprocess
