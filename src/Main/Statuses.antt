-- ===== src/Main/Statuses.antt =====
-- git-crypt.cpp, `main`: what a command comes to, and what the program ends with.
use git_crypt.Base.{
  ℕ, ◌≡◌, refl, ap, inl, inr, false, some, List, [], ◌∷◌, ◌++◌, Bytes, get_or, ◌==◌, Option-cases,
}
use git_crypt.Base.Results.{
  error, gpg_error, system_error, crypto_error, option_error, incompatible, malformed,
  invalid_argument, logic_error, Result, ok, err, stuck,
}
use git_crypt.Host.{Host}
use git_crypt.Exec.{World, Exec, continue, pure, catch}
use git_crypt.Commands.Help.{log_lines}
use git_crypt.Main.{
  help_for_command, help_to_log, option_mistake, handler, run_command, global_options, command_line,
  last_handler, main,
}

-- The status that the program ends with, by what a command came to: an error in its options is 2,
-- the other exceptions of the program are 1, and those of the library end it.
abbrev pub exit_of : Result ℕ → Result ℕ
exit_of (ok status) = ok status
exit_of (err (error message)) = ok 1
exit_of (err (gpg_error message)) = ok 1
exit_of (err (system_error action target errno)) = ok 1
exit_of (err (crypto_error place message)) = ok 1
exit_of (err (option_error name message)) = ok 2
exit_of (err incompatible) = ok 1
exit_of (err malformed) = ok 1
exit_of (err (invalid_argument message)) = err (invalid_argument message)
exit_of (err (logic_error message)) = err (logic_error message)
exit_of stuck = stuck

module _ ⦃H : Host⦄ where
  -- The program ends with the status that stands for what the command came to, and in the world that
  -- the command left, but for what is written to the error stream.
  abbrev pub EndsAs : Result ℕ × World → Result ℕ × World → Type 0
  EndsAs (r, w) p = (clog : Bytes) × (p ≡ (exit_of r, record w { clog = clog }))

  log_lines-world :
      (lines : List Bytes) (w : World)
      → (clog : Bytes) × (log_lines lines w ≡ (ok tt, record w { clog = clog }))
  unfolding log_lines
  log_lines-world [] w = (w.clog, refl)
  log_lines-world (line ∷ lines) w =
      log_lines-world lines (record w { clog = w.clog ++ (line ++ (10 ∷ [])) })

  option_mistake-world :
      (command name text : Bytes) (w : World)
      → EndsAs (err (option_error name text), w) (option_mistake command (option_error name text) w)
  unfolding option_mistake help_to_log
  option_mistake-world command name text w = elim (Option-cases (help_for_command command)) [
    | inl no_help ↦ rw no_help (_, refl)
    | inr (lines, e) ↦
        let (clog, logged) = log_lines-world lines _ in
        rw e
          (clog, ap (λ (p : Result (Unit {0}) × World). continue p.0 (λ done. pure 2) p.1) logged)
  ]

  caught-option :
      (command : Bytes) (m : Exec ℕ) (w w1 : World) (name text : Bytes)
      → m w ≡ (err (option_error name text), w1)
      → EndsAs
          (err (option_error name text), w1)
          (catch (catch m (option_mistake command)) last_handler w)
  unfolding catch
  caught-option command m w w1 name text e =
      let (clog, logged) = option_mistake-world command name text w1 in rw (e, logged) (clog, refl)

  caught-EndsAs :
      (command : Bytes) (m : Exec ℕ) (w w1 : World) (r : Result ℕ)
      → m w ≡ (r, w1)
      → EndsAs (r, w1) (catch (catch m (option_mistake command)) last_handler w)
  unfolding catch last_handler option_mistake
  caught-EndsAs command m w w1 (ok status) e = rw e (w1.clog, refl)
  caught-EndsAs command m w w1 (err (error message)) e = rw e (_, refl)
  caught-EndsAs command m w w1 (err (gpg_error message)) e = rw e (_, refl)
  caught-EndsAs command m w w1 (err (system_error action target errno)) e = rw e (_, refl)
  caught-EndsAs command m w w1 (err (crypto_error place message)) e = rw e (_, refl)
  caught-EndsAs command m w w1 (err (option_error name message)) e =
      caught-option command m w w1 name message e
  caught-EndsAs command m w w1 (err incompatible) e = rw e (_, refl)
  caught-EndsAs command m w w1 (err malformed) e = rw e (_, refl)
  caught-EndsAs command m w w1 (err (invalid_argument message)) e = rw e (w1.clog, refl)
  caught-EndsAs command m w w1 (err (logic_error message)) e = rw e (w1.clog, refl)
  caught-EndsAs command m w w1 stuck e = rw e (w1.clog, refl)

  run_command-handler :
      (command : Bytes) (args : List Bytes) (run : Exec ℕ)
      → handler command args ≡ some run
      → run_command command args ≡ catch run (option_mistake command)
  unfolding run_command
  run_command-handler command args run e = rw (run_command, e) refl

  -- Where the first argument does not begin with '-' and names a command, the program leaves the
  -- world as the command left it, but for what is written to the error stream, and ends with the
  -- status that the command returned, with 2 where it threw an Option_error, and with 1 where it
  -- threw another exception that `main` names.
  pub main-EndsAs :
      (command : Bytes) (args : List Bytes) (run : Exec ℕ) (w : World)
      → (get_or command 0 0 == b'-') ≡ false
      → handler command args ≡ some run
      → EndsAs (run w) (main (command ∷ args) w)
  unfolding main global_options command_line catch
  main-EndsAs command args run w dash e =
      let (clog, ends) = caught-EndsAs command run w (run w).1 (run w).0 refl in
      rw (dash, run_command-handler command args run e) (clog, ends)
