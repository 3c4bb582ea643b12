-- ===== src/Tests/Checkouts.antt =====
-- `git_checkout` on a system that keeps the commands it ran.
use git_crypt.Base.{
  ℕ, zero, suc, ◌≡◌, refl, inl, inr, true, none, List, [], ◌∷◌, ◌++◌, Bytes, codes, length,
}
use git_crypt.Base.Results.{ok}
use git_crypt.Host.{Host}
use git_crypt.Exec.{World}
use git_crypt.Exec.System.{successful_exit}
use git_crypt.Exec.Process.{exec_command}
use git_crypt.Git.Paths.{git_checkout, git_checkout_batch}
use git_crypt.Git.Batches.{Log, Checked, git_checkout-batches}
use git_crypt.Tests.Toy.{toy_openssl}

abbrev Ran : Type 0
Ran = List (List Bytes)

-- Every command succeeds.
instance abbrev logging_host : Host
logging_host = record {
  State = Ran;
  openssl = toy_openssl;
  run = λ args input s. (ok (0, []), s ++ (args ∷ []));
  respond = λ args input s. [];
  finish = λ args input s. (ok 0, s);
  open_input = λ path s. none;
  write_output = λ path b s. (true, s);
  access = λ path s. 2;
  stat_is_dir = λ path s. inl 2;
  mkdir = λ path s. (0, s);
  open_create = λ path s. (0, s);
  utimes = λ path s. (0, s);
  unlink = λ path s. (0, s);
  read_dir = λ path s. inl 2;
  getenv = λ name s. none;
  mkstemp = λ template s. (inl 2, s);
  open_temp = λ path s. (true, s);
  realpath = λ path s. none;
  rand_bytes = λ n s. (inr [], s);
  strerror = λ e. [];
}

abbrev logging-Log : Log ⦃H = logging_host⦄
logging-Log = record { commands = λ s. s; runs = λ args input h. refl }

abbrev started : World ⦃H = logging_host⦄
started = record { argv0 = []; clog = []; cout = []; cin = []; host = [] }

abbrev copies : ℕ → List Bytes
copies zero = []
copies (suc n) = codes "f" ∷ copies n

-- 250 paths are three commands, and a list of 200 two: there is no command without a path.
checkouts_of_250 : length (git_checkout ⦃H = logging_host⦄ (copies 250) started).1.host ≡ 3
unfolding git_checkout git_checkout_batch exec_command successful_exit
checkouts_of_250 = refl

checkouts_of_200 : length (git_checkout ⦃H = logging_host⦄ (copies 200) started).1.host ≡ 2
unfolding git_checkout git_checkout_batch exec_command successful_exit
checkouts_of_200 = refl

git_checkout-batches_example :
    Checked ⦃H = logging_host⦄ logging-Log
      (copies 250)
      started
      (git_checkout ⦃H = logging_host⦄ (copies 250) started)
git_checkout-batches_example =
    git_checkout-batches ⦃H = logging_host⦄ logging-Log (copies 250) started
