-- ===== src/Tests/Programs.antt =====
-- git-crypt.cpp: whole runs of the program.
use git_crypt.Base.{◌≡◌, refl, [], ◌∷◌, List, Bytes, codes}
use git_crypt.Base.Results.{ok}
use git_crypt.Commands.Status.{status}
use git_crypt.Main.{handler, main}
use git_crypt.Options.{parse_options, kind, long_option, find_option}
use git_crypt.Main.Statuses.{EndsAs, exit_of, main-EndsAs}
use git_crypt.Tests.Toy.{toy_host, world}

abbrev wrong : List Bytes
wrong = codes "--wrong" ∷ []

-- An option that is not there.
exit_of-status : exit_of (status wrong (world [] [])).0 ≡ ok 2
unfolding status parse_options kind long_option find_option
exit_of-status = refl

main-EndsAs_example :
    EndsAs (status wrong (world [] [])) (main (codes "status" ∷ wrong) (world [] []))
unfolding handler
main-EndsAs_example = main-EndsAs (codes "status") wrong (status wrong) (world [] []) refl refl
