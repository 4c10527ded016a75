-- ===== src/Examples/Builds.antt =====
-- Builds of images at the same time as passes, and the Pods that a pass creates.
use cliapp.Base.{ℕ, eq_iff, arith, ◌≡◌, refl, List, [], ◌∷◌, lookup}
use cliapp.Api.{CliApp, building, live, recovering}
use cliapp.Controller.State.{BuildContext, Env, after}
use cliapp.Controller.Build.{new_context, start, answer_of}
use cliapp.Controller.Build.Shared.{Store, poll, Event, polls, drops, runs_out, run_builds}
use cliapp.Controller.Build.Shared.Overtaken.{overtaken, IsOvertaken, overtaken-answers}
use cliapp.Controller.Build.Shared.Finished.{finished-answers}
use cliapp.Controller.Keeps.{Onto}
use cliapp.Controller.Start.{start_app}
use cliapp.Controller.Start.Pods.{Creates}
use cliapp.Controller.Claim.Created.{IsClaimable, start_app-IsClaimable}
use cliapp.Examples.Cluster.{cluster, ctr, manager, pass_over}

abbrev ctr_to_build : CliApp
ctr_to_build = ctr building live

-- An app of the same name in another namespace.
abbrev other_ctr : CliApp
other_ctr = record ctr_to_build { namespace = "test" }

abbrev unused : ℕ → BuildContext
unused p = new_context ctr_to_build

abbrev first_build : Store
first_build = record { contexts = unused; next = 1; table = ("ctr", 0) ∷ [] }

-- The first build ends behind the second poll, the second one never, and the third one late.
abbrev slow_rounds : List (List (Env × ℕ))
slow_rounds = [] ∷ ((cluster [], 0) ∷ []) ∷ [] ∷ ((cluster [], 2) ∷ (cluster [], 0) ∷ []) ∷ []

overtaken-answers_example :
    IsOvertaken ctr_to_build 4 first_build (overtaken ctr_to_build slow_rounds)
unfolding lookup
overtaken-answers_example =
    overtaken-answers ctr_to_build slow_rounds 0 first_build
      (record { entry = refl; newest = refl; unfinished = refl })
      (tt, ((omega arith, tt), (tt, ((omega arith, (omega arith, tt)), tt))))

abbrev ended_build : Store
ended_build = record {
  contexts = λ p. start (cluster []) (new_context ctr_to_build);
  next = 1;
  table = ("ctr", 0) ∷ [];
}

abbrev shell_to_build : CliApp
shell_to_build = record ctr_to_build { name = "shell" }

-- Other apps are built, and one of them is cancelled.
abbrev other_builds : List Event
other_builds =
    polls ctr_to_build
    ∷ polls shell_to_build
    ∷ runs_out (cluster []) 0
    ∷ drops shell_to_build
    ∷ runs_out (cluster []) 1
    ∷ []

finished-answers_example : poll other_ctr (run_builds other_builds ended_build).store ≡ (
  answer_of (start (cluster []) (new_context ctr_to_build)),
  (run_builds other_builds ended_build).store,
)
unfolding lookup start
finished-answers_example =
    finished-answers "ctr" 0 ended_build other_builds other_ctr ((omega arith, refl), tt) refl refl
      ((λ e. ground (arith, eq_iff "shell" "ctr")), tt) refl

start_app-IsClaimable_example :
    Onto
      (Creates (IsClaimable (ctr recovering live) "d1" "h1"))
      []
      (after (start_app (cluster []) manager "d1" "h1" (pass_over (ctr recovering live)))).log
start_app-IsClaimable_example =
    start_app-IsClaimable (cluster []) manager "d1" "h1" (pass_over (ctr recovering live)) refl
