-- ===== src/Examples/Gate.antt =====
-- Runs of pkg/gate.
use cliapp.Base.{◌∷◌, [], none, some, ◌≡◌, refl, arith}
use cliapp.Api.{live, rest, recovering, CliApp}
use cliapp.Controller.State.{ok}
use cliapp.Gate.Session.{AppSession, crash, new_session, begin_open, asks}
use cliapp.Gate.Races.{IsQuiet, interleave, overtaken, overtaken_crash, IsIdle, late, late_crash}
use cliapp.Gate.Start.{AppClient, added, modified, start_app, wait_live, request_start, close_app}
use cliapp.Gate.Start.Laws.{start_app-live, IsAsking, request_start-close_app}
use cliapp.Examples.Cluster.{ctr}

-- One client has the app open.
abbrev quiet : AppSession
quiet = record {
  active_count = 1;
  app = some (ctr live live);
  outgoing_open_session = none;
  outgoing_close_session = none;
  ctx_cancel = none;
  next = 1;
  cancelled = [];
}

quiet-IsQuiet : IsQuiet quiet
quiet-IsQuiet = ground arith

overtaken_crash_example :
    interleave (overtaken 1) quiet ≡ crash "try to close an app more than once"
overtaken_crash_example = overtaken_crash quiet quiet-IsQuiet

-- An API server that answers the app in a phase with a target, stores updates, and whose watch
-- brings the app Live behind one that recovers.
abbrev server : CliApp → AppClient
server app = record {
  get = λ n. ok app;
  update = λ n a. ok a;
  repetitions = 2;
  watch = ok (added (ctr recovering live) ∷ modified (ctr live live) ∷ []);
}

start_app-live_example : (ctr live live).status.phase ≡ live
unfolding start_app wait_live
start_app-live_example = start_app-live (server (ctr rest rest)) (ctr live live) [] refl

request_start-close_app_example :
    IsAsking live (λ app. app.status.phase ≡ live) (request_start (server (ctr rest rest)))
    × IsAsking rest (λ app. ⊥) (close_app (server (ctr rest rest)))
request_start-close_app_example =
    request_start-close_app (server (ctr rest rest)) λ n a b e. ground arith

new_session-IsIdle : IsIdle new_session
unfolding new_session
new_session-IsIdle = ground arith

late_crash_example :
    ((begin_open new_session).0 ≡ asks)
    × ((begin_open (begin_open new_session).1).0 ≡ asks)
    × (interleave (late 0 (ctr live live) (ctr live rest)) new_session ≡ crash "t.app != nil")
unfolding new_session
late_crash_example = late_crash new_session (ctr live live) (ctr live rest) new_session-IsIdle
