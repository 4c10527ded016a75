-- ===== src/Controller/Transit.antt =====
-- transitPhaseTo of controllers/cliapp_common.go.
pub mod Laws
use cliapp.Base.{◌&&◌, Option, is_blank, is_none, if◌then◌else◌}
use cliapp.Api.{Phase, rest, CliApp, is_live}
use cliapp.Controller.Error.{Error}
use cliapp.Controller.State.{Env, State, M, panics}
use cliapp.Controller.Calls.{send_status}

abbrev pub stamp : Phase → CliApp → Env → State → CliApp
stamp phase app env s = record app {
  status = record app.status { phase = phase; last_phase_transition = env.now s.log };
}

-- Entering Rest forgets the Pod.
abbrev pub forget_pod : Phase → CliApp → CliApp
forget_pod rest app = record app { status = record app.status { pod_name = "" } }
forget_pod phase app = app

unfoldable pub transit_phase_to : Env → Phase → M (Option Error)
transit_phase_to env phase s =
    let app = stamp phase s.app env s in
    if is_live phase && is_blank app.status.pod_name
    then panics "set Pod name along with phase Live" (record s { app = app })
    else if is_live phase && (is_blank app.spec.image && is_none app.spec.fork)
    then panics "set Image along with phase Live" (record s { app = app })
    else send_status env (record s { app = forget_pod phase app })
