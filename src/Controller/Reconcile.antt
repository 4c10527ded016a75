-- ===== src/Controller/Reconcile.antt =====
-- Reconcile (controllers/cliapp_controller.go).
pub mod Edges
pub mod Progress
pub mod Sends
pub mod Ends
pub mod Errors
pub mod Stops
pub mod Behind
use cliapp.Base.{Option, none, some, List, [], String, if◌then◌else◌}
use cliapp.Api.{Phase, rest, live, CliApp, is_rest}
use cliapp.Controller.Error.{Error, message, not_a_target}
use cliapp.Controller.State.{
  BuildContext, Env, M, ◌>>=◌, pure, Outcome, found, not_found, failed, CliAppReconciler,
}
use cliapp.Controller.Calls.{send_status}
use cliapp.Controller.Validate.{validate_app}
use cliapp.Controller.Rest.{Reply, nothing, make_app_rest}
use cliapp.Controller.Live.{make_app_live}

abbrev pub with_error : String → CliApp → CliApp
with_error text app = record app { status = record app.status { error = text } }

-- The switch on the target phase.
by_target : Env → CliAppReconciler → Phase → M Reply
by_target env r rest s =
    if is_rest s.app.status.phase then pure (nothing, none) s else make_app_rest env r s
by_target env r live s = make_app_live env r s
by_target env r target s = pure (nothing, some not_a_target) s

validated : Env → CliAppReconciler → Option Error → M Reply
unfolding by_target
validated env r (some e) s = pure (nothing, some e) s
validated env r none s = by_target env r s.app.spec.target_phase s

-- The deferred function: an error goes to the status, and is not returned.
pub settle : Env → Reply → M Reply
settle env (v, none) s = pure (v, none) s
settle env (v, some e) s =
    (send_status env >>= λ _. pure (v, none)) (record s { app = with_error (message e) s.app })

-- The part behind the first Get, on the object that it found.
unfoldable pub reconcile_app : Env → CliAppReconciler → M Reply
unfolding validated settle
reconcile_app env r s =
    let cleared = record s { app = with_error "" s.app } in
    (validated env r (validate_app cleared.app) >>= settle env) cleared

-- A pass ends at the first Get, or runs on the object that was found.
pub data Pass : Type 0 where
  stopped : Reply → Pass
  ran : Outcome Reply → Pass

-- client.IgnoreNotFound: an object that is gone is no error.
unfoldable pub reconcile :
    Env
    → CliAppReconciler
    → (namespace name : String) → Option (List (String × BuildContext))
    → Pass
unfolding reconcile_app
reconcile env r namespace name builds = elim (env.get_app namespace name) [
  | not_found ↦ stopped (nothing, none)
  | failed e ↦ stopped (nothing, some e)
  | found app ↦ ran (reconcile_app env r (record { app = app; app_map = builds; log = [] }))
]
