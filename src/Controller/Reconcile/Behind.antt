-- ===== src/Controller/Reconcile/Behind.antt =====
-- What Reconcile (controllers/cliapp_controller.go) does behind makeAppRest.
use cliapp.Base.{◌≡◌, none, some, ◌∷◌, arith}
use cliapp.Api.{rest, shutting_down, CliApp}
use cliapp.Controller.Error.{message}
use cliapp.Controller.State.{
  Env, State, History, update_status, Answer, ok, err, after, after-bind, CliAppReconciler,
}
use cliapp.Controller.Calls.{logged, stored, send_status}
use cliapp.Controller.Validate.{validate_app, IsAcceptable, validate_app_iff}
use cliapp.Controller.Rest.{Reply, make_app_rest}
use cliapp.Controller.Reconcile.{with_error, by_target, validated, settle, reconcile_app}

module _ (P : History → Type 0)
    (status : (a : CliApp) (h : History) → P h → P (update_status a ∷ h)) (env : Env) where
  send_status-log : (s : State) → P s.log → P (after (send_status env s)).log
  unfolding send_status
  send_status-log s k = answered (env.update_status_answer s.log s.app)
    where
      answered : (a : Answer CliApp) → P (after (stored a (logged (update_status s.app) s))).log
      answered (ok a) = status s.app s.log k
      answered (err e) = status s.app s.log k

  settle-log : (a : Reply) (s : State) → P s.log → P (after (settle env a s)).log
  unfolding settle
  settle-log (v, none) s k = k
  settle-log (v, some x) s k =
      ground (arith, send_status-log (record s { app = with_error (message x) s.app }) k)

  -- What the calls of makeAppRest make true, and updates of the status leave true, holds behind the pass
  -- over a valid app that shuts down.
  pub reconcile_app-log :
      (r : CliAppReconciler) (s : State)
      → IsAcceptable s.app
      → s.app.spec.target_phase ≡ rest
      → s.app.status.phase ≡ shutting_down
      → P (after (make_app_rest env r (record s { app = with_error "" s.app }))).log
      → P (after (reconcile_app env r s)).log
  unfolding reconcile_app validated by_target
  reconcile_app-log r s a t p k =
      after-bind (λ u. P u.log) (validated env r (validate_app cleared.app)) (settle env) cleared
        (ground (arith, accepted, t, p, k)) settle-log
    where
      cleared : State
      cleared = record s { app = with_error "" s.app }

      accepted : validate_app cleared.app ≡ none
      accepted =
          (validate_app_iff cleared.app).1
            (record { source = a.source; target = a.target; distro = a.distro; shell = a.shell })
