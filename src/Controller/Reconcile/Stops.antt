-- ===== src/Controller/Reconcile/Stops.antt =====
-- Passes (Reconcile of controllers/cliapp_controller.go) that create no Pod, and passes that wait for Pods.
use cliapp.Base.{◌≡◌, ◌⊎◌, inl, inr, Option, none, some, [], All, arith}
use cliapp.Api.{Phase, rest, live, building, shutting_down, CliApp}
use cliapp.Controller.Error.{Error, message}
use cliapp.Controller.State.{Env, State, after, after-bind, ok, CliAppReconciler}
use cliapp.Controller.Env.{Echoes}
use cliapp.Controller.Keeps.{IsQuiet, KeepsTo}
use cliapp.Controller.Sends.{GoesOn, CarriesNext, KeepsTo-GoesOn}
use cliapp.Controller.Validate.{validate_app}
use cliapp.Controller.Rest.{Reply, make_app_rest}
use cliapp.Controller.Rest.Calls.{OnlyStops, send_status-OnlyStops, make_app_rest-OnlyStops}
use cliapp.Controller.Rest.Waits.{make_app_rest-Waits}
use cliapp.Controller.Live.Calls.{make_app_live-OnlyStops}
use cliapp.Controller.Reconcile.{with_error, by_target, validated, settle, reconcile_app}
use cliapp.Controller.Reconcile.Sends.{settle-GoesOn}

settle-OnlyStops :
    (env : Env) (a : Reply) (s : State) → OnlyStops s → OnlyStops (after (settle env a s))
unfolding settle
settle-OnlyStops env (v, none) s h = h
settle-OnlyStops env (v, some x) s h =
    ground (arith, send_status-OnlyStops env (record s { app = with_error (message x) s.app }) h)

-- The app is to rest, or is at Rest.
abbrev pub StaysDown : CliApp → Type 0
StaysDown app = (app.spec.target_phase ≡ rest) ⊎ (app.status.phase ≡ rest)

by_target-OnlyStops :
    (env : Env) (r : CliAppReconciler) (target : Phase) (s : State)
    → (target ≡ rest) ⊎ (s.app.status.phase ≡ rest)
    → OnlyStops s
    → OnlyStops (after (by_target env r target s))
unfolding by_target
by_target-OnlyStops env r rest s d h = ground (arith, make_app_rest-OnlyStops env r s h)
by_target-OnlyStops env r live s (inl e) h = ground (arith, e)
by_target-OnlyStops env r live s (inr p) h = make_app_live-OnlyStops env r s p h
by_target-OnlyStops env r target s d h = h

-- A pass over an app that is to rest, or is at Rest, creates no Pod.
pub reconcile_app-OnlyStops :
    (env : Env) (r : CliAppReconciler) (s : State)
    → StaysDown s.app
    → OnlyStops s
    → OnlyStops (after (reconcile_app env r s))
unfolding reconcile_app validated
reconcile_app-OnlyStops env r s d h =
    after-bind OnlyStops (validated env r (validate_app cleared.app)) (settle env) cleared
      (checked (validate_app cleared.app)) (settle-OnlyStops env)
  where
    cleared : State
    cleared = record s { app = with_error "" s.app }

    checked : (x : Option Error) → OnlyStops (after (validated env r x cleared))
    checked (some x) = h
    checked none = by_target-OnlyStops env r cleared.app.spec.target_phase cleared d h

-- A pass over an app that shuts down to rest, and that does not learn that its Pods are gone, sends no
-- other phase: no edge of the graph has the target Building.
pub reconcile_app-Waits :
    {env : Env} (e : Echoes env) (r : CliAppReconciler) (s : State)
    → s.app.spec.target_phase ≡ rest
    → s.app.status.phase ≡ shutting_down
    → All (CarriesNext (λ c. Unit) building shutting_down) s.log
    → (env.list_cached_answer s.log s.app.namespace s.app.name ≡ ok [])
      ⊎ GoesOn (λ c. Unit) building shutting_down (after (reconcile_app env r s))
unfolding reconcile_app validated by_target
reconcile_app-Waits {env} e r s t p l = elim (make_app_rest-Waits env r cleared t p) [
  | inl none_left ↦ inl none_left
  | inr k ↦ inr (
      after-bind Goes (validated env r (validate_app cleared.app)) (settle env) cleared
        (checked k (validate_app cleared.app))
        (settle-GoesOn (λ c. Unit) building shutting_down e r))
]
  where
    cleared : State
    cleared = record s { app = with_error "" s.app }

    Goes : State → Type 0
    Goes u = GoesOn (λ c. Unit) building shutting_down u

    begun : Goes cleared
    begun = record { holds = (tt, inl p); sent = l }

    checked :
        KeepsTo IsQuiet cleared (after (make_app_rest env r cleared))
        → (x : Option Error) → Goes (after (validated env r x cleared))
    checked k (some x) = begun
    checked k none =
        let waits =
          KeepsTo-GoesOn (λ c. Unit) building shutting_down cleared
            (after (make_app_rest env r cleared)) k begun in
        ground (arith, t, p, waits)
