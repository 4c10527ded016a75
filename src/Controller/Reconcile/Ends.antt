-- ===== src/Controller/Reconcile/Ends.antt =====
-- Panics of Reconcile (controllers/cliapp_controller.go).
use cliapp.Base.{◌≡◌, refl, ◌≢◌, Option, none, some, String, arith}
use cliapp.Api.{Phase, rest, live, building, other}
use cliapp.Controller.Error.{Error}
use cliapp.Controller.State.{Env, State, Ends, Ends-bind_all, CliAppReconciler}
use cliapp.Controller.Env.{NamesPods}
use cliapp.Controller.Calls.{send_status}
use cliapp.Controller.Validate.{validate_app, validate_app_iff}
use cliapp.Controller.Workload.Config.Ends.{IsKnownShell}
use cliapp.Controller.Rest.{Reply}
use cliapp.Controller.Rest.Ends.{make_app_rest-Ends}
use cliapp.Controller.Live.Ends.{IsRunnable, make_app_live-Ends}
use cliapp.Controller.Reconcile.{with_error, by_target, validated, settle, reconcile_app}

module _ {env : Env} (named : NamesPods env) (r : CliAppReconciler) where
  by_target-Ends :
      (p : Phase) (s : State)
      → s.app.spec.target_phase ≡ p
      → IsRunnable r s
      → ((x : String) → s.app.status.phase ≢ other x)
      → Ends (by_target env r p s)
  unfolding by_target
  by_target-Ends rest s t h k = ground (arith, make_app_rest-Ends env r s t)
  by_target-Ends live s t h k = make_app_live-Ends named r s h t k
  by_target-Ends _ s t h k = tt

  settle-Ends : (a : Reply) (s : State) → Ends (settle env a s)
  unfolding settle send_status
  settle-Ends (v, none) s = tt
  settle-Ends (v, some x) s = ground arith

  -- A pass over an app without a fork does not panic, if its phase is one of the known ones, the
  -- reconciler's default shell is bash or zsh, and an app that waits for its image has a builder.
  -- Pods are taken to have names; every call may fail.
  pub reconcile_app-Ends :
      (s : State)
      → s.app.spec.fork ≡ none
      → IsKnownShell r.default_shell
      → ((x : String) → s.app.status.phase ≢ other x)
      → (s.app.status.phase ≡ building → s.app.spec.image ≡ "" → s.app_map ≢ none)
      → Ends (reconcile_app env r s)
  unfolding reconcile_app validated
  reconcile_app-Ends s f d k b =
      Ends-bind_all (validated env r (validate_app cleared.app)) (settle env) cleared
        (checked (validate_app cleared.app) refl) settle-Ends
    where
      cleared : State
      cleared = record s { app = with_error "" s.app }

      checked : (x : Option Error) → validate_app cleared.app ≡ x → Ends (validated env r x cleared)
      checked (some x) e = tt
      checked none e =
          by_target-Ends cleared.app.spec.target_phase cleared refl
            (record {
              unforked = f;
              default_known = d;
              shell_known = ((validate_app_iff cleared.app).0 e).shell;
              buildable = b;
            })
            k
