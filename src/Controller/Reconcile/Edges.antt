-- ===== src/Controller/Reconcile/Edges.antt =====
-- The transitions of Reconcile (controllers/cliapp_controller.go).
use cliapp.Base.{◌≡◌, refl, inl, Option, none, some, arith}
use cliapp.Api.{Phase, rest, live}
use cliapp.Controller.Error.{Error, message}
use cliapp.Controller.State.{Env, State, after, after-bind_to, CliAppReconciler}
use cliapp.Controller.Env.{Echoes}
use cliapp.Controller.Phases.{Moves}
use cliapp.Controller.Transit.Laws.{send_status-app}
use cliapp.Controller.Validate.{validate_app}
use cliapp.Controller.Rest.{Reply}
use cliapp.Controller.Rest.Edges.{make_app_rest-Moves}
use cliapp.Controller.Live.Edges.{make_app_live-Moves}
use cliapp.Controller.Reconcile.{with_error, by_target, validated, settle, reconcile_app}

module _ {env : Env} (e : Echoes env) (r : CliAppReconciler) where
  by_target-Moves :
      (p : Phase) (s : State)
      → Moves p s.app.status.phase (after (by_target env r p s)).app.status.phase
  unfolding by_target
  by_target-Moves rest s = ground (arith, make_app_rest-Moves e r s)
  by_target-Moves live s = make_app_live-Moves e r s
  by_target-Moves _ s = inl refl

  validated-Moves :
      (x : Option Error) (s : State)
      → Moves s.app.spec.target_phase s.app.status.phase
          (after (validated env r x s)).app.status.phase
  unfolding validated
  validated-Moves (some x) s = inl refl
  validated-Moves none s = by_target-Moves s.app.spec.target_phase s

  settle-phase :
      (a : Reply) (s : State) → (after (settle env a s)).app.status.phase ≡ s.app.status.phase
  unfolding settle
  settle-phase (v, none) s = refl
  settle-phase (v, some x) s =
      ground (arith, send_status-app e (record s { app = with_error (message x) s.app }))

  -- However the calls of a pass are answered, updates being answered with what was stored, the pass
  -- leaves the app in its phase or moves it along one edge of the graph towards its target phase,
  -- also where it panics.
  pub reconcile_app-Moves :
      (s : State)
      → Moves s.app.spec.target_phase s.app.status.phase
          (after (reconcile_app env r s)).app.status.phase
  unfolding reconcile_app
  reconcile_app-Moves s =
      after-bind_to start start (validated env r (validate_app cleared.app)) (settle env) cleared
        (validated-Moves (validate_app cleared.app) cleared) (λ t g. g)
        (λ a t g. rw (settle-phase a t) g)
    where
      cleared : State
      cleared = record s { app = with_error "" s.app }

      start : State → Type 0
      start t = Moves s.app.spec.target_phase s.app.status.phase t.app.status.phase
