-- ===== src/Controller/Reconcile/Progress.antt =====
-- A pass (Reconcile of controllers/cliapp_controller.go) that the services help.
use cliapp.Base.{◌<◌, ◌≡◌, ◌≢◌, String, sym, subst, false, none, some, [], arith}
use cliapp.Api.{Phase, rest, live, other, CliApp}
use cliapp.Controller.State.{Env, State, Outcome, returns, panics, CliAppReconciler}
use cliapp.Controller.Phases.{height}
use cliapp.Controller.Validate.{validate_app}
use cliapp.Controller.Rest.{Reply}
use cliapp.Controller.Rest.Progress.{IsHelpful, IsBelow, Saves, make_app_rest-Saves}
use cliapp.Kube.{Pod}
use cliapp.Controller.Live.Progress.{IsServing, IsOn, make_app_live-Saves}
use cliapp.Controller.Reconcile.{with_error, by_target, validated, settle, reconcile_app}

module _ (env : Env) (r : CliAppReconciler) where
  by_target-Saves :
      (p : Phase) (s : State)
      → p ≡ rest
      → IsHelpful env r s.app
      → s.log ≡ []
      → s.app.spec.target_phase ≡ rest
      → s.app.spec.uninstall_unless_live ≡ false
      → 0 < height s.app.status.phase
      → Saves (IsBelow (height s.app.status.phase)) (by_target env r p s)
  unfolding by_target
  by_target-Saves rest s e h l t u k = ground (arith, make_app_rest-Saves env r s h l t u k)
  by_target-Saves live s e h l t u k = cc
  by_target-Saves _ s e h l t u k = cc

  -- An outcome without an error is left as it is.
  settle-Saves :
      (P : CliApp → Type 0) (o : Outcome Reply)
      → Saves P o
      → Saves P (elim o [ returns a t ↦ settle env a t | panics w t ↦ panics w t ])
  unfolding settle
  settle-Saves P (returns (v, none) t) g = g
  settle-Saves P (returns (v, some x) t) g = cc
  settle-Saves P (panics w t) g = g

  pub reconcile_app-Saves :
      (s : State)
      → validate_app (with_error "" s.app) ≡ none
      → IsHelpful env r s.app
      → s.log ≡ []
      → s.app.spec.target_phase ≡ rest
      → s.app.spec.uninstall_unless_live ≡ false
      → 0 < height s.app.status.phase
      → Saves (IsBelow (height s.app.status.phase)) (reconcile_app env r s)
  unfolding reconcile_app validated
  reconcile_app-Saves s ok h l t u k =
      settle-Saves near (validated env r (validate_app cleared.app) cleared) (
        subst (λ x. Saves near (validated env r x cleared)) (sym ok)
          (by_target-Saves cleared.app.spec.target_phase cleared t
            (record { saves = h.saves; none_left = h.none_left; late = h.late }) l t u k))
    where
      near : CliApp → Type 0
      near a = IsBelow (height s.app.status.phase) a

      cleared : State
      cleared = record s { app = with_error "" s.app }

  by_target_live-Saves :
      (pod : Pod) (p : Phase) (s : State)
      → p ≡ live
      → IsServing env s.app pod
      → s.app.spec.target_phase ≡ live
      → s.app.spec.image ≢ ""
      → s.app.status.phase ≢ live
      → ((text : String) → s.app.status.phase ≢ other text)
      → Saves (IsOn s.app pod) (by_target env r p s)
  unfolding by_target
  by_target_live-Saves pod live s e h t i l k = make_app_live-Saves env r pod s h t i l k
  by_target_live-Saves pod rest s e h t i l k = cc
  by_target_live-Saves pod _ s e h t i l k = cc

  pub reconcile_app_live-Saves :
      (pod : Pod) (s : State)
      → validate_app (with_error "" s.app) ≡ none
      → IsServing env s.app pod
      → s.app.spec.target_phase ≡ live
      → s.app.spec.image ≢ ""
      → s.app.status.phase ≢ live
      → ((text : String) → s.app.status.phase ≢ other text)
      → Saves (IsOn s.app pod) (reconcile_app env r s)
  unfolding reconcile_app validated
  reconcile_app_live-Saves pod s ok h t i l k =
      settle-Saves (IsOn s.app pod) (validated env r (validate_app cleared.app) cleared) (
        subst (λ x. Saves (IsOn s.app pod) (validated env r x cleared)) (sym ok)
          (by_target_live-Saves pod cleared.app.spec.target_phase cleared t
            (record {
              pods = h.pods;
              saves = h.saves;
              listed = h.listed;
              first = h.first;
              ready = h.ready;
              named = h.named;
            })
            t i l k))
    where
      cleared : State
      cleared = record s { app = with_error "" s.app }
