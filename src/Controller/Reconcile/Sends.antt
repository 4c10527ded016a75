-- ===== src/Controller/Reconcile/Sends.antt =====
-- What a pass (Reconcile of controllers/cliapp_controller.go) sends, by its target.
use cliapp.Base.{◌≡◌, refl, sym, subst, inl, Option, none, some, arith, All, String}
use cliapp.Api.{Phase, rest, live, Core, core}
use cliapp.Controller.Error.{Error, message}
use cliapp.Controller.State.{Env, State, after, after-bind, CliAppReconciler}
use cliapp.Controller.Env.{Echoes}
use cliapp.Controller.Sends.{GoesOn, CarriesNext, send_status-GoesOn}
use cliapp.Controller.Validate.{validate_app}
use cliapp.Controller.Rest.{Reply}
use cliapp.Controller.Rest.Sends.{make_app_rest-GoesOn}
use cliapp.Controller.Live.Sends.{make_app_live-GoesOn}
use cliapp.Controller.Reconcile.{with_error, by_target, validated, settle, reconcile_app}

-- The target of the object is `target`, and it has a name and a namespace.
abbrev pub Aims : Phase → (namespace name : String) → Core → Type 0
Aims target namespace name c =
    (c.spec.target_phase ≡ target) × (c.namespace ≡ namespace) × (c.name ≡ name)

module _ (K : Core → Type 0) (target start : Phase) {env : Env} (e : Echoes env)
    (r : CliAppReconciler) where
  abbrev Goes : State → Type 0
  Goes s = GoesOn K target start s

  pub settle-GoesOn : (a : Reply) (s : State) → Goes s → Goes (after (settle env a s))
  unfolding settle
  settle-GoesOn (v, none) s g = g
  settle-GoesOn (v, some x) s g = ground (
    arith,
    send_status-GoesOn K target start e (record s { app = with_error (message x) s.app })
        (record { holds = g.holds; sent = g.sent }),
  )

  switched :
      (s : State)
      → s.app.spec.target_phase ≡ target
      → s.app.status.phase ≡ start
      → K (core s.app)
      → All (CarriesNext K target start) s.log
      → ((t : State)
          → t.app.status.phase ≡ start
          → Goes t
          → Goes (after (by_target env r target t)))
      → Goes (after (reconcile_app env r s))
  unfolding reconcile_app validated
  switched s t p k l step =
      after-bind Goes (validated env r (validate_app cleared.app)) (settle env) cleared
        (checked (validate_app cleared.app)) settle-GoesOn
    where
      cleared : State
      cleared = record s { app = with_error "" s.app }

      checked : (x : Option Error) → Goes (after (validated env r x cleared))
      checked (some x) = record { holds = (k, inl p); sent = l }
      checked none =
          subst (λ q. Goes (after (by_target env r q cleared))) (sym t)
            (step cleared p (record { holds = (k, inl p); sent = l }))

module _ {env : Env} (e : Echoes env) (r : CliAppReconciler) where
  by_target_rest-GoesOn :
      (K : Core → Type 0) (start : Phase) (s : State)
      → s.app.status.phase ≡ start
      → GoesOn K rest start s
      → GoesOn K rest start (after (by_target env r rest s))
  unfolding by_target
  by_target_rest-GoesOn K start s p g = ground (arith, make_app_rest-GoesOn K start e r s p g)

  -- With the target Rest, whatever holds of the spec alone is kept.
  pub reconcile_app_rest-GoesOn :
      (K : Core → Type 0) (s : State)
      → s.app.spec.target_phase ≡ rest
      → K (core s.app)
      → All (CarriesNext K rest s.app.status.phase) s.log
      → GoesOn K rest s.app.status.phase (after (reconcile_app env r s))
  reconcile_app_rest-GoesOn K s t k l =
      switched K rest s.app.status.phase e r s t refl k l
        (by_target_rest-GoesOn K s.app.status.phase)

  pub reconcile_app-GoesOn :
      (target : Phase) (s : State)
      → s.app.spec.target_phase ≡ target
      → All (CarriesNext (Aims target s.app.namespace s.app.name) target s.app.status.phase) s.log
      → GoesOn
          (Aims target s.app.namespace s.app.name)
          target
          s.app.status.phase
          (after (reconcile_app env r s))
  unfolding by_target
  reconcile_app-GoesOn rest s t l =
      reconcile_app_rest-GoesOn (Aims rest s.app.namespace s.app.name) s t (t, refl, refl) l
  reconcile_app-GoesOn live s t l =
      switched (Aims live s.app.namespace s.app.name) live s.app.status.phase e r s t refl
        (t, refl, refl) l (make_app_live-GoesOn e r s.app.namespace s.app.name s.app.status.phase)
  reconcile_app-GoesOn target s t l =
      switched (Aims target s.app.namespace s.app.name) target s.app.status.phase e r s t refl
        (t, refl, refl) l (λ u p g. g)
