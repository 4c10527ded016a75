-- ===== src/Controller/Reconcile/Errors.antt =====
-- How Reconcile (controllers/cliapp_controller.go) deals with errors.
use cliapp.Base.{◌≡◌, refl, sym, ap, subst, ◌∙◌, none, some, Option, ◌∷◌}
use cliapp.Api.{CliApp}
use cliapp.Controller.Error.{Error, message}
use cliapp.Controller.State.{
  Env, State, Outcome, Verdict, returns, panics, CliAppReconciler, Answer, ok, err, update_status,
}
use cliapp.Controller.Calls.{send_status, stored, logged}
use cliapp.Controller.Validate.{validate_app}
use cliapp.Controller.Rest.{Reply, nothing}
use cliapp.Controller.Reconcile.{with_error, validated, settle, reconcile_app}

-- The outcome has no error, or is a panic.
abbrev pub HasNoError : Outcome Reply → Type 0
HasNoError (returns (v, e) t) = e ≡ none
HasNoError (panics w t) = Unit

stored-returns :
    (a : Answer CliApp) (s : State)
    → (o : Option Error) × (t : State) × (stored a s ≡ returns o t) × (t.log ≡ s.log)
stored-returns (ok app) s = (none, record s { app = app }, refl, refl)
stored-returns (err e) s = (some e, s, refl, refl)

settle-returns :
    (env : Env) (v : Verdict) (e : Error) (s : State)
    → (t : State) × (settle env (v, some e) s ≡ returns (v, none) t)
      × (t.log ≡ update_status (with_error (message e) s.app) ∷ s.log)
unfolding settle send_status
settle-returns env v e s =
    let marked : State = record s { app = with_error (message e) s.app } in
    let (o, t, f, g) =
      stored-returns (env.update_status_answer marked.log marked.app)
        (logged (update_status marked.app) marked) in
    (t, ap (λ x. elim x [ returns a u ↦ returns (v, none) u | panics w u ↦ panics w u ]) f, g)

settle-HasNoError : (env : Env) (reply : Reply) (s : State) → HasNoError (settle env reply s)
unfolding settle send_status
settle-HasNoError env (v, none) s = refl
settle-HasNoError env (v, some e) s =
    let (t, f, g) = settle-returns env v e s in subst HasNoError (sym f) refl

-- Whatever goes wrong in a pass, Reconcile returns no error, unless it panics.
reconcile_app-HasNoError :
    (env : Env) (r : CliAppReconciler) (s : State) → HasNoError (reconcile_app env r s)
unfolding reconcile_app
reconcile_app-HasNoError env r s = at (validated env r (validate_app cleared.app) cleared)
  where
    cleared : State
    cleared = record s { app = with_error "" s.app }

    at :
        (o : Outcome Reply)
        → HasNoError (elim o [ returns a t ↦ settle env a t | panics w t ↦ panics w t ])
    at (returns a t) = settle-HasNoError env a t
    at (panics w t) = tt

-- A pass over an app that validation refuses makes one call, the update of the status with the text
-- of the error, whatever that call answers.
reconcile_app_refused :
    (env : Env) (r : CliAppReconciler) (s : State) (e : Error)
    → validate_app (with_error "" s.app) ≡ some e
    → (t : State) × (reconcile_app env r s ≡ returns (nothing, none) t)
      × (t.log ≡ update_status (with_error (message e) s.app) ∷ s.log)
unfolding reconcile_app validated settle send_status
reconcile_app_refused env r s e h =
    let cleared : State = record s { app = with_error "" s.app } in
    let (t, f, g) = settle-returns env nothing e cleared in
    (
      t,
      ap
            (λ o. elim (validated env r o cleared) [
              | returns a u ↦ settle env a u
              | panics w u ↦ panics w u
            ])
            h
          ∙ f,
      g,
    )
