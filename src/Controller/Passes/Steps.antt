-- ===== src/Controller/Passes/Steps.antt =====
-- One pass of controllers/ on the object that the server holds, whatever its target.
use cliapp.Base.{◌≡◌, refl, inl, [], ◌∷◌, All}
use cliapp.Api.{Phase, rest, CliApp, Core, core}
use cliapp.Controller.State.{
  Env, History, update_status, update_app, Answer, ok, err, after, CliAppReconciler,
}
use cliapp.Controller.Env.{Echoes}
use cliapp.Controller.Sends.{IsNext, CarriesNext, status-IsNext, app-IsNext}
use cliapp.Controller.Reconcile.{reconcile_app}
use cliapp.Controller.Reconcile.Sends.{Aims, reconcile_app-GoesOn, reconcile_app_rest-GoesOn}
use cliapp.Controller.Passes.{latest, or_before, Stored, begin, pass}

module _ (K : Core → Type 0) (target start : Phase) where
  abbrev Next : CliApp → Type 0
  Next app = IsNext K target start app

  or_before-IsNext :
      (a : Answer CliApp) (before : CliApp)
      → ((b : CliApp) → a ≡ ok b → Next b)
      → Next before
      → Next (or_before a before)
  or_before-IsNext (ok b) before k n = k b refl
  or_before-IsNext (err x) before k n = n

  module _ {env : Env} (e : Echoes env) where
    latest-IsNext :
        (app : CliApp)
        → Next app
        → (h : History) → All (CarriesNext K target start) h
        → Next (latest env app h)
    unfolding latest
    latest-IsNext app n [] k = n
    latest-IsNext app n (update_status a ∷ h) (k, ks) =
        or_before-IsNext (env.update_status_answer h a) (latest env app h)
          (λ b q. status-IsNext K target start e h a b q k) (latest-IsNext app n h ks)
    latest-IsNext app n (update_app a ∷ h) (k, ks) =
        or_before-IsNext (env.update_app_answer h a) (latest env app h)
          (λ b q. app-IsNext K target start e h a b q k) (latest-IsNext app n h ks)
    latest-IsNext app n (_ ∷ h) (k, ks) = latest-IsNext app n h ks

-- The name and the target stay, and the phase stays or goes along one edge towards it, at the server too.
pub pass-Moves :
    {env : Env}
    → Echoes env
    → (r : CliAppReconciler) (s : Stored)
    → IsNext
        (Aims s.app.spec.target_phase s.app.namespace s.app.name)
        s.app.spec.target_phase
        s.app.status.phase
        (pass env r s).app
unfolding pass
pass-Moves {env} e r s =
    latest-IsNext (Aims s.app.spec.target_phase s.app.namespace s.app.name) s.app.spec.target_phase
      s.app.status.phase e s.app ((refl, refl, refl), inl refl)
      (after (reconcile_app env r (begin s))).log
      (reconcile_app-GoesOn e r s.app.spec.target_phase (begin s) refl tt).sent

-- With the target Rest the spec stays as it is, and so do the name and the namespace.
pub pass-IsNext :
    {env : Env}
    → Echoes env
    → (r : CliAppReconciler) (s : Stored) → s.app.spec.target_phase ≡ rest
    → IsNext (λ c. c ≡ core s.app) rest s.app.status.phase (pass env r s).app
unfolding pass
pass-IsNext {env} e r s t =
    latest-IsNext (λ c. c ≡ core s.app) rest s.app.status.phase e s.app (refl, inl refl)
      (after (reconcile_app env r (begin s))).log
      (reconcile_app_rest-GoesOn e r (λ c. c ≡ core s.app) (begin s) t refl tt).sent

-- Where all that a pass sends is next, what the server holds behind it is next too.
pub pass-IsNext_sent :
    (K : Core → Type 0) (target start : Phase) {env : Env} (e : Echoes env) (r : CliAppReconciler)
    (s : Stored)
    → IsNext K target start s.app
    → All (CarriesNext K target start) (after (reconcile_app env r (begin s))).log
    → IsNext K target start (pass env r s).app
unfolding pass
pass-IsNext_sent K target start e r s n sent =
    latest-IsNext K target start e s.app n (after (reconcile_app _ r (begin s))).log sent
