-- ===== src/Controller/Passes/Wakes.antt =====
-- Passes of controllers/ with the target Live.
use cliapp.Base.{
  ℕ, suc, ◌≤◌, ◌≡◌, ◌≢◌, sym, ap, subst, ◌∙◌, ◌⊎◌, inr, none, List, [], ◌∷◌, String, arith, length,
}
use cliapp.Api.{Phase, live, other, CliApp}
use cliapp.Kube.{Pod}
use cliapp.Controller.State.{Env, CliAppReconciler}
use cliapp.Controller.Validate.{validate_app, IsAcceptable, validate_app_iff}
use cliapp.Controller.Live.Progress.{IsServing, IsOn, distance}
use cliapp.Controller.Reconcile.{with_error, reconcile_app}
use cliapp.Controller.Reconcile.Progress.{reconcile_app_live-Saves}
use cliapp.Controller.Passes.{Stored, begin, pass, passes}
use cliapp.Controller.Passes.Settles.{latest-Saves}

-- An app that is to be live and has an image: it is valid, and in a known phase.
pub record IsWaking (app : CliApp) : Type 0 where
  pub target : app.spec.target_phase ≡ live
  pub image : app.spec.image ≢ ""
  pub known : (text : String) → app.status.phase ≢ other text
  pub valid : IsAcceptable app

distance-le : (p : Phase) → distance p ≤ 2
distance-le p = ground arith

distance_zero : (p : Phase) → distance p ≡ 0 → p ≡ live
distance_zero p h = ground arith

IsOn-known : (p q : Phase) → suc (distance q) ≡ distance p → (text : String) → q ≢ other text
IsOn-known p q h text e = ground (arith, distance-le p)

IsOn-IsWaking : (a b : CliApp) (pod : Pod) → IsOn a pod b → IsWaking a → IsWaking b
IsOn-IsWaking a b pod (s, n) g = record {
  target = ap (λ x. x.target_phase) s ∙ g.target;
  image = λ x. g.image (sym (ap (λ y. y.image) s) ∙ x);
  known = IsOn-known a.status.phase b.status.phase n.0;
  valid = record {
    source =
        subst (λ x. (x.image ≢ "") ⊎ ((x.dockerfile ≢ "") ⊎ (x.fork ≢ none))) (sym s)
          g.valid.source;
    target = inr (ap (λ x. x.target_phase) s ∙ g.target);
    distro = ground (arith, g.valid.distro);
    shell = ground (arith, g.valid.shell);
  };
}

-- The services of each pass serve the app with the Pod.
abbrev pub AreServing : CliAppReconciler → Pod → List Env → Stored → Type 0
AreServing r pod [] s = Unit
AreServing r pod (env ∷ envs) s = IsServing env s.app pod × AreServing r pod envs (pass env r s)

pass-IsOn :
    (env : Env) (r : CliAppReconciler) (pod : Pod) (s : Stored)
    → IsWaking s.app
    → s.app.status.phase ≢ live
    → IsServing env s.app pod
    → IsOn s.app pod (pass env r s).app
unfolding pass
pass-IsOn env r pod s g l h =
    latest-Saves env r (IsOn s.app pod) s.app (reconcile_app env r (begin s)) h.saves (
      reconcile_app_live-Saves env r pod (begin s) (acceptable g.valid) h g.target g.image l
        g.known)
  where
    acceptable : IsAcceptable s.app → validate_app (with_error "" s.app) ≡ none
    acceptable a =
        (validate_app_iff (with_error "" s.app)).1
          (record { source = a.source; target = a.target; distro = a.distro; shell = a.shell })

-- One transition before Live, the next one arrives; further off, it does not.
IsOn-arrives :
    (a b : CliApp) (pod : Pod)
    → IsOn a pod b
    → distance a.status.phase ≡ 1
    → (b.status.phase ≡ live) × (b.status.pod_name ≡ pod.name)
IsOn-arrives a b pod (s, n) h =
    let here : b.status.phase ≡ live = distance_zero b.status.phase (omega (arith, n.0)) in
    (here, n.1 here)

IsOn-away :
    (a b : CliApp) (pod : Pod) (k : ℕ)
    → IsOn a pod b
    → suc (suc k) ≡ distance a.status.phase
    → (b.status.phase ≢ live) × (suc k ≡ distance b.status.phase)
IsOn-away a b pod k (s, n) h = ground arith

-- An app that is to be live comes up: as many passes as its phase is away from Live, two at most, leave
-- the stored app Live with the name of the Pod, where in each pass the status updates are saved and
-- the first Pod of the app that is not being deleted and has its spec is that Pod, ready and named. The app has
-- an image, is valid, and is in a known phase other than Live.
pub passes-live :
    (r : CliAppReconciler) (pod : Pod) (envs : List Env) (s : Stored)
    → IsWaking s.app
    → s.app.status.phase ≢ live
    → AreServing r pod envs s
    → length envs ≡ distance s.app.status.phase
    → ((passes envs r s).app.status.phase ≡ live)
      × ((passes envs r s).app.status.pod_name ≡ pod.name)
unfolding passes
passes-live r pod [] s g l f h = absurd (l (distance_zero s.app.status.phase (sym h)))
passes-live r pod (env ∷ []) s g l (f, fs) h =
    IsOn-arrives s.app (pass env r s).app pod (pass-IsOn env r pod s g l f) (sym h)
passes-live r pod (env ∷ next ∷ envs) s g l (f, fs) h =
    let on = pass-IsOn env r pod s g l f in
    let away = IsOn-away s.app (pass env r s).app pod (length envs) on h in
    passes-live r pod (next ∷ envs) (pass env r s) (IsOn-IsWaking s.app _ pod on g) away.0 fs away.1
