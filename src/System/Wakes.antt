-- ===== src/System/Wakes.antt =====
-- From a client's request (startApp of pkg/gate/session.go) to the Pod that the controller (controllers/)
-- brings up for it.
use cliapp.Base.{ℕ, ◌≡◌, ◌≢◌, sym, ap, subst, ◌∙◌, inr, List, length, String, arith}
use cliapp.Api.{rest, live, other, CliApp, with_target}
use cliapp.Kube.{Pod}
use cliapp.Controller.State.{Env, ok, CliAppReconciler}
use cliapp.Controller.Validate.{IsAcceptable}
use cliapp.Controller.Live.Progress.{distance}
use cliapp.Controller.Passes.{Stored, passes}
use cliapp.Controller.Passes.Wakes.{IsWaking, AreServing, passes-live}
use cliapp.Gate.Start.{AppClient, try_start}
use cliapp.System.{kept, start_asked, IsEchoing}

-- An app at rest that can be started: it has an image, is valid, and is in a known phase, not Live.
pub record IsStartable (app : CliApp) : Type 0 where
  pub target : app.spec.target_phase ≡ rest
  pub image : app.spec.image ≢ ""
  pub known : (text : String) → app.status.phase ≢ other text
  pub down : app.status.phase ≢ live
  pub valid : IsAcceptable app

start_asked-accepted :
    (c : AppClient) (n : ℕ) (s : Stored) (b : CliApp)
    → c.update n (with_target live s.app) ≡ ok b
    → s.app.spec.target_phase ≡ rest
    → s.app.status.phase ≢ live
    → (start_asked c n s).app ≡ b
unfolding start_asked try_start kept
start_asked-accepted c n s b u t d = ground arith

started-IsWaking :
    (app b : CliApp)
    → (b.status.phase ≡ app.status.phase) × (b.spec ≡ (with_target live app).spec)
    → IsStartable app
    → IsWaking b
started-IsWaking app b (p, s) g = record {
  target = ap (λ x. x.target_phase) s;
  image = λ x. g.image (sym (ap (λ y. y.image) s) ∙ x);
  known = λ text x. g.known text (sym p ∙ x);
  valid = record {
    source = ground (arith, g.valid.source, s);
    target = inr (ap (λ x. x.target_phase) s);
    distro = ground (arith, g.valid.distro, s);
    shell = ground (arith, g.valid.shell, s);
  };
}

-- A gate that starts an app with the target Rest brings it up, if the app has an image, is valid,
-- and is in a known phase other than Live: where the API server accepts the update and answers it
-- with what was sent, as many passes as the app's phase is away from Live, two at most, leave the
-- app Live with the name of the Pod, where each pass is served with that Pod.
pub start_asked-passes :
    (r : CliAppReconciler) (c : AppClient) (n : ℕ) (s : Stored) (b : CliApp) (pod : Pod)
    (envs : List Env)
    → IsEchoing c
    → IsStartable s.app
    → c.update n (with_target live s.app) ≡ ok b
    → AreServing r pod envs (start_asked c n s)
    → length envs ≡ distance s.app.status.phase
    → ((passes envs r (start_asked c n s)).app.status.phase ≡ live)
      × ((passes envs r (start_asked c n s)).app.status.pod_name ≡ pod.name)
start_asked-passes r c n s b pod envs echoes g u f l =
    let same = start_asked-accepted c n s b u g.target g.down in
    let echo = echoes n (with_target live s.app) b u in
    let phase : (start_asked c n s).app.status.phase ≡ s.app.status.phase =
      ap (λ (x : CliApp). x.status.phase) same ∙ echo.0 in
    passes-live r pod envs (start_asked c n s)
      (subst IsWaking (sym same) (started-IsWaking s.app b echo g)) (λ x. g.down (sym phase ∙ x)) f
      (l ∙ ap distance (sym phase))
