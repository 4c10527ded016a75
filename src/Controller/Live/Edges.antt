-- ===== src/Controller/Live/Edges.antt =====
-- The transitions of makeAppLive (controllers/cliapp_live.go).
use cliapp.Base.{ℕ, zero, suc, ◌≡◌, refl, ◌∙◌, ap, ◌≢◌, inl, Option, none, some, String, arith}
use cliapp.Api.{
  Phase, rest, recovering, building, live, waiting_for_sessions, shutting_down, CliApp,
  with_pod_name, with_image,
}
use cliapp.Kube.{Pod}
use cliapp.Controller.Error.{Error}
use cliapp.Controller.State.{
  Env, State, after, after-bind, after-bind_to, Answer, ok, err, CliAppReconciler, update_app,
}
use cliapp.Controller.Env.{Echoes}
use cliapp.Controller.Phases.{build, begin, wake, resume, revive, lose, come_up, install, Moves}
use cliapp.Controller.Calls.{send_app, stored, logged}
use cliapp.Controller.Build.{test_image}
use cliapp.Controller.Build.Tests.{test_image-Keeps}
use cliapp.Controller.Claim.{claim_pods}
use cliapp.Controller.Claim.Keeps.{claim_pods-Keeps}
use cliapp.Controller.Start.Keeps.{start_app-Keeps}
use cliapp.Controller.Transit.Laws.{transit_phase_to-phase, send_status-app}
use cliapp.Controller.Live.{
  begin_build, recover, lose_pod, keep_pod, live_claimed, recovering_claimed, update_image,
  update_times, retry_image, finish_build, after_update, built, build_image, live_from_building,
  live_dispatch, make_app_live,
}

module _ {env : Env} (e : Echoes env) (r : CliAppReconciler) where
  begin_build-Moves :
      (s : State)
      → s.app.status.phase ≢ building
      → Moves live s.app.status.phase (after (begin_build env r s)).app.status.phase
  unfolding begin_build
  begin_build-Moves s h = grind (arith, build, transit_phase_to-phase e building s)

  recover-phase : (s : State) → (after (recover env s)).app.status.phase ≡ recovering
  unfolding recover
  recover-phase s = ground (arith, transit_phase_to-phase e recovering s)

  lose_pod-phase : (s : State) → (after (lose_pod env s)).app.status.phase ≡ recovering
  unfolding lose_pod
  lose_pod-phase s =
      ground
        (arith, transit_phase_to-phase e recovering (record s { app = with_pod_name "" s.app }))

  keep_pod-phase :
      (pod : Pod) (s : State) → (after (keep_pod env pod s)).app.status.phase ≡ s.app.status.phase
  unfolding keep_pod
  keep_pod-phase pod s =
      ground (arith, send_status-app e (record s { app = with_pod_name pod.name s.app }))

  live_claimed-Moves :
      (a : Answer (Option Pod)) (s : State)
      → s.app.status.phase ≡ live
      → Moves live live (after (live_claimed env a s)).app.status.phase
  unfolding live_claimed
  live_claimed-Moves (err x) s h = inl h
  live_claimed-Moves (ok none) s h = grind (arith, lose, lose_pod-phase s)
  live_claimed-Moves (ok (some pod)) s h =
      grind (arith, lose, lose_pod-phase s, keep_pod-phase pod s)

  recovering_claimed-Moves :
      (dump hash : String) (a : Answer (Option Pod)) (s : State)
      → s.app.status.phase ≡ recovering
      → Moves live recovering (after (recovering_claimed env r dump hash a s)).app.status.phase
  unfolding recovering_claimed
  recovering_claimed-Moves dump hash (err x) s h = inl h
  recovering_claimed-Moves dump hash (ok none) s h =
      ground (arith, (start_app-Keeps env r dump hash s).0)
  recovering_claimed-Moves dump hash (ok (some pod)) s h = grind (
    arith,
    come_up,
    transit_phase_to-phase e live (record s { app = with_pod_name pod.name s.app }),
  )

  update_image-phase :
      (image : String) (s : State)
      → (after (update_image env image s)).app.status.phase ≡ s.app.status.phase
  unfolding update_image send_app
  update_image-phase image s = answered (env.update_app_answer s.log asked) refl
    where
      asked : CliApp
      asked = with_image image s.app

      answered :
          (a : Answer CliApp)
          → env.update_app_answer s.log asked ≡ a
          → (after
              (stored a (logged (update_app asked) (record s { app = asked })))).app.status.phase
            ≡ s.app.status.phase
      answered (ok b) h = (e.app s.log asked b h).0
      answered (err x) h = refl

  update_times-phase :
      (image : String) (n : ℕ) (s : State)
      → (after (update_times env image n s)).app.status.phase ≡ s.app.status.phase
  unfolding update_times
  update_times-phase image zero s = update_image-phase image s
  update_times-phase image (suc n) s =
      after-bind (λ t. t.app.status.phase ≡ s.app.status.phase) (update_image env image)
        (λ _. update_times env image n) s (update_image-phase image s)
        (λ x t h. update_times-phase image n t ∙ h)

  retry_image-phase :
      (image : String) (s : State)
      → (after (retry_image env image s)).app.status.phase ≡ s.app.status.phase
  unfolding retry_image
  retry_image-phase image s = update_times-phase image (env.repetitions s.log) s

  finish_build-phase : (s : State) → (after (finish_build env s)).app.status.phase ≡ recovering
  unfolding finish_build
  finish_build-phase s = ground (arith, transit_phase_to-phase e recovering s)

  after_update-Moves :
      (x : Option Error) (s : State)
      → s.app.status.phase ≡ building
      → Moves live building (after (after_update env x s)).app.status.phase
  unfolding after_update
  after_update-Moves (some x) s h = inl h
  after_update-Moves none s h = grind (arith, install, finish_build-phase s)

  built-Moves :
      (a : Answer String) (s : State)
      → s.app.status.phase ≡ building
      → Moves live building (after (built env a s)).app.status.phase
  unfolding built
  built-Moves (err x) s h = inl h
  built-Moves (ok image) s h =
      after-bind_to (λ t. t.app.status.phase ≡ building)
        (λ t. Moves live building t.app.status.phase) (retry_image env image) (after_update env) s
        (retry_image-phase image s ∙ h) (λ t g. inl g) after_update-Moves

  build_image-Moves :
      (s : State)
      → s.app.status.phase ≡ building
      → Moves live building (after (build_image env s)).app.status.phase
  unfolding build_image
  build_image-Moves s h =
      after-bind_to (λ t. t.app ≡ s.app) (λ t. Moves live building t.app.status.phase) test_image
        (built env) s (test_image-Keeps s).0
        (λ t g. inl (ap (λ (x : CliApp). x.status.phase) g ∙ h))
        (λ a t g. built-Moves a t (ap (λ (x : CliApp). x.status.phase) g ∙ h))

  live_from_building-Moves :
      (s : State)
      → s.app.status.phase ≡ building
      → Moves live building (after (live_from_building env s)).app.status.phase
  unfolding live_from_building
  live_from_building-Moves s h = grind (arith, install, finish_build-phase s, build_image-Moves s h)

  live_dispatch-Moves :
      (p : Phase) (s : State)
      → s.app.status.phase ≡ p
      → Moves live p (after (live_dispatch env r p s)).app.status.phase
  unfolding live_dispatch
  live_dispatch-Moves Phase.unset s h = grind (arith, begin, recover-phase s)
  live_dispatch-Moves shutting_down s h = grind (arith, revive, recover-phase s)
  live_dispatch-Moves waiting_for_sessions s h = grind (arith, resume, recover-phase s)
  live_dispatch-Moves rest s h = grind (arith, wake, recover-phase s)
  live_dispatch-Moves live s h =
      after-bind_to (λ t. t.app ≡ s.app) (λ t. Moves live live t.app.status.phase)
        (claim_pods env (env.encode_spec s.app.spec) (env.compute_hash s.app.spec))
        (live_claimed env) s (claim_pods-Keeps env _ _ s).0
        (λ t g. inl (ap (λ (x : CliApp). x.status.phase) g ∙ h))
        (λ a t g. live_claimed-Moves a t (ap (λ (x : CliApp). x.status.phase) g ∙ h))
  live_dispatch-Moves recovering s h =
      after-bind_to (λ t. t.app ≡ s.app) (λ t. Moves live recovering t.app.status.phase)
        (claim_pods env (env.encode_spec s.app.spec) (env.compute_hash s.app.spec))
        (recovering_claimed env r (env.encode_spec s.app.spec) (env.compute_hash s.app.spec)) s
        (claim_pods-Keeps env _ _ s).0 (λ t g. inl (ap (λ (x : CliApp). x.status.phase) g ∙ h))
        (λ a t g. recovering_claimed-Moves _ _ a t (ap (λ (x : CliApp). x.status.phase) g ∙ h))
  live_dispatch-Moves building s h = live_from_building-Moves s h
  live_dispatch-Moves _ s h = inl h

  -- A pass of makeAppLive leaves the app in its phase or moves it along one edge of the graph
  -- towards Live, also where a call fails or the pass panics.
  pub make_app_live-Moves :
      (s : State) → Moves live s.app.status.phase (after (make_app_live env r s)).app.status.phase
  unfolding make_app_live
  make_app_live-Moves s =
      grind (arith, begin_build-Moves s, live_dispatch-Moves s.app.status.phase s refl)
