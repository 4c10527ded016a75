-- ===== src/Controller/Live/Ends.antt =====
-- Panics of makeAppLive (controllers/cliapp_live.go).
use cliapp.Base.{
  ℕ, zero, suc, ◌≡◌, refl, sym, subst, ◌≢◌, ◌⊎◌, inl, false, Option, none, some, String, arith,
  eq_iff, List,
}
use cliapp.Api.{
  Phase, rest, recovering, building, live, waiting_for_sessions, shutting_down, other, CliApp,
  Shell, with_pod_name,
}
use cliapp.Kube.{Pod}
use cliapp.Controller.Error.{Error}
use cliapp.Controller.State.{
  Env, State, Returns, Ends, Ends-bind, Ends-bind_all, Answer, ok, err, CliAppReconciler,
}
use cliapp.Controller.Env.{NamesPods}
use cliapp.Controller.Calls.{send_status, send_app}
use cliapp.Controller.Build.{test_image}
use cliapp.Controller.Build.Tests.{test_image-Ends}
use cliapp.Controller.Claim.{claim_pods}
use cliapp.Controller.Claim.Kept.{claimed-All, claim_pods_listed, claim_pods_failed}
use cliapp.Controller.Start.Ends.{start_app-Ends}
use cliapp.Controller.Workload.Config.Ends.{IsKnownShell}
use cliapp.Controller.Transit.Laws.{transit_phase_to-Ends, transit_phase_to-Ends_live}
use cliapp.Controller.Live.{
  begin_build, recover, lose_pod, keep_pod, live_claimed, go_live, recovering_claimed, update_image,
  update_times, retry_image, finish_build, after_update, built, build_image, live_from_building,
  live_dispatch, needs_build, make_app_live,
}

-- What the panics of makeAppLive are kept away by.
pub record IsRunnable (r : CliAppReconciler) (s : State) : Type 0 where
  pub unforked : s.app.spec.fork ≡ none
  pub default_known : IsKnownShell r.default_shell
  pub shell_known : (s.app.spec.shell ≡ Shell.unset) ⊎ IsKnownShell s.app.spec.shell
  pub buildable : s.app.status.phase ≡ building → s.app.spec.image ≡ "" → s.app_map ≢ none

module _ {env : Env} (named : NamesPods env) (r : CliAppReconciler) where
  begin_build-Ends : (s : State) → Ends (begin_build env r s)
  unfolding begin_build
  begin_build-Ends s = ground (arith, transit_phase_to-Ends env building s)

  recover-Ends : (s : State) → Ends (recover env s)
  unfolding recover
  recover-Ends s = ground (arith, transit_phase_to-Ends env recovering s)

  live_claimed-Ends : (a : Answer (Option Pod)) (s : State) → Ends (live_claimed env a s)
  unfolding live_claimed lose_pod keep_pod send_status
  live_claimed-Ends (err x) s = tt
  live_claimed-Ends (ok none) s =
      ground
        (arith, transit_phase_to-Ends env recovering (record s { app = with_pod_name "" s.app }))
  live_claimed-Ends (ok (some pod)) s =
      ground
        (arith, transit_phase_to-Ends env recovering (record s { app = with_pod_name "" s.app }))

  -- What claimPods answers names its Pod, and the app is the one before.
  abbrev IsNamed : State → Answer (Option Pod) → State → Type 0
  IsNamed s a t = (t.app ≡ s.app) × ((pod : Pod) → a ≡ ok (some pod) → pod.name ≢ "")

  claim_pods-IsNamed :
      (dump hash : String) (s : State) → Returns (claim_pods env dump hash s) (IsNamed s)
  claim_pods-IsNamed dump hash s =
      answered (env.list_pods_answer s.log s.app.namespace s.app.name) refl
    where
      answered :
          (a : Answer (List Pod))
          → env.list_pods_answer s.log s.app.namespace s.app.name ≡ a
          → Returns (claim_pods env dump hash s) (IsNamed s)
      answered (err x) e = rw (claim_pods_failed env dump hash s x e) (refl, λ pod f. cc)
      answered (ok pods) e = rw (claim_pods_listed env dump hash s pods e) (
        refl,
        λ pod f.
            claimed-All (λ p. p.name ≢ "") dump hash pods
              (named.named s.log s.app.namespace s.app.name pods e) pod (cc),
      )

  go_live-Ends :
      (pod : Pod) (s : State)
      → pod.name ≢ ""
      → (s.app.spec.image ≢ "") ⊎ (s.app.spec.fork ≢ none)
      → Ends (go_live env pod s)
  unfolding go_live
  go_live-Ends pod s h k =
      ground (
        arith,
        transit_phase_to-Ends_live env (record s { app = with_pod_name pod.name s.app }) h k,
      )

  recovering_claimed-Ends :
      (dump hash : String) (a : Answer (Option Pod)) (s : State)
      → ((pod : Pod) → a ≡ ok (some pod) → pod.name ≢ "")
      → s.app.spec.image ≢ ""
      → s.app.spec.fork ≡ none
      → IsKnownShell r.default_shell
      → (s.app.spec.shell ≡ Shell.unset) ⊎ IsKnownShell s.app.spec.shell
      → Ends (recovering_claimed env r dump hash a s)
  unfolding recovering_claimed
  recovering_claimed-Ends dump hash (err x) s n i f d k = tt
  recovering_claimed-Ends dump hash (ok none) s n i f d k =
      ground (arith, start_app-Ends env r dump hash s f d k)
  recovering_claimed-Ends dump hash (ok (some pod)) s n i f d k =
      ground (arith, go_live-Ends pod s (n pod refl) (inl i))

  update_image-Ends : (image : String) (s : State) → Ends (update_image env image s)
  unfolding update_image send_app
  update_image-Ends image s = ground arith

  update_times-Ends : (image : String) (n : ℕ) (s : State) → Ends (update_times env image n s)
  unfolding update_times
  update_times-Ends image zero s = update_image-Ends image s
  update_times-Ends image (suc n) s =
      Ends-bind_all (update_image env image) (λ _. update_times env image n) s
        (update_image-Ends image s) (λ x t. update_times-Ends image n t)

  retry_image-Ends : (image : String) (s : State) → Ends (retry_image env image s)
  unfolding retry_image
  retry_image-Ends image s = update_times-Ends image (env.repetitions s.log) s

  finish_build-Ends : (s : State) → Ends (finish_build env s)
  unfolding finish_build
  finish_build-Ends s = ground (arith, transit_phase_to-Ends env recovering s)

  after_update-Ends : (x : Option Error) (s : State) → Ends (after_update env x s)
  unfolding after_update
  after_update-Ends (some x) s = tt
  after_update-Ends none s = finish_build-Ends s

  built-Ends : (a : Answer String) (s : State) → Ends (built env a s)
  unfolding built
  built-Ends (err x) s = tt
  built-Ends (ok image) s =
      Ends-bind_all (retry_image env image) (after_update env) s (retry_image-Ends image s)
        after_update-Ends

  build_image-Ends : (s : State) → s.app_map ≢ none → Ends (build_image env s)
  unfolding build_image
  build_image-Ends s h = Ends-bind_all test_image (built env) s (test_image-Ends s h) built-Ends

  live_from_building-Ends :
      (s : State) → (s.app.spec.image ≡ "" → s.app_map ≢ none) → Ends (live_from_building env s)
  unfolding live_from_building
  live_from_building-Ends s h =
      ground (arith, eq_iff s.app.spec.image "", finish_build-Ends s, build_image-Ends s)

  image_set :
      (s : State)
      → s.app.spec.fork ≡ none
      → s.app.status.phase ≡ recovering
      → needs_build s.app ≡ false
      → s.app.spec.image ≢ ""
  image_set s f e n = ground (arith, eq_iff s.app.spec.image "")

  recovering_claimed-Ends_of :
      (s : State)
      → IsRunnable r s
      → s.app.spec.image ≢ ""
      → (dump hash : String) (a : Answer (Option Pod)) (t : State) → IsNamed s a t
      → Ends (recovering_claimed env r dump hash a t)
  recovering_claimed-Ends_of s h i dump hash a t (same, n) =
      recovering_claimed-Ends dump hash a t n (moved (λ x. x.spec.image ≢ "") i)
        (moved (λ x. x.spec.fork ≡ none) h.unforked) h.default_known
        (moved (λ x. (x.spec.shell ≡ Shell.unset) ⊎ IsKnownShell x.spec.shell) h.shell_known)
    where
      moved : (P : CliApp → Type 0) → P s.app → P t.app
      moved P p = subst P (sym same) p

  live_dispatch-Ends :
      (p : Phase) (s : State)
      → IsRunnable r s
      → s.app.status.phase ≡ p
      → ((x : String) → p ≢ other x)
      → needs_build s.app ≡ false
      → Ends (live_dispatch env r p s)
  unfolding live_dispatch
  live_dispatch-Ends Phase.unset s h e k n = recover-Ends s
  live_dispatch-Ends shutting_down s h e k n = recover-Ends s
  live_dispatch-Ends waiting_for_sessions s h e k n = recover-Ends s
  live_dispatch-Ends rest s h e k n = recover-Ends s
  live_dispatch-Ends live s h e k n =
      Ends-bind (IsNamed s)
        (claim_pods env (env.encode_spec s.app.spec) (env.compute_hash s.app.spec))
        (live_claimed env) s (claim_pods-IsNamed _ _ s) (λ a t _. live_claimed-Ends a t)
  live_dispatch-Ends recovering s h e k n =
      Ends-bind (IsNamed s)
        (claim_pods env (env.encode_spec s.app.spec) (env.compute_hash s.app.spec))
        (recovering_claimed env r (env.encode_spec s.app.spec) (env.compute_hash s.app.spec)) s
        (claim_pods-IsNamed _ _ s) (recovering_claimed-Ends_of s h (image_set s h.unforked e n) _ _)
  live_dispatch-Ends building s h e k n = live_from_building-Ends s (h.buildable e)
  live_dispatch-Ends (other x) s h e k n = absurd (k x refl)

  pub make_app_live-Ends :
      (s : State)
      → IsRunnable r s
      → s.app.spec.target_phase ≡ live
      → ((x : String) → s.app.status.phase ≢ other x)
      → Ends (make_app_live env r s)
  unfolding make_app_live
  make_app_live-Ends s h t k =
      ground (arith, t, begin_build-Ends s, live_dispatch-Ends s.app.status.phase s h refl k)
