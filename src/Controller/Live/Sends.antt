-- ===== src/Controller/Live/Sends.antt =====
-- What makeAppLive (controllers/cliapp_live.go) sends to the API server.
use cliapp.Base.{ℕ, zero, suc, ◌≡◌, ◌≢◌, sym, subst, inr, Option, none, some, String, arith}
use cliapp.Api.{
  Phase, rest, recovering, building, live, waiting_for_sessions, shutting_down, other, Core,
  with_pod_name, with_image,
}
use cliapp.Kube.{Pod}
use cliapp.Controller.Error.{Error}
use cliapp.Controller.State.{
  Env, M, ◌>>=◌, State, after, after-bind, Answer, ok, err, CliAppReconciler,
}
use cliapp.Controller.Env.{Echoes}
use cliapp.Controller.Phases.{
  Edge, build, begin, wake, resume, revive, lose, come_up, install, Moves,
}
use cliapp.Controller.Keeps.{Keeps}
use cliapp.Controller.Sends.{
  GoesOn, KeepsTo-GoesOn, send_status-GoesOn, send_app-GoesOn, transit-GoesOn,
}
use cliapp.Controller.Transit.{transit_phase_to}
use cliapp.Controller.Start.{start_app}
use cliapp.Controller.Build.{test_image}
use cliapp.Controller.Build.Tests.{test_image-Keeps}
use cliapp.Controller.Claim.{claim_pods}
use cliapp.Controller.Claim.Keeps.{claim_pods-Keeps}
use cliapp.Controller.Start.Keeps.{start_app-Keeps}
use cliapp.Controller.Live.{
  begin_build, recover, lose_pod, keep_pod, live_claimed, go_live, recovering_claimed, update_image,
  update_times, retry_image, finish_build, after_update, built, build_image, live_from_building,
  live_dispatch, make_app_live,
}

-- The target of the object stays Live, and its name and its namespace what they are.
abbrev pub ToLive : (namespace name : String) → Core → Type 0
ToLive namespace name c = (c.spec.target_phase ≡ live) × (c.namespace ≡ namespace) × (c.name ≡ name)

module _ {env : Env} (e : Echoes env) (r : CliAppReconciler) (namespace name : String)
    (start : Phase) where
  abbrev Goes : State → Type 0
  Goes s = GoesOn (ToLive namespace name) live start s

  Moves-from : {q t : Phase} → start ≡ q → Edge live q t → Moves live start t
  Moves-from {t} p x = inr (subst (λ q. Edge live q t) (sym p) x)

  transit-Goes :
      (p : Phase) (s : State)
      → Moves live start p
      → Goes s
      → Goes (after (transit_phase_to env p s))
  transit-Goes = transit-GoesOn (ToLive namespace name) live start e

  renamed :
      (name : String) (s : State) → Goes s → Goes (record s { app = with_pod_name name s.app })
  renamed name s g = record { holds = g.holds; sent = g.sent }

  begin_build-GoesOn : (s : State) → start ≢ building → Goes s → Goes (after (begin_build env r s))
  unfolding begin_build
  begin_build-GoesOn s h g = ground (arith, transit-Goes building s (inr (build h)) g)

  recover-GoesOn : (s : State) → Moves live start recovering → Goes s → Goes (after (recover env s))
  unfolding recover
  recover-GoesOn s m g = ground (arith, transit-Goes recovering s m g)

  lose_pod-GoesOn :
      (s : State) → Moves live start recovering → Goes s → Goes (after (lose_pod env s))
  unfolding lose_pod
  lose_pod-GoesOn s m g = ground (
    arith,
    transit-Goes recovering (record s { app = with_pod_name "" s.app }) m (renamed "" s g),
  )

  keep_pod-GoesOn : (pod : Pod) (s : State) → Goes s → Goes (after (keep_pod env pod s))
  unfolding keep_pod
  keep_pod-GoesOn pod s g = ground (
    arith,
    send_status-GoesOn (ToLive namespace name) live start e
        (record s { app = with_pod_name pod.name s.app }) (renamed pod.name s g),
  )

  live_claimed-GoesOn :
      (a : Answer (Option Pod)) (s : State)
      → start ≡ live
      → Goes s
      → Goes (after (live_claimed env a s))
  unfolding live_claimed
  live_claimed-GoesOn (err x) s p g = g
  live_claimed-GoesOn (ok none) s p g = lose_pod-GoesOn s (Moves-from p lose) g
  live_claimed-GoesOn (ok (some pod)) s p g =
      ground (arith, lose_pod-GoesOn s (Moves-from p lose) g, keep_pod-GoesOn pod s g)

  go_live-GoesOn :
      (pod : Pod) (s : State) → Moves live start live → Goes s → Goes (after (go_live env pod s))
  unfolding go_live
  go_live-GoesOn pod s m g = ground (
    arith,
    transit-Goes live (record s { app = with_pod_name pod.name s.app }) m (renamed pod.name s g),
  )

  recovering_claimed-GoesOn :
      (dump hash : String) (a : Answer (Option Pod)) (s : State)
      → start ≡ recovering
      → Goes s
      → Goes (after (recovering_claimed env r dump hash a s))
  unfolding recovering_claimed
  recovering_claimed-GoesOn dump hash (err x) s p g = g
  recovering_claimed-GoesOn dump hash (ok none) s p g = ground (
    arith,
    KeepsTo-GoesOn (ToLive namespace name) live start s (after (start_app env r dump hash s))
        (start_app-Keeps env r dump hash s) g,
  )
  recovering_claimed-GoesOn dump hash (ok (some pod)) s p g =
      ground (arith, go_live-GoesOn pod s (Moves-from p come_up) g)

  update_image-GoesOn :
      (image : String) (s : State) → Goes s → Goes (after (update_image env image s))
  unfolding update_image
  update_image-GoesOn image s g =
      send_app-GoesOn (ToLive namespace name) live start e
        (record s { app = with_image image s.app }) (record { holds = g.holds; sent = g.sent })

  update_times-GoesOn :
      (image : String) (n : ℕ) (s : State) → Goes s → Goes (after (update_times env image n s))
  unfolding update_times
  update_times-GoesOn image zero s g = update_image-GoesOn image s g
  update_times-GoesOn image (suc n) s g =
      after-bind Goes (update_image env image) (λ _. update_times env image n) s
        (update_image-GoesOn image s g) (λ x t h. update_times-GoesOn image n t h)

  retry_image-GoesOn :
      (image : String) (s : State) → Goes s → Goes (after (retry_image env image s))
  unfolding retry_image
  retry_image-GoesOn image s g = update_times-GoesOn image (env.repetitions s.log) s g

  finish_build-GoesOn : (s : State) → start ≡ building → Goes s → Goes (after (finish_build env s))
  unfolding finish_build
  finish_build-GoesOn s p g = ground (arith, transit-Goes recovering s (Moves-from p install) g)

  after_update-GoesOn :
      (x : Option Error) (s : State)
      → start ≡ building
      → Goes s
      → Goes (after (after_update env x s))
  unfolding after_update
  after_update-GoesOn (some x) s p g = g
  after_update-GoesOn none s p g = finish_build-GoesOn s p g

  built-GoesOn :
      (a : Answer String) (s : State) → start ≡ building → Goes s → Goes (after (built env a s))
  unfolding built
  built-GoesOn (err x) s p g = g
  built-GoesOn (ok image) s p g =
      after-bind Goes (retry_image env image) (after_update env) s (retry_image-GoesOn image s g)
        (λ x t h. after_update-GoesOn x t p h)

  keeping :
      {A B : Type 0} (m : M A) (f : A → M B) (s : State)
      → Keeps m
      → ((a : A) (t : State) → Goes t → Goes (after (f a t)))
      → Goes s
      → Goes (after ((m >>= f) s))
  keeping m f s k h g =
      after-bind Goes m f s
        (KeepsTo-GoesOn (ToLive namespace name) live start s (after (m s)) (k s) g) h

  live_from_building-GoesOn :
      (s : State) → start ≡ building → Goes s → Goes (after (live_from_building env s))
  unfolding live_from_building build_image
  live_from_building-GoesOn s p g = ground (
    arith,
    finish_build-GoesOn s p g,
    keeping test_image (built env) s test_image-Keeps (λ a t h. built-GoesOn a t p h) g,
  )

  live_dispatch-GoesOn :
      (p : Phase) (s : State) → start ≡ p → Goes s → Goes (after (live_dispatch env r p s))
  unfolding live_dispatch
  live_dispatch-GoesOn Phase.unset s p g = recover-GoesOn s (Moves-from p begin) g
  live_dispatch-GoesOn shutting_down s p g = recover-GoesOn s (Moves-from p revive) g
  live_dispatch-GoesOn waiting_for_sessions s p g = recover-GoesOn s (Moves-from p resume) g
  live_dispatch-GoesOn rest s p g = recover-GoesOn s (Moves-from p wake) g
  live_dispatch-GoesOn live s p g =
      keeping (claim_pods env (env.encode_spec s.app.spec) (env.compute_hash s.app.spec))
        (live_claimed env) s (claim_pods-Keeps env _ _) (λ a t h. live_claimed-GoesOn a t p h) g
  live_dispatch-GoesOn recovering s p g =
      keeping (claim_pods env (env.encode_spec s.app.spec) (env.compute_hash s.app.spec))
        (recovering_claimed env r (env.encode_spec s.app.spec) (env.compute_hash s.app.spec)) s
        (claim_pods-Keeps env _ _) (λ a t h. recovering_claimed-GoesOn _ _ a t p h) g
  live_dispatch-GoesOn building s p g = live_from_building-GoesOn s p g
  live_dispatch-GoesOn (other t) s p g = g

  pub make_app_live-GoesOn :
      (s : State) → s.app.status.phase ≡ start → Goes s → Goes (after (make_app_live env r s))
  unfolding make_app_live
  make_app_live-GoesOn s p g =
      grind (arith, begin_build-GoesOn s, live_dispatch-GoesOn s.app.status.phase s (sym p) g)
