-- ===== src/Controller/Live.antt =====
-- makeAppLive (controllers/cliapp_live.go).
pub mod Edges
pub mod Calls
pub mod Progress
pub mod Sends
pub mod Ends
use cliapp.Base.{
  ℕ, zero, suc, Bool, true, false, not, ◌&&◌, Option, none, some, String, ◌==◌, is_blank, is_none,
  if◌then◌else◌,
}
use cliapp.Api.{
  Phase, rest, recovering, building, live, waiting_for_sessions, shutting_down, CliApp, is_live,
  is_building, with_pod_name, with_image,
}
use cliapp.Kube.{Pod}
use cliapp.Utils.{is_pod_ready}
use cliapp.Controller.Error.{Error, no_dockerfile, no_builder}
use cliapp.Controller.State.{
  Env, M, ◌>>=◌, ◌>>◌, pure, panic, returns, Answer, ok, err, CliAppReconciler,
}
use cliapp.Controller.Calls.{send_status, send_app}
use cliapp.Controller.Transit.{transit_phase_to}
use cliapp.Controller.Build.{test_image}
use cliapp.Controller.Claim.{claim_pods}
use cliapp.Controller.Start.{start_app}
use cliapp.Controller.Rest.{Reply, nothing, again, later, default_requeue_duration}

-- `app.Status.PodName = name`
abbrev set_pod_name : String → M (Unit {0})
set_pod_name name s = returns tt (record s { app = with_pod_name name s.app })

abbrev with_hash : Env → ((dump hash : String) → M Reply) → M Reply
with_hash env k s = k (env.encode_spec s.app.spec) (env.compute_hash s.app.spec) s

-- Neither an image nor a build: begin one.
begin_build : Env → CliAppReconciler → M Reply
begin_build env r s =
    if is_blank s.app.spec.dockerfile
    then pure (nothing, some no_dockerfile) s
    else if is_blank r.builder_endpoint
    then pure (nothing, some no_builder) s
    else (transit_phase_to env building >>= λ e.
          pure (elim e [ none ↦ later default_requeue_duration | some _ ↦ nothing ], e))
        s

-- case "", ShuttingDown, WaitingForSessions, Rest
recover : Env → M Reply
recover env = do e ← transit_phase_to env recovering; pure (again, e)

-- The app is Live and has no ready Pod.
lose_pod : Env → M Reply
lose_pod env = do set_pod_name ""; e ← transit_phase_to env recovering; pure (nothing, e)

-- The app is Live and `pod` is ready: its name is noted if it is a new one.
keep_pod : Env → Pod → M Reply
keep_pod env pod s =
    if s.app.status.pod_name == pod.name
    then pure (nothing, none) s
    else (do set_pod_name pod.name; e ← send_status env; pure (nothing, e)) s

-- case Live, with what claimPods answered
live_claimed : Env → Answer (Option Pod) → M Reply
unfolding lose_pod keep_pod
live_claimed env (err e) = pure (nothing, some e)
live_claimed env (ok none) = lose_pod env
live_claimed env (ok (some pod)) = if is_pod_ready pod then keep_pod env pod else lose_pod env

-- Recovering, and `pod` is ready.
go_live : Env → Pod → M Reply
go_live env pod = do set_pod_name pod.name; e ← transit_phase_to env live; pure (nothing, e)

-- case Recovering, with what claimPods answered
recovering_claimed : Env → CliAppReconciler → (dump hash : String) → Answer (Option Pod) → M Reply
unfolding go_live
recovering_claimed env r dump hash (err e) = pure (nothing, some e)
recovering_claimed env r dump hash (ok (some pod)) =
    if is_pod_ready pod then go_live env pod else pure (nothing, none)
recovering_claimed env r dump hash (ok none) = do e ← start_app env r dump hash; pure (nothing, e)

-- `app.Spec.Image = image; r.Update(ctx, app)`
update_image : Env → String → M (Option Error)
unfolding send_app
update_image env image s = send_app env (record s { app = with_image image s.app })

-- The closure, run once and repeated `n` times: only its last answer counts.
update_times : Env → String → ℕ → M (Option Error)
unfolding update_image
update_times env image zero = update_image env image
update_times env image (suc n) = update_image env image >>= λ _. update_times env image n

-- retry.RetryOnConflict around the closure
retry_image : Env → String → M (Option Error)
unfolding update_times
retry_image env image s = update_times env image (env.repetitions s.log) s

-- The end of case Building.
finish_build : Env → M Reply
finish_build env = do
  e ← transit_phase_to env recovering
  pure (elim e [ none ↦ again | some _ ↦ nothing ], e)

after_update : Env → Option Error → M Reply
unfolding finish_build
after_update env (some e) = pure (later default_requeue_duration, some e)
after_update env none = finish_build env

-- An error of the build itself is not passed on: the reconciler asks again later.
built : Env → Answer String → M Reply
unfolding retry_image after_update
built env (err e) = pure (later default_requeue_duration, none)
built env (ok image) = retry_image env image >>= after_update env

build_image : Env → M Reply
unfolding built
build_image env = test_image >>= built env

-- case Building
live_from_building : Env → M Reply
unfolding build_image finish_build
live_from_building env s =
    if is_blank s.app.spec.image then build_image env s else finish_build env s

live_dispatch : Env → CliAppReconciler → Phase → M Reply
unfolding recover live_claimed recovering_claimed live_from_building
live_dispatch env r Phase.unset = recover env
live_dispatch env r shutting_down = recover env
live_dispatch env r waiting_for_sessions = recover env
live_dispatch env r rest = recover env
live_dispatch env r live = with_hash env λ dump hash. claim_pods env dump hash >>= live_claimed env
live_dispatch env r recovering =
    with_hash env λ dump hash. claim_pods env dump hash >>= recovering_claimed env r dump hash
live_dispatch env r building = live_from_building env
live_dispatch env r phase = panic "app.Status.Phase"

-- The test for an app that has yet to be built.
abbrev pub needs_build : CliApp → Bool
needs_build app =
    is_none app.spec.fork && not (is_building app.status.phase) && is_blank app.spec.image

unfoldable pub make_app_live : Env → CliAppReconciler → M Reply
unfolding begin_build live_dispatch
make_app_live env r s =
    if not (is_live s.app.spec.target_phase)
    then panic "app.Name" s
    else if needs_build s.app
    then begin_build env r s
    else live_dispatch env r s.app.status.phase s
