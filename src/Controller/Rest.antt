-- ===== src/Controller/Rest.antt =====
-- makeAppRest (controllers/cliapp_rest.go). Durations are not negative; a difference of two times
-- can be, so `elapse < d` is written `now < last + d` and `d - elapse` as `last + d - now`, which
-- are exact then.
pub mod Calls
pub mod Edges
pub mod Progress
pub mod Sends
pub mod Drains
pub mod Waits
pub mod Ends
use cliapp.Base.{
  ℕ, ◌+◌, ◌-◌, true, false, not, Option, none, some, List, [], ◌∷◌, ◌++◌, ltb, is_nil,
  if◌then◌else◌,
}
use cliapp.Api.{
  Phase, rest, recovering, building, live, waiting_for_sessions, shutting_down, is_rest,
  with_pod_name,
}
use cliapp.Kube.{Pod}
use cliapp.Controller.Error.{Error}
use cliapp.Controller.State.{
  Env, M, ◌>>=◌, ◌>>◌, pure, panic, Answer, ok, err, CliAppReconciler, Verdict,
}
use cliapp.Controller.Calls.{fetch_cached_pods, remove_app, remove_pod}
use cliapp.Controller.Transit.{transit_phase_to}
use cliapp.Controller.Pods.{PodGroups, group_pods}
use cliapp.Controller.Build.{cancel}

-- `result, err` of a method.
abbrev pub Reply : Type 0
Reply = Verdict × Option Error

abbrev pub nothing : Verdict
nothing = record { requeue = false; requeue_after = 0 }

abbrev pub again : Verdict
again = record { requeue = true; requeue_after = 0 }

abbrev pub later : ℕ → Verdict
later d = record { requeue = false; requeue_after = d }

-- DefaultRequeueDuration, 5 seconds in nanoseconds.
abbrev pub default_requeue_duration : ℕ
default_requeue_duration = 5000000000

-- The loop over the Pods to delete. Its `err` is that of the last deletion.
delete_pods : Env → Option Error → List Pod → M (Option Error)
unfolding remove_pod
delete_pods env e [] s = pure e s
delete_pods env e (pod ∷ pods) s =
    (remove_pod env pod.namespace pod.name >>= λ e'. delete_pods env e' pods) s

-- case CliAppPhaseLive
rest_from_live : Env → CliAppReconciler → M Reply
rest_from_live env r s =
    if s.app.spec.uninstall_unless_live
    then (transit_phase_to env shutting_down >>= λ e. pure (again, e))
        (record s { app = with_pod_name "" s.app })
    else (transit_phase_to env waiting_for_sessions >>= λ e.
          pure (record { requeue = true; requeue_after = r.duration_idle_live_lasts }, e))
        s

-- case "", CliAppPhaseRecovering
rest_to_shutdown : Env → M Reply
rest_to_shutdown env = do e ← transit_phase_to env shutting_down; pure (again, e)

-- case CliAppPhaseWaitingForSessions
rest_from_waiting : Env → CliAppReconciler → M Reply
unfolding rest_to_shutdown
rest_from_waiting env r s =
    let now = env.now s.log in
    let until = s.app.status.last_phase_transition + r.duration_idle_live_lasts in
    if ltb now until then pure (later (until - now), none) s else rest_to_shutdown env s

-- the Pods are gone
rest_settled : Env → M Reply
rest_settled env s =
    ((if s.app.spec.uninstall_unless_live then remove_app env else transit_phase_to env rest)
        >>= λ e. pure (nothing, e))
      s

rest_drain : Env → PodGroups → M Reply
unfolding delete_pods
rest_drain env g =
    if not (is_nil g.terminating) then pure (later default_requeue_duration, none) else do
      e ← delete_pods env none (g.ready ++ g.starting)
      pure (later default_requeue_duration, e)

-- case CliAppPhaseShuttingDown, with the answer of the list call
rest_with_pods : Env → Answer (List Pod) → M Reply
unfolding rest_settled rest_drain
rest_with_pods env (err e) = pure (nothing, some e)
rest_with_pods env (ok []) = rest_settled env
rest_with_pods env (ok (pod ∷ pods)) = rest_drain env (group_pods (pod ∷ pods))

-- case CliAppPhaseBuilding
rest_from_building : Env → M Reply
rest_from_building env = do
  cancel
  e ← transit_phase_to env shutting_down
  pure (elim e [ none ↦ again | some _ ↦ nothing ], e)

rest_dispatch : Env → CliAppReconciler → Phase → M Reply
unfolding rest_from_live rest_from_waiting rest_to_shutdown rest_with_pods rest_from_building
rest_dispatch env r live = rest_from_live env r
rest_dispatch env r waiting_for_sessions = rest_from_waiting env r
rest_dispatch env r Phase.unset = rest_to_shutdown env
rest_dispatch env r recovering = rest_to_shutdown env
rest_dispatch env r shutting_down = fetch_cached_pods env >>= rest_with_pods env
rest_dispatch env r building = rest_from_building env
rest_dispatch env r phase = panic "app.Status.Phase"

unfoldable pub make_app_rest : Env → CliAppReconciler → M Reply
unfolding rest_dispatch
make_app_rest env r s =
    if is_rest s.app.spec.target_phase
    then rest_dispatch env r s.app.status.phase s
    else panic "app.Name" s
