-- ===== src/Controller/Rest/Calls.antt =====
-- What makeAppRest (controllers/cliapp_rest.go) asks of the API server and the builder.
use cliapp.Base.{Option, none, List, [], ◌∷◌, ◌++◌, arith, All}
use cliapp.Api.{
  Phase, CliApp, rest, recovering, building, live, other, shutting_down, waiting_for_sessions,
  with_pod_name,
}
use cliapp.Kube.{Pod}
use cliapp.Controller.Error.{Error}
use cliapp.Controller.State.{
  Env, State, after, after-bind, Answer, ok, err, CliAppReconciler, Call, create_pod, start_build,
  update_status, delete_pod, list_cached,
}
use cliapp.Controller.Calls.{logged, stored, send_status, fetch_cached_pods, remove_app, remove_pod}
use cliapp.Controller.Transit.{transit_phase_to, stamp, forget_pod}
use cliapp.Controller.Pods.{group_pods}
use cliapp.Controller.Build.{cancel}
use cliapp.Controller.Rest.{
  delete_pods, rest_from_live, rest_to_shutdown, rest_from_waiting, rest_settled, rest_drain,
  rest_with_pods, rest_from_building, rest_dispatch, make_app_rest,
}

-- A call that makes nothing new: neither a Pod nor a build.
abbrev pub IsStopping : Call → Type 0
IsStopping (create_pod pod) = ⊥
IsStopping (start_build b) = ⊥
IsStopping c = Unit

abbrev pub OnlyStops : State → Type 0
OnlyStops s = All IsStopping s.log

pub send_status-OnlyStops :
    (env : Env) (s : State) → OnlyStops s → OnlyStops (after (send_status env s))
unfolding send_status
send_status-OnlyStops env s h = answered (env.update_status_answer s.log s.app)
  where
    answered : (a : Answer CliApp) → OnlyStops (after (stored a (logged (update_status s.app) s)))
    answered (ok a) = (tt, h)
    answered (err e) = (tt, h)

pub transit-OnlyStops :
    (env : Env) (p : Phase) (s : State) → OnlyStops s → OnlyStops (after (transit_phase_to env p s))
unfolding transit_phase_to
transit-OnlyStops env p s h =
    ground
      (arith, send_status-OnlyStops env (record s { app = forget_pod p (stamp p s.app env s) }) h)

delete_pods-OnlyStops :
    (env : Env) (e : Option Error) (pods : List Pod) (s : State)
    → OnlyStops s
    → OnlyStops (after (delete_pods env e pods s))
unfolding delete_pods remove_pod
delete_pods-OnlyStops env e [] s h = h
delete_pods-OnlyStops env e (pod ∷ pods) s h =
    delete_pods-OnlyStops env (env.delete_pod_answer s.log pod.namespace pod.name) pods
      (logged (delete_pod pod.namespace pod.name) s) (tt, h)

rest_to_shutdown-OnlyStops :
    (env : Env) (s : State) → OnlyStops s → OnlyStops (after (rest_to_shutdown env s))
unfolding rest_to_shutdown
rest_to_shutdown-OnlyStops env s h =
    after-bind OnlyStops (transit_phase_to env shutting_down) _ s
      (transit-OnlyStops env shutting_down s h) λ _ t k. k

rest_from_live-OnlyStops :
    (env : Env) (r : CliAppReconciler) (s : State)
    → OnlyStops s
    → OnlyStops (after (rest_from_live env r s))
unfolding rest_from_live
rest_from_live-OnlyStops env r s h = ground (
  arith,
  transit-OnlyStops env shutting_down (record s { app = with_pod_name "" s.app }) h,
  transit-OnlyStops env waiting_for_sessions s h,
)

rest_with_pods-OnlyStops :
    (env : Env) (a : Answer (List Pod)) (s : State)
    → OnlyStops s
    → OnlyStops (after (rest_with_pods env a s))
unfolding rest_with_pods rest_settled rest_drain remove_app
rest_with_pods-OnlyStops env (err e) s h = h
rest_with_pods-OnlyStops env (ok []) s h = ground (arith, transit-OnlyStops env rest s h)
rest_with_pods-OnlyStops env (ok (pod ∷ pods)) s h =
    let g = group_pods (pod ∷ pods) in
    ground (arith, delete_pods-OnlyStops env none (g.ready ++ g.starting) s h)

cancel-OnlyStops : (s : State) → OnlyStops s → OnlyStops (after (cancel s))
unfolding cancel
cancel-OnlyStops s h = ground arith

rest_from_building-OnlyStops :
    (env : Env) (s : State) → OnlyStops s → OnlyStops (after (rest_from_building env s))
unfolding rest_from_building
rest_from_building-OnlyStops env s h =
    after-bind OnlyStops cancel _ s (cancel-OnlyStops s h) λ _ t k.
      after-bind OnlyStops (transit_phase_to env shutting_down) _ t
        (transit-OnlyStops env shutting_down t k) λ _ u j. j

rest_dispatch-OnlyStops :
    (env : Env) (r : CliAppReconciler) (p : Phase) (s : State)
    → OnlyStops s
    → OnlyStops (after (rest_dispatch env r p s))
unfolding rest_dispatch rest_from_waiting fetch_cached_pods
rest_dispatch-OnlyStops env r live s h = rest_from_live-OnlyStops env r s h
rest_dispatch-OnlyStops env r waiting_for_sessions s h =
    ground (arith, rest_to_shutdown-OnlyStops env s h)
rest_dispatch-OnlyStops env r Phase.unset s h = rest_to_shutdown-OnlyStops env s h
rest_dispatch-OnlyStops env r recovering s h = rest_to_shutdown-OnlyStops env s h
rest_dispatch-OnlyStops env r shutting_down s h =
    rest_with_pods-OnlyStops env (env.list_cached_answer s.log s.app.namespace s.app.name)
      (logged (list_cached s.app.namespace s.app.name) s) (tt, h)
rest_dispatch-OnlyStops env r building s h = rest_from_building-OnlyStops env s h
rest_dispatch-OnlyStops env r rest s h = h
rest_dispatch-OnlyStops env r (other t) s h = h

-- On the way to Rest nothing new is made: whatever the services answer, the calls of makeAppRest
-- create no Pod and start no build, where those before it did not.
pub make_app_rest-OnlyStops :
    (env : Env) (r : CliAppReconciler) (s : State)
    → OnlyStops s
    → OnlyStops (after (make_app_rest env r s))
unfolding make_app_rest
make_app_rest-OnlyStops env r s h =
    ground (arith, rest_dispatch-OnlyStops env r s.app.status.phase s h)
