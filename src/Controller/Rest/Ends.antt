-- ===== src/Controller/Rest/Ends.antt =====
-- Panics of makeAppRest (controllers/cliapp_rest.go).
use cliapp.Base.{◌≡◌, refl, ◌≢◌, Option, none, List, [], ◌∷◌, ◌++◌, String, arith}
use cliapp.Api.{
  Phase, rest, recovering, building, live, waiting_for_sessions, shutting_down, other,
  with_pod_name,
}
use cliapp.Kube.{Pod}
use cliapp.Controller.Error.{Error}
use cliapp.Controller.State.{
  Env, State, Ends, Answer, ok, err, CliAppReconciler, delete_pod, list_cached,
}
use cliapp.Controller.Calls.{logged, fetch_cached_pods, remove_app}
use cliapp.Controller.Pods.{group_pods}
use cliapp.Controller.Build.Cancel.{cancel-returns}
use cliapp.Controller.Transit.Laws.{transit_phase_to-Ends}
use cliapp.Controller.Rest.{
  delete_pods, rest_from_live, rest_to_shutdown, rest_from_waiting, rest_settled, rest_drain,
  rest_with_pods, rest_from_building, rest_dispatch, make_app_rest,
}

module _ (env : Env) (r : CliAppReconciler) where
  rest_from_live-Ends : (s : State) → Ends (rest_from_live env r s)
  unfolding rest_from_live
  rest_from_live-Ends s = ground (
    arith,
    transit_phase_to-Ends env shutting_down (record s { app = with_pod_name "" s.app }),
    transit_phase_to-Ends env waiting_for_sessions s,
  )

  rest_to_shutdown-Ends : (s : State) → Ends (rest_to_shutdown env s)
  unfolding rest_to_shutdown
  rest_to_shutdown-Ends s = ground (arith, transit_phase_to-Ends env shutting_down s)

  rest_from_waiting-Ends : (s : State) → Ends (rest_from_waiting env r s)
  unfolding rest_from_waiting
  rest_from_waiting-Ends s = ground (arith, transit_phase_to-Ends env shutting_down s)

  rest_settled-Ends : (s : State) → Ends (rest_settled env s)
  unfolding rest_settled remove_app
  rest_settled-Ends s = ground (arith, transit_phase_to-Ends env rest s)

  delete_pods-Ends :
      (x : Option Error) (pods : List Pod) (s : State) → Ends (delete_pods env x pods s)
  unfolding delete_pods
  delete_pods-Ends x [] s = tt
  delete_pods-Ends x (pod ∷ pods) s =
      delete_pods-Ends (env.delete_pod_answer s.log pod.namespace pod.name) pods
        (logged (delete_pod pod.namespace pod.name) s)

  rest_with_pods-Ends : (a : Answer (List Pod)) (s : State) → Ends (rest_with_pods env a s)
  unfolding rest_with_pods rest_drain
  rest_with_pods-Ends (err x) s = tt
  rest_with_pods-Ends (ok []) s = rest_settled-Ends s
  rest_with_pods-Ends (ok (pod ∷ pods)) s =
      let g = group_pods (pod ∷ pods) in
      ground (arith, delete_pods-Ends none (g.ready ++ g.starting) s)

  rest_from_building-Ends : (s : State) → Ends (rest_from_building env s)
  unfolding rest_from_building
  rest_from_building-Ends s =
      let (t, done, _) = cancel-returns s in
      ground (arith, done, transit_phase_to-Ends env shutting_down t)

  rest_dispatch-Ends :
      (p : Phase) (s : State)
      → p ≢ rest
      → ((x : String) → p ≢ other x)
      → Ends (rest_dispatch env r p s)
  unfolding rest_dispatch fetch_cached_pods
  rest_dispatch-Ends live s h k = rest_from_live-Ends s
  rest_dispatch-Ends waiting_for_sessions s h k = rest_from_waiting-Ends s
  rest_dispatch-Ends Phase.unset s h k = rest_to_shutdown-Ends s
  rest_dispatch-Ends recovering s h k = rest_to_shutdown-Ends s
  rest_dispatch-Ends shutting_down s h k =
      rest_with_pods-Ends _ (logged (list_cached s.app.namespace s.app.name) s)
  rest_dispatch-Ends building s h k = rest_from_building-Ends s
  rest_dispatch-Ends rest s h k = absurd (h refl)
  rest_dispatch-Ends (other x) s h k = absurd (k x refl)

  pub make_app_rest-Ends :
      (s : State)
      → s.app.spec.target_phase ≡ rest
      → s.app.status.phase ≢ rest
      → ((x : String) → s.app.status.phase ≢ other x)
      → Ends (make_app_rest env r s)
  unfolding make_app_rest
  make_app_rest-Ends s t h k = ground (arith, t, rest_dispatch-Ends s.app.status.phase s h k)
