-- ===== src/Controller/Rest/Edges.antt =====
-- The transitions of makeAppRest (controllers/cliapp_rest.go).
use cliapp.Base.{◌≡◌, refl, inl, Option, none, List, [], ◌∷◌, ◌++◌, arith}
use cliapp.Api.{
  Phase, rest, recovering, building, live, waiting_for_sessions, shutting_down, with_pod_name,
}
use cliapp.Kube.{Pod}
use cliapp.Controller.Error.{Error}
use cliapp.Controller.State.{
  Env, State, after, Answer, ok, err, delete_pod, list_cached, CliAppReconciler,
}
use cliapp.Controller.Env.{Echoes}
use cliapp.Controller.Phases.{idle, uninstall, expire, abort, discard, stop_build, settle, Moves}
use cliapp.Controller.Calls.{logged, fetch_cached_pods, remove_app}
use cliapp.Controller.Pods.{PodGroups, group_pods}
use cliapp.Controller.Build.Cancel.{cancel-returns}
use cliapp.Controller.Transit.Laws.{transit_phase_to-phase}
use cliapp.Controller.Rest.{
  delete_pods, rest_from_live, rest_to_shutdown, rest_from_waiting, rest_settled, rest_drain,
  rest_with_pods, rest_from_building, rest_dispatch, make_app_rest,
}

module _ {env : Env} (e : Echoes env) (r : CliAppReconciler) where
  rest_from_live-Moves :
      (s : State) → Moves rest live (after (rest_from_live env r s)).app.status.phase
  unfolding rest_from_live
  rest_from_live-Moves s = grind (
    arith,
    idle,
    uninstall,
    transit_phase_to-phase e shutting_down (record s { app = with_pod_name "" s.app }),
    transit_phase_to-phase e waiting_for_sessions s,
  )

  rest_to_shutdown-phase :
      (s : State) → (after (rest_to_shutdown env s)).app.status.phase ≡ shutting_down
  unfolding rest_to_shutdown
  rest_to_shutdown-phase s = ground (arith, transit_phase_to-phase e shutting_down s)

  rest_from_waiting-Moves :
      (s : State)
      → s.app.status.phase ≡ waiting_for_sessions
      → Moves rest waiting_for_sessions (after (rest_from_waiting env r s)).app.status.phase
  unfolding rest_from_waiting
  rest_from_waiting-Moves s h = grind (arith, expire, transit_phase_to-phase e shutting_down s)

  rest_settled-Moves :
      (s : State)
      → s.app.status.phase ≡ shutting_down
      → Moves rest shutting_down (after (rest_settled env s)).app.status.phase
  unfolding rest_settled remove_app
  rest_settled-Moves s h = grind (arith, settle, transit_phase_to-phase e rest s)

  delete_pods-app :
      (x : Option Error) (pods : List Pod) (s : State)
      → (after (delete_pods env x pods s)).app ≡ s.app
  unfolding delete_pods
  delete_pods-app x [] s = refl
  delete_pods-app x (pod ∷ pods) s =
      delete_pods-app (env.delete_pod_answer s.log pod.namespace pod.name) pods
        (logged (delete_pod pod.namespace pod.name) s)

  rest_drain-app : (g : PodGroups) (s : State) → (after (rest_drain env g s)).app ≡ s.app
  unfolding rest_drain
  rest_drain-app g s = ground (arith, delete_pods-app none (g.ready ++ g.starting) s)

  rest_with_pods-Moves :
      (a : Answer (List Pod)) (s : State)
      → s.app.status.phase ≡ shutting_down
      → Moves rest shutting_down (after (rest_with_pods env a s)).app.status.phase
  unfolding rest_with_pods
  rest_with_pods-Moves (err x) s h = inl h
  rest_with_pods-Moves (ok []) s h = rest_settled-Moves s h
  rest_with_pods-Moves (ok (pod ∷ pods)) s h =
      inl (ground (arith, rest_drain-app (group_pods (pod ∷ pods)) s))

  rest_from_building-phase :
      (s : State) → (after (rest_from_building env s)).app.status.phase ≡ shutting_down
  unfolding rest_from_building
  rest_from_building-phase s =
      let (t, done, _) = cancel-returns s in
      ground (arith, done, transit_phase_to-phase e shutting_down t)

  rest_dispatch-Moves :
      (p : Phase) (s : State)
      → s.app.status.phase ≡ p
      → Moves rest p (after (rest_dispatch env r p s)).app.status.phase
  unfolding rest_dispatch fetch_cached_pods
  rest_dispatch-Moves live s h = rest_from_live-Moves s
  rest_dispatch-Moves waiting_for_sessions s h = rest_from_waiting-Moves s h
  rest_dispatch-Moves Phase.unset s h = grind (arith, discard, rest_to_shutdown-phase s)
  rest_dispatch-Moves recovering s h = grind (arith, abort, rest_to_shutdown-phase s)
  rest_dispatch-Moves shutting_down s h =
      rest_with_pods-Moves _ (logged (list_cached s.app.namespace s.app.name) s) h
  rest_dispatch-Moves building s h = grind (arith, stop_build, rest_from_building-phase s)
  rest_dispatch-Moves _ s h = inl h

  -- A pass of makeAppRest leaves the app in its phase or moves it along one edge of the graph
  -- towards Rest, also where a call fails or the pass panics.
  pub make_app_rest-Moves :
      (s : State) → Moves rest s.app.status.phase (after (make_app_rest env r s)).app.status.phase
  unfolding make_app_rest
  make_app_rest-Moves s = grind (arith, rest_dispatch-Moves s.app.status.phase s refl)
