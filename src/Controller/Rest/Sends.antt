-- ===== src/Controller/Rest/Sends.antt =====
-- What makeAppRest (controllers/cliapp_rest.go) sends to the API server.
use cliapp.Base.{◌≡◌, sym, subst, inr, Option, none, List, [], ◌∷◌, ◌++◌, arith}
use cliapp.Api.{
  Phase, rest, recovering, building, live, waiting_for_sessions, shutting_down, other,
  with_pod_name,
}
use cliapp.Kube.{Pod}
use cliapp.Controller.Error.{Error}
use cliapp.Controller.State.{
  Env, State, list_cached, delete_pod, Answer, ok, err, after, after-bind, CliAppReconciler,
}
use cliapp.Controller.Env.{Echoes}
use cliapp.Controller.Sends.{GoesOn, transit-GoesOn}
use cliapp.Controller.Phases.{
  Edge, Moves, idle, uninstall, expire, abort, discard, stop_build, settle,
}
use cliapp.Controller.Calls.{logged, fetch_cached_pods, remove_app, remove_pod}
use cliapp.Controller.Transit.{transit_phase_to}
use cliapp.Api.{Core}
use cliapp.Controller.Pods.{group_pods}
use cliapp.Controller.Build.{cancel}
use cliapp.Controller.Rest.{
  delete_pods, rest_from_live, rest_to_shutdown, rest_from_waiting, rest_settled, rest_drain,
  rest_with_pods, rest_from_building, rest_dispatch, make_app_rest,
}

module _ (K : Core → Type 0) (start : Phase) {env : Env} (e : Echoes env) where
  abbrev Goes : State → Type 0
  Goes s = GoesOn K rest start s

  Moves-from : {q t : Phase} → start ≡ q → Edge rest q t → Moves rest start t
  Moves-from {t} p x = inr (subst (λ q. Edge rest q t) (sym p) x)

  transit-Goes :
      (p : Phase) (s : State)
      → Moves rest start p
      → Goes s
      → Goes (after (transit_phase_to env p s))
  transit-Goes = transit-GoesOn K rest start e

  delete_pods-GoesOn :
      (x : Option Error) (pods : List Pod) (s : State)
      → Goes s
      → Goes (after (delete_pods env x pods s))
  unfolding delete_pods remove_pod
  delete_pods-GoesOn x [] s g = g
  delete_pods-GoesOn x (pod ∷ pods) s g =
      delete_pods-GoesOn (env.delete_pod_answer s.log pod.namespace pod.name) pods
        (logged (delete_pod pod.namespace pod.name) s)
        (record { holds = g.holds; sent = (tt, g.sent) })

  rest_to_shutdown-GoesOn :
      (s : State) → Moves rest start shutting_down → Goes s → Goes (after (rest_to_shutdown env s))
  unfolding rest_to_shutdown
  rest_to_shutdown-GoesOn s m g = ground (arith, transit-Goes shutting_down s m g)

  rest_from_live-GoesOn :
      (r : CliAppReconciler) (s : State)
      → start ≡ live
      → Goes s
      → Goes (after (rest_from_live env r s))
  unfolding rest_from_live
  rest_from_live-GoesOn r s p g = ground (
    arith,
    transit-Goes shutting_down (record s { app = with_pod_name "" s.app }) (Moves-from p uninstall)
        (record { holds = g.holds; sent = g.sent }),
    transit-Goes waiting_for_sessions s (Moves-from p idle) g,
  )

  rest_with_pods-GoesOn :
      (a : Answer (List Pod)) (s : State)
      → start ≡ shutting_down
      → Goes s
      → Goes (after (rest_with_pods env a s))
  unfolding rest_with_pods rest_settled rest_drain remove_app
  rest_with_pods-GoesOn (err x) s p g = g
  rest_with_pods-GoesOn (ok []) s p g = ground (arith, transit-Goes rest s (Moves-from p settle) g)
  rest_with_pods-GoesOn (ok (pod ∷ pods)) s p g =
      let q = group_pods (pod ∷ pods) in
      ground (arith, delete_pods-GoesOn none (q.ready ++ q.starting) s g)

  cancel-GoesOn : (s : State) → Goes s → Goes (after (cancel s))
  unfolding cancel
  cancel-GoesOn s g = ground arith

  rest_from_building-GoesOn :
      (s : State) → start ≡ building → Goes s → Goes (after (rest_from_building env s))
  unfolding rest_from_building
  rest_from_building-GoesOn s p g =
      after-bind Goes cancel _ s (cancel-GoesOn s g)
        λ _ t h. ground (arith, transit-Goes shutting_down t (Moves-from p stop_build) h)

  rest_dispatch-GoesOn :
      (r : CliAppReconciler) (q : Phase) (s : State)
      → start ≡ q
      → Goes s
      → Goes (after (rest_dispatch env r q s))
  unfolding rest_dispatch rest_from_waiting fetch_cached_pods
  rest_dispatch-GoesOn r live s p g = rest_from_live-GoesOn r s p g
  rest_dispatch-GoesOn r waiting_for_sessions s p g =
      ground (arith, rest_to_shutdown-GoesOn s (Moves-from p expire) g)
  rest_dispatch-GoesOn r Phase.unset s p g = rest_to_shutdown-GoesOn s (Moves-from p discard) g
  rest_dispatch-GoesOn r recovering s p g = rest_to_shutdown-GoesOn s (Moves-from p abort) g
  rest_dispatch-GoesOn r shutting_down s p g =
      rest_with_pods-GoesOn (env.list_cached_answer s.log s.app.namespace s.app.name)
        (logged (list_cached s.app.namespace s.app.name) s) p
        (record { holds = g.holds; sent = (tt, g.sent) })
  rest_dispatch-GoesOn r building s p g = rest_from_building-GoesOn s p g
  rest_dispatch-GoesOn r rest s p g = g
  rest_dispatch-GoesOn r (other t) s p g = g

  pub make_app_rest-GoesOn :
      (r : CliAppReconciler) (s : State)
      → s.app.status.phase ≡ start
      → Goes s
      → Goes (after (make_app_rest env r s))
  unfolding make_app_rest
  make_app_rest-GoesOn r s p g =
      ground (arith, rest_dispatch-GoesOn r s.app.status.phase s (sym p) g)
