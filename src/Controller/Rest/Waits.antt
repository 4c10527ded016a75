-- ===== src/Controller/Rest/Waits.antt =====
-- The Pods that makeAppRest (controllers/cliapp_rest.go) waits for.
use cliapp.Base.{
  ◌≡◌, refl, ◌⊎◌, inl, inr, Bool, true, false, not, is_nil, if◌then◌else◌, Option, none, List, [],
  ◌∷◌, ◌++◌, arith,
}
use cliapp.Api.{rest, shutting_down}
use cliapp.Kube.{Pod}
use cliapp.Controller.Error.{Error}
use cliapp.Controller.State.{
  Env, State, ◌>>=◌, pure, list_cached, Answer, ok, err, after, CliAppReconciler,
}
use cliapp.Controller.Keeps.{IsQuiet, KeepsTo, KeepsBy, Keeps-bind, Onto-behind, same}
use cliapp.Controller.Calls.{logged, fetch_cached_pods, remove_pod}
use cliapp.Controller.Pods.{PodGroups, group_pods}
use cliapp.Controller.Rest.{
  Reply, later, default_requeue_duration, delete_pods, rest_drain, rest_with_pods, rest_dispatch,
  make_app_rest,
}

delete_pods-Keeps :
    (env : Env) (x : Option Error) (pods : List Pod) → KeepsBy IsQuiet (delete_pods env x pods)
unfolding delete_pods remove_pod
delete_pods-Keeps env x [] s = (refl, same)
delete_pods-Keeps env x (pod ∷ pods) s =
    let (e, o) = delete_pods-Keeps env _ pods (logged _ s) in (e, Onto-behind tt o)

rest_drain-Keeps : (env : Env) (g : PodGroups) → KeepsBy IsQuiet (rest_drain env g)
unfolding rest_drain
rest_drain-Keeps env g = either (not (is_nil g.terminating))
  where
    either :
        (b : Bool)
        → KeepsBy {A = Reply} IsQuiet (
            if b then pure (later default_requeue_duration, none) else do
              e ← delete_pods env none (g.ready ++ g.starting)
              pure (later default_requeue_duration, e))
    either true s = (refl, same)
    either false s =
        Keeps-bind (delete_pods env none (g.ready ++ g.starting))
          (λ e. pure (later default_requeue_duration, e))
          (delete_pods-Keeps env none (g.ready ++ g.starting)) (λ e u. (refl, same)) s

rest_with_pods-Waits :
    (env : Env) (a : Answer (List Pod)) (s : State)
    → (a ≡ ok []) ⊎ KeepsTo IsQuiet s (after (rest_with_pods env a s))
unfolding rest_with_pods
rest_with_pods-Waits env (err x) s = inr (refl, same)
rest_with_pods-Waits env (ok []) s = inl refl
rest_with_pods-Waits env (ok (pod ∷ pods)) s =
    inr (rest_drain-Keeps env (group_pods (pod ∷ pods)) s)

-- Where the list of Pods is not answered, or not empty, the app that shuts down is left as it is.
pub make_app_rest-Waits :
    (env : Env) (r : CliAppReconciler) (s : State)
    → s.app.spec.target_phase ≡ rest
    → s.app.status.phase ≡ shutting_down
    → (env.list_cached_answer s.log s.app.namespace s.app.name ≡ ok [])
      ⊎ KeepsTo IsQuiet s (after (make_app_rest env r s))
unfolding make_app_rest rest_dispatch fetch_cached_pods
make_app_rest-Waits env r s t p =
    let listed = logged (list_cached s.app.namespace s.app.name) s in
    let waits =
      rest_with_pods-Waits env (env.list_cached_answer s.log s.app.namespace s.app.name) listed in
    let kept : (env.list_cached_answer s.log s.app.namespace s.app.name ≡ ok [])
        ⊎ KeepsTo IsQuiet s (after (rest_dispatch env r shutting_down s)) =
      elim waits [ inl e ↦ inl e | inr k ↦ inr (k.0, Onto-behind tt k.1) ] in
    ground (arith, t, p, kept)
