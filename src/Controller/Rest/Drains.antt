-- ===== src/Controller/Rest/Drains.antt =====
-- The Pods of an app that shuts down (makeAppRest of controllers/cliapp_rest.go).
use cliapp.Base.{
  ◌≡◌, ◌≢◌, refl, subst, ◌⊎◌, inl, inr, Option, none, List, [], ◌∷◌, ◌++◌, Perm, arith,
}
use cliapp.Api.{rest, shutting_down}
use cliapp.Kube.{Pod}
use cliapp.Controller.Error.{Error}
use cliapp.Controller.State.{
  Env, State, History, list_cached, delete_pod, returns, ok, CliAppReconciler,
}
use cliapp.Controller.Calls.{logged, fetch_cached_pods, remove_pod}
use cliapp.Controller.Pods.{PodGroups, group_pods}
use cliapp.Controller.Pods.Partition.{all_of, group_pods-perm}
use cliapp.Controller.Rest.{
  later, default_requeue_duration, delete_pods, rest_drain, rest_with_pods, rest_dispatch,
  make_app_rest,
}

-- The calls of the deletions, in their order, on top of a log.
abbrev pub deletions : List Pod → History → History
deletions [] log = log
deletions (pod ∷ pods) log = deletions pods (delete_pod pod.namespace pod.name ∷ log)

delete_pods-eq :
    (env : Env) (x : Option Error) (pods : List Pod) (s : State)
    → (y : Option Error) × (delete_pods env x pods s
        ≡ returns y (record s { log = deletions pods s.log }))
unfolding delete_pods remove_pod
delete_pods-eq env x [] s = (x, refl)
delete_pods-eq env x (pod ∷ pods) s =
    delete_pods-eq env (env.delete_pod_answer s.log pod.namespace pod.name) pods
      (logged (delete_pod pod.namespace pod.name) s)

-- Either some are still terminating and nothing is deleted, or each of the Pods is, once.
abbrev pub Drains : List Pod → History → History → Type 0
Drains pods before after =
    (((group_pods pods).terminating ≢ []) × (after ≡ before))
    ⊎ (((group_pods pods).terminating ≡ [])
        × ((deleted : List Pod) × Perm pods deleted × (after ≡ deletions deleted before)))

rest_drain-Drains :
    (env : Env) (pods : List Pod) (g : PodGroups) (s : State)
    → Perm pods (all_of g)
    → (x : Option Error) × (log : History) × (rest_drain env g s
        ≡ returns (later default_requeue_duration, x) (record s { log = log }))
      × (((g.terminating ≢ []) × (log ≡ s.log))
          ⊎ ((g.terminating ≡ [])
              × ((deleted : List Pod) × Perm pods deleted × (log ≡ deletions deleted s.log))))
unfolding rest_drain
rest_drain-Drains env pods g s p = split g.terminating refl
  where
    Goal : Type 0
    Goal =
        (x : Option Error) × (log : History) × (rest_drain env g s
          ≡ returns (later default_requeue_duration, x) (record s { log = log }))
        × (((g.terminating ≢ []) × (log ≡ s.log))
            ⊎ ((g.terminating ≡ [])
                × ((deleted : List Pod) × Perm pods deleted × (log ≡ deletions deleted s.log))))

    split : (t : List Pod) → g.terminating ≡ t → Goal
    split (pod ∷ ps) e = (none, s.log, ground arith, inl (ground arith, refl))
    split [] e =
        let (y, q) = delete_pods-eq env none (g.ready ++ g.starting) s in
        (
          y,
          deletions (g.ready ++ g.starting) s.log,
          ground arith,
          inr (
            e,
            (
              g.ready ++ g.starting,
              subst (λ t. Perm pods (t ++ (g.ready ++ g.starting))) e p,
              refl,
            ),
          ),
        )

pub make_app_rest-Drains :
    (env : Env) (r : CliAppReconciler) (s : State) (pod : Pod) (pods : List Pod)
    → s.app.spec.target_phase ≡ rest
    → s.app.status.phase ≡ shutting_down
    → env.list_cached_answer s.log s.app.namespace s.app.name ≡ ok (pod ∷ pods)
    → (x : Option Error) × (log : History) × (make_app_rest env r s
        ≡ returns (later default_requeue_duration, x) (record s { log = log }))
      × Drains (pod ∷ pods) (list_cached s.app.namespace s.app.name ∷ s.log) log
unfolding make_app_rest rest_dispatch rest_with_pods fetch_cached_pods
make_app_rest-Drains env r s pod pods t p l =
    let listed = logged (list_cached s.app.namespace s.app.name) s in
    let (x, log, e, d) =
      rest_drain-Drains env (pod ∷ pods) (group_pods (pod ∷ pods)) listed
        (group_pods-perm (pod ∷ pods)) in
    (x, log, ground arith, d)
