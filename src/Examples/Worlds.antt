-- ===== src/Examples/Worlds.antt =====
-- A cluster whose Pods come and go with the passes.
use cliapp.Base.{lookup, ◌≡◌, refl, none, List, [], ◌∷◌, keep, is_none, length, arith}
use cliapp.Api.{rest, shutting_down}
use cliapp.Kube.{Pod}
use cliapp.Controller.State.{Env, ok}
use cliapp.Controller.Env.{Echoes}
use cliapp.Controller.Cluster.{
  pods_of, pods_after, ShowsPods, World, passed, passes, loses, here, next, IsClean,
}
use cliapp.Controller.Pods.{group_pods}
use cliapp.Utils.{is_pod_ready}
use cliapp.Controller.Passes.{passes as passes_of}
use cliapp.Controller.Cluster.Rests.{drained-rest}
use cliapp.Controller.Cluster.Clean.{Reach-IsClean}
use cliapp.Controller.Cluster.Stale.{stale_cache-rest}
use cliapp.Controller.Passes.Settles.{IsResting}
use cliapp.Examples.Cluster.{ctr-IsAcceptable, cluster, cluster-Echoes, ready_pod, ctr, manager}

-- The services of `cluster`, which answer the Pods that are there.
abbrev serving : List Pod → Env
serving pods = record (cluster []) {
  list_cached_answer =
      λ h namespace name. ok (pods_of namespace name (pods_after (cluster []) pods h));
}

serving-ShowsPods : (pods : List Pod) → ShowsPods (serving pods) pods
unfolding pods_after
serving-ShowsPods pods namespace name e = ground arith

serving-Echoes : (pods : List Pod) → Echoes (serving pods)
serving-Echoes pods = record { status = λ h a b e. ground arith; app = λ h a b e. ground arith }

-- The app shuts down, and its Pod still runs.
abbrev draining : World
draining = record {
  stored = record { app = ctr shutting_down rest; app_map = none };
  pods = record ready_pod { labels = ("cliapp.warm-metal.tech", "ctr") ∷ [] } ∷ [];
}

abbrev drained : World
drained = passed (serving draining.pods) manager draining

-- The Pods that were deleted end.
abbrev ended : World
ended = record drained { pods = keep (λ pod. is_none pod.deletion_timestamp) drained.pods }

abbrev settled : World
settled = passed (serving ended.pods) manager ended

Reach-IsClean_example : IsClean settled
Reach-IsClean_example =
    Reach-IsClean {r = manager} {w = draining}
      (next
        (passes (serving draining.pods) (serving-Echoes draining.pods)
          (serving-ShowsPods draining.pods))
        (next (loses (λ pod. is_none pod.deletion_timestamp)) (
          next
            (passes (serving ended.pods) (serving-Echoes ended.pods) (serving-ShowsPods ended.pods))
            here)))
      (λ e. ground arith)

draining-IsResting : IsResting (ctr shutting_down rest)
draining-IsResting = record {
  target = refl;
  installed = refl;
  known = λ text. grind arith;
  valid = ctr-IsAcceptable;
}

drained-rest_example :
    (passes_of
      (serving draining.pods ∷ serving ended.pods ∷ [])
      manager
      draining.stored).app.status.phase
    ≡ rest
unfolding pods_after lookup group_pods is_pod_ready
drained-rest_example =
    drained-rest (serving draining.pods) (serving ended.pods) manager draining
      (serving-Echoes draining.pods) (serving-Echoes ended.pods) draining-IsResting refl
      (refl, refl) (λ h ns n. refl) (λ ns n. refl) (λ h a. refl)

-- The cache has no Pods yet.
stale_cache-rest_example :
    ((passed (cluster []) manager draining).stored.app.status.phase ≡ rest)
    × (length (pods_of "app" "ctr" (passed (cluster []) manager draining).pods)
        ≡ length (pods_of "app" "ctr" draining.pods))
stale_cache-rest_example =
    stale_cache-rest (cluster []) manager draining (cluster-Echoes []) draining-IsResting refl refl
      λ h a. refl
