-- ===== src/Controller/Cluster.antt =====
-- The Pods of a cluster as a state that passes (controllers/) change. The cluster is not part of the
-- repository: what a call does there is what the Kubernetes API documents.
pub mod Clean
pub mod Drained
pub mod Rests
pub mod Stale
use cliapp.Base.{
  ◌≡◌, ℕ, Bool, true, false, ◌&&◌, Option, none, some, List, [], ◌∷◌, map, String, ◌==◌, lookup,
  keep, if◌then◌else◌,
}
use cliapp.Api.{Phase, CliApp}
use cliapp.Kube.{Pod}
use cliapp.Controller.Error.{Error}
use cliapp.Controller.State.{
  Env, History, create_pod, delete_pod, Answer, ok, after, CliAppReconciler,
}
use cliapp.Controller.Env.{Echoes}
use cliapp.Controller.Workload.Config.{app_label}
use cliapp.Controller.Reconcile.{reconcile_app}
use cliapp.Controller.Passes.{Stored, begin, pass}

-- The label of an app
abbrev pub is_labelled : String → Option String → Bool
is_labelled name none = false
is_labelled name (some text) = text == name

-- What a list call with the app's label selects.
abbrev pub is_of : (namespace name : String) → Pod → Bool
is_of namespace name pod =
    pod.namespace == namespace && is_labelled name (lookup app_label pod.labels)

abbrev pub pods_of : (namespace name : String) → List Pod → List Pod
pods_of namespace name pods = keep (is_of namespace name) pods

-- A deletion marks the Pod, which goes on until it has ended.
abbrev pub marked : (now : ℕ) (namespace name : String) → Pod → Pod
marked now namespace name pod =
    if pod.namespace == namespace && pod.name == name
    then record pod { deletion_timestamp = some now }
    else pod

abbrev if_done : Option Error → List Pod → List Pod → List Pod
if_done none changed pods = changed
if_done (some e) changed pods = pods

-- The Pods behind the calls of a pass: a call that fails changes nothing.
unfoldable pub pods_after : Env → List Pod → History → List Pod
pods_after env pods [] = pods
pods_after env pods (create_pod pod ∷ h) =
    let before = pods_after env pods h in
    if_done (env.create_pod_answer h pod) (pod ∷ before) before
pods_after env pods (delete_pod namespace name ∷ h) =
    let before = pods_after env pods h in
    if_done (env.delete_pod_answer h namespace name)
      (map (marked (env.now h) namespace name) before) before
pods_after env pods (call ∷ h) = pods_after env pods h

-- At the start of a pass the cache of the manager's client shows none of an app's Pods only where there
-- are none; it may be behind in all else. Nothing guarantees that: it asks that the cache has heard of one
-- Pod of the app at least, and a cache can be behind by any time.
abbrev pub ShowsPods : Env → List Pod → Type 0
ShowsPods env pods =
    (namespace name : String)
    → env.list_cached_answer [] namespace name ≡ ok []
    → pods_of namespace name pods ≡ []

-- What lasts from pass to pass, with the Pods of the cluster.
pub record World : Type 0 where
  pub stored : Stored
  pub pods : List Pod

abbrev pub passed : Env → CliAppReconciler → World → World
passed env r w = record {
  stored = pass env r w.stored;
  pods = pods_after env w.pods (after (reconcile_app env r (begin w.stored))).log;
}

abbrev pub aimed : Phase → Stored → Stored
aimed target s = record s {
  app = record s.app { spec = record s.app.spec { target_phase = target } };
}

-- A pass; some Pods that end; a gate or a user that asks for another target.
pub data Step (r : CliAppReconciler) : World → World → Type 0 where
  passes : {w : World} (env : Env) → Echoes env → ShowsPods env w.pods → Step r w (passed env r w)
  loses : {w : World} (stays : Pod → Bool) → Step r w (record w { pods = keep stays w.pods })
  asks : {w : World} (target : Phase) → Step r w (record w { stored = aimed target w.stored })

pub data Reach (r : CliAppReconciler) : World → World → Type 0 where
  here : {w : World} → Reach r w w
  next : {w v u : World} → Step r w v → Reach r v u → Reach r w u

-- If the app is at Rest, none of its Pods is there.
abbrev pub IsClean : World → Type 0
IsClean w =
    w.stored.app.status.phase ≡ Phase.rest
    → pods_of w.stored.app.namespace w.stored.app.name w.pods ≡ []
