-- ===== src/Controller/Fork.antt =====
-- controllers/cliapp_fork.go: a Pod made from a running workload. Finding the object and fetching
-- its Pod template are calls of Kubernetes clients; what is done with the answers is here.
pub mod Keeps
pub mod Fresh
pub mod Target
use Prim.Native.String.{len}
use Prim.Native.String
use cliapp.Base.{
  ℕ, suc, Bool, true, false, Option, none, some, List, [], ◌∷◌, map, String, ◌==◌, ◌||◌, ltb,
  length, if◌then◌else◌,
}
use cliapp.Api.{ForkObject}
use cliapp.Kube.{Container, Pod}
use cliapp.Controller.Error.{
  Error, external, cannot_fetch, quoted, no_object, unsupported_object, container_not_found,
  many_containers,
}
use cliapp.Controller.State.{
  Env, M, ◌>>=◌, pure, panic, returns, Answer, ok, err, find_objects, fetch_template, ObjectInfo,
  Template,
}
use cliapp.Controller.Calls.{logged}

-- What the switch on the kind and the group of the object decides.
pub data Support : Type 0 where
  supported wrong_group unsupported : Support

abbrev in_group : Bool → Support
in_group true = supported
in_group false = wrong_group

-- The groups "extensions", "apps", "batch" and "" (core).
unfoldable pub support : (kind group : String) → Support
support kind group =
    if kind == "Deployment"
    then in_group (group == "extensions" || group == "apps")
    else if kind == "StatefulSet"
    then in_group (group == "apps")
    else if kind == "Job"
    then in_group (group == "batch")
    else if kind == "CronJob"
    then in_group (group == "batch")
    else if kind == "DaemonSet"
    then in_group (group == "extensions" || group == "apps")
    else if kind == "ReplicaSet"
    then in_group (group == "extensions" || group == "apps")
    else if kind == "Pod"
    then in_group (group == "")
    else unsupported

abbrev described : ObjectInfo → String
described info = String.◌++◌ info.kind (String.◌++◌ "/" info.name)

-- The case of CronJob formats `err`, which is nil there, and not the error of the fetch.
abbrev fetch_failure : ObjectInfo → Error → Error
fetch_failure info e =
    cannot_fetch (described info) (if info.kind == "CronJob" then external "%!s(<nil>)" else e)

abbrev template_answer : ObjectInfo → Answer Template → Answer Template
template_answer info (ok t) = ok t
template_answer info (err e) = err (fetch_failure info e)

fetch_supported : Env → ObjectInfo → Support → M (Answer Template)
fetch_supported env info supported s =
    returns (template_answer info (env.fetch_template_answer s.log info))
      (logged (fetch_template info) s)
fetch_supported env info wrong_group s = panic "GroupVersionKind" s
fetch_supported env info unsupported s = returns (err (unsupported_object (described info))) s

-- The list that the resource builder found: none, one, or a panic on more.
fetch_found : Env → ForkObject → Answer (List ObjectInfo) → M (Answer Template)
unfolding fetch_supported
fetch_found env fork (err e) = pure (err (cannot_fetch (quoted fork.object) e))
fetch_found env fork (ok []) = pure (err (no_object fork.object))
fetch_found env fork (ok (info ∷ [])) = fetch_supported env info (support info.kind info.group)
fetch_found env fork (ok (info ∷ info' ∷ infos)) = panic "infos"

fetch_workload : Env → String → ForkObject → M (Answer Template)
unfolding fetch_found
fetch_workload env namespace fork s =
    fetch_found env fork (env.find_objects_answer s.log namespace fork.object)
      (logged (find_objects namespace fork.object) s)

abbrev without_probes : Container → Container
without_probes k = record k { startup_probe = none; liveness_probe = none; readiness_probe = none }

-- The new Pod: the template's spec without probes, and its labels only if `with_envs` is set.
unfoldable pub forked_pod : ForkObject → Template → Pod
forked_pod fork t = record {
  name = "";
  namespace = "";
  labels = if fork.with_envs then t.labels else [];
  annotations = [];
  owner_references = [];
  deletion_timestamp = none;
  spec = record { containers = map without_probes t.spec.containers; volumes = t.spec.volumes };
  status = record { phase = ""; conditions = [] };
}

unfoldable pub index_of_container : String → List Container → Option ℕ
index_of_container name [] = none
index_of_container name (k ∷ ks) =
    if k.name == name
    then some 0
    else elim (index_of_container name ks) [ none ↦ none | some i ↦ some (suc i) ]

abbrev pub names : List Container → List String
names = map λ k. k.name

-- A container name of more than one byte selects; else the Pod must not have several containers.
unfoldable pub choose_target : ForkObject → List Container → Answer ℕ
unfolding index_of_container
choose_target fork ks =
    if ltb 1 (len fork.container)
    then elim (index_of_container fork.container ks) [
      | some i ↦ ok i
      | none ↦ err (container_not_found fork.container fork.object)
    ]
    else if ltb 1 (length ks)
    then err (many_containers fork.object (names ks))
    else ok 0

abbrev targeted : Pod → Answer ℕ → Answer (Pod × ℕ)
targeted pod (ok i) = ok (pod, i)
targeted pod (err e) = err e

fork_template : ForkObject → Answer Template → Answer (Pod × ℕ)
unfolding choose_target forked_pod
fork_template fork (err e) = err e
fork_template fork (ok t) =
    let pod = forked_pod fork t in targeted pod (choose_target fork pod.spec.containers)

unfoldable pub fetch_fork_target_pod : Env → String → ForkObject → M (Answer (Pod × ℕ))
unfolding fetch_workload fork_template
fetch_fork_target_pod env namespace fork = do
  t ← fetch_workload env namespace fork
  pure (fork_template fork t)
