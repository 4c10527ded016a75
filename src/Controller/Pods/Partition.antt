-- ===== src/Controller/Pods/Partition.antt =====
-- groupPods (controllers/cliapp_common.go) splits the Pods into three parts.
use mathlib.Core.List.{append_assoc, append-nil, perm_middle}
use mathlib.Core.List.Perm
use cliapp.Base.{◌≡◌, Bool, not, ◌&&◌, List, [], ◌∷◌, ◌++◌, Perm, is_none, arith, keep}
use cliapp.Kube.{Pod}
use cliapp.Utils.{is_pod_ready}
use cliapp.Controller.Pods.{PodGroups, put_pod, group_pods_from, group_pods}

abbrev pub is_terminating : Pod → Bool
is_terminating pod = not (is_none pod.deletion_timestamp)

abbrev pub is_ready : Pod → Bool
is_ready pod = is_none pod.deletion_timestamp && is_pod_ready pod

abbrev pub is_starting : Pod → Bool
is_starting pod = is_none pod.deletion_timestamp && not (is_pod_ready pod)

abbrev pub grouped : PodGroups → List Pod → PodGroups
grouped g pods = record {
  terminating = g.terminating ++ keep is_terminating pods;
  ready = g.ready ++ keep is_ready pods;
  starting = g.starting ++ keep is_starting pods;
}

group_pods_from-eq-grouped :
    (g : PodGroups) (pods : List Pod) → group_pods_from g pods ≡ grouped g pods
unfolding group_pods_from
group_pods_from-eq-grouped g [] = simp append-nil
group_pods_from-eq-grouped g (pod ∷ pods) = ground (
  arith,
  group_pods_from-eq-grouped (put_pod pod g) pods,
  append_assoc g.terminating (pod ∷ []) (keep is_terminating pods),
  append_assoc g.ready (pod ∷ []) (keep is_ready pods),
  append_assoc g.starting (pod ∷ []) (keep is_starting pods),
)

abbrev pub all_of : PodGroups → List Pod
all_of g = g.terminating ++ (g.ready ++ g.starting)

-- groupPods returns, each in the order of the list: the Pods with a deletion timestamp, the ready
-- ones without, and the others without.
group_pods-eq-keep :
    (pods : List Pod)
    → group_pods pods ≡ record {
      terminating = keep is_terminating pods;
      ready = keep is_ready pods;
      starting = keep is_starting pods;
    }
unfolding group_pods
group_pods-eq-keep pods = group_pods_from-eq-grouped _ pods

abbrev parts : List Pod → List Pod
parts pods = keep is_terminating pods ++ (keep is_ready pods ++ keep is_starting pods)

parts-perm : (pods : List Pod) → Perm pods (parts pods)
parts-perm [] = Perm.refl _
parts-perm (pod ∷ pods) =
    let t = keep is_terminating pods in
    let r = keep is_ready pods in
    let w = keep is_starting pods in
    let first = Perm.cons pod (parts-perm pods) in
    let second = Perm.trans first (Perm.symm (perm_middle {a = pod} t (r ++ w))) in
    let third =
      Perm.trans second (Perm.append (Perm.refl t) (Perm.symm (perm_middle {a = pod} r w))) in
    ground (arith, first, second, third)

-- Every Pod of the list is in one of the three groups, as often as it is listed.
pub group_pods-perm : (pods : List Pod) → Perm pods (all_of (group_pods pods))
group_pods-perm pods = rw (group_pods-eq-keep pods) (parts-perm pods)
