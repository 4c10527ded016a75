-- ===== src/Controller/Pods.antt =====
-- groupPods of controllers/cliapp_common.go. The descriptions that it also returns go to the log
-- only and are left out.
pub mod Partition
use cliapp.Base.{not, List, [], ◌∷◌, ◌++◌, is_none, if◌then◌else◌}
use cliapp.Kube.{Pod}
use cliapp.Utils.{is_pod_ready}

pub record PodGroups : Type 0 where
  pub terminating : List Pod
  pub ready : List Pod
  pub starting : List Pod

-- One round of the loop.
put_pod : Pod → PodGroups → PodGroups
put_pod pod g =
    if not (is_none pod.deletion_timestamp)
    then record g { terminating = g.terminating ++ pod ∷ [] }
    else if is_pod_ready pod
    then record g { ready = g.ready ++ pod ∷ [] }
    else record g { starting = g.starting ++ pod ∷ [] }

group_pods_from : PodGroups → List Pod → PodGroups
unfolding put_pod
group_pods_from g [] = g
group_pods_from g (pod ∷ pods) = group_pods_from (put_pod pod g) pods

unfoldable pub group_pods : List Pod → PodGroups
unfolding group_pods_from
group_pods pods = group_pods_from (record { terminating = []; ready = []; starting = [] }) pods
