-- ===== src/Examples/Controller.antt =====
-- Runs of controllers/.
use mathlib.Core.List.{Memᴰ}
use cliapp.Base.{
  [], ◌∷◌, refl, String, ◌≡◌, ◌≢◌, ◌⊎◌, ◌↔◌, none, some, false, arith, All, Distinct, lookup, map,
  eq_iff, ap,
}
use cliapp.Api.{live, rest, recovering, ForkObject}
use cliapp.Kube.{Pod, Container}
use cliapp.Controller.State.{after, ok}
use cliapp.Controller.Phases.{Moves}
use cliapp.Controller.Validate.{validate_app, IsAcceptable, validate_app_iff}
use cliapp.Controller.Claim.{claimed, to_recycle}
use cliapp.Controller.Claim.Recycling.{claimed-eq-first, to_recycle-total}
use cliapp.Controller.Claim.Kept.{claimed_kept, claimed_recycled}
use cliapp.Controller.Workload.EnvList.{env_list}
use cliapp.Controller.Workload.EnvList.Laws.{IsEnvOf, env_list_iff}
use cliapp.Controller.Workload.HostPath.{
  HostMounts, host_mounts, host_mounts_from, parse_host_path, Binding, volume_of, mount_of,
}
use cliapp.Controller.Workload.HostPath.Laws.{AreMountsOf, host_mounts-AreMountsOf}
use cliapp.Base.Text.{split, trim_space, is_abs}
use cliapp.Base.Text.Decimal.{itoa}
use cliapp.Controller.Fork.{choose_target}
use cliapp.Controller.Fork.Target.{IsTargetOf, choose_target-IsTargetOf}
use cliapp.Controller.Reconcile.{reconcile_app}
use cliapp.Controller.Reconcile.Edges.{reconcile_app-Moves}
use cliapp.Examples.Cluster.{cluster, cluster-Echoes, ready_pod, ctr, manager, pass_over}

abbrev extra_pod : Pod
extra_pod = record ready_pod { name = "ctr-fghij" }

reconcile_app-Moves_example :
    Moves live recovering
      (after (
        reconcile_app
          (cluster (ready_pod ∷ []))
          manager
          (pass_over (ctr recovering live)))).app.status.phase
reconcile_app-Moves_example =
    reconcile_app-Moves (cluster-Echoes (ready_pod ∷ [])) manager (pass_over (ctr recovering live))

to_recycle-total_example :
    (claimed "d1" "h1" (ready_pod ∷ extra_pod ∷ []) ≡ some extra_pod)
    ⊎ Memᴰ extra_pod (to_recycle "d1" "h1" (ready_pod ∷ extra_pod ∷ []))
to_recycle-total_example =
    to_recycle-total "d1" "h1" extra_pod (ready_pod ∷ extra_pod ∷ []) (Memᴰ.tail (Memᴰ.head refl))
      refl

two_names : ready_pod.name ≢ extra_pod.name
two_names = ground (arith, eq_iff "ctr-abcde" "ctr-fghij")

claimed_kept_example :
    All (λ pod. ready_pod ≢ pod) (to_recycle "d1" "h1" (ready_pod ∷ extra_pod ∷ []))
unfolding lookup
claimed_kept_example =
    let other : ready_pod ≢ extra_pod = (λ e. absurd (two_names (ap (λ p. p.name) e))) in
    claimed_kept "d1" "h1" ready_pod (ready_pod ∷ extra_pod ∷ []) ((other, tt), (tt, tt))
      (claimed-eq-first "d1" "h1" (ready_pod ∷ extra_pod ∷ [])) refl

claimed_recycled_example : Memᴰ ready_pod (to_recycle "d1" "h2" (ready_pod ∷ []))
unfolding lookup
claimed_recycled_example =
    claimed_recycled "d1" "h2" ready_pod (ready_pod ∷ [])
      (claimed-eq-first "d1" "h2" (ready_pod ∷ [])) refl

validate_app_iff_example : (validate_app (ctr rest live) ≡ none) ↔ IsAcceptable (ctr rest live)
validate_app_iff_example = validate_app_iff (ctr rest live)

env_list_iff_example :
    (env_list ("A=b" ∷ []) ≡ ok (record { name = "A"; value = "b" } ∷ []))
    ↔ IsEnvOf ("A=b" ∷ []) (record { name = "A"; value = "b" } ∷ [])
env_list_iff_example = env_list_iff ("A=b" ∷ []) (record { name = "A"; value = "b" } ∷ [])

abbrev data_binding : Binding
data_binding = record { hostpath = "/data"; mountpoint = "/mnt" }

abbrev data_mounts : HostMounts
data_mounts = record {
  volumes = volume_of 0 data_binding ∷ [];
  mounts = mount_of 0 data_binding ∷ [];
}

host_mounts-AreMountsOf_example :
    AreMountsOf 0 ("/data:/mnt" ∷ []) data_mounts.volumes data_mounts.mounts
    × Distinct (map (λ v. v.name) data_mounts.volumes)
unfolding host_mounts host_mounts_from parse_host_path split trim_space is_abs itoa
host_mounts-AreMountsOf_example = host_mounts-AreMountsOf ("/data:/mnt" ∷ []) data_mounts refl

abbrev fork : ForkObject
fork = record { object = "deploy/web"; container = "web"; with_envs = false }

abbrev container_of : String → Container
container_of name = record {
  name = name;
  image = "i";
  env = [];
  working_dir = "";
  stdin = false;
  volume_mounts = [];
  security_context = none;
  startup_probe = none;
  liveness_probe = none;
  readiness_probe = none;
}

choose_target-IsTargetOf_example :
    IsTargetOf fork
      (container_of "proxy" ∷ container_of "web" ∷ [])
      (choose_target fork (container_of "proxy" ∷ container_of "web" ∷ []))
choose_target-IsTargetOf_example =
    choose_target-IsTargetOf fork (container_of "proxy" ∷ container_of "web" ∷ [])
