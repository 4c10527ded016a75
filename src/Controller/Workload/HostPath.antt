-- ===== src/Controller/Workload/HostPath.antt =====
-- The first loop of applyAppConfig (controllers/cliapp_workload.go): host paths to volumes.
pub mod Laws
use Prim.Native.String
use cliapp.Base.{ℕ, suc, not, List, [], ◌∷◌, ◌++◌, String, if◌then◌else◌}
use cliapp.Base.Text.{split, trim_space, is_abs}
use cliapp.Base.Text.Decimal.{itoa}
use cliapp.Kube.{Volume, VolumeMount, host_path}
use cliapp.Controller.Error.{invalid_hostpath, empty_hostpath, relative_mountpoint}
use cliapp.Controller.State.{Answer, ok, err}

-- A host path and where it is mounted.
pub record Binding : Type 0 where
  pub hostpath : String
  pub mountpoint : String

-- `strings.Split` gives no empty list, so the first clause is not reached; parts behind the second
-- are ignored.
parse_mount_pair : List String → Answer Binding
parse_mount_pair [] = err invalid_hostpath
parse_mount_pair (first ∷ []) =
    let path = trim_space first in
    if not (is_abs path)
    then err empty_hostpath
    else ok (record { hostpath = path; mountpoint = path })
parse_mount_pair (first ∷ second ∷ _) =
    let path = trim_space first in
    let target = trim_space second in
    if not (is_abs path)
    then err empty_hostpath
    else if not (is_abs target)
    then err relative_mountpoint
    else ok (record { hostpath = path; mountpoint = target })

unfoldable pub parse_host_path : String → Answer Binding
unfolding parse_mount_pair
parse_host_path path = parse_mount_pair (split b':' (trim_space path))

abbrev pub volume_name : ℕ → String
volume_name i = String.◌++◌ "hostpath-" (itoa i)

abbrev pub volume_of : ℕ → Binding → Volume
volume_of i b = record { name = volume_name i; source = host_path b.hostpath }

abbrev pub mount_of : ℕ → Binding → VolumeMount
mount_of i b = record { name = volume_name i; mount_path = b.mountpoint }

pub record HostMounts : Type 0 where
  pub volumes : List Volume
  pub mounts : List VolumeMount

abbrev pub add_mount : ℕ → Binding → HostMounts → HostMounts
add_mount i b h = record {
  volumes = h.volumes ++ volume_of i b ∷ [];
  mounts = h.mounts ++ mount_of i b ∷ [];
}

-- The loop, from index `i` on; the first bad path ends it.
unfoldable pub host_mounts_from : ℕ → HostMounts → List String → Answer HostMounts
host_mounts_from i h [] = ok h
host_mounts_from i h (path ∷ paths) = elim (parse_host_path path) [
  | ok b ↦ host_mounts_from (suc i) (add_mount i b h) paths
  | err e ↦ err e
]

unfoldable pub host_mounts : List String → Answer HostMounts
unfolding host_mounts_from
host_mounts paths = host_mounts_from 0 (record { volumes = []; mounts = [] }) paths
