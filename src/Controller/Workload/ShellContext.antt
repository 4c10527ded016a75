-- ===== src/Controller/Workload/ShellContext.antt =====
-- installShellContext (controllers/cliapp_workload.go), on the volumes of the Pod and the mounts of
-- the target container.
use Prim.Native.String
use cliapp.Base.{
  List, [], ◌∷◌, ◌++◌, String, none, some, is_blank, if◌then◌else◌, lookup, contains_key,
}
use cliapp.Kube.{Volume, VolumeMount, csi, ConfigMap}

pub record Mounts : Type 0 where
  pub volumes : List Volume
  pub volume_mounts : List VolumeMount

abbrev csi_config_map_driver_name : String
csi_config_map_driver_name = "csi-cm.warm-metal.tech"

abbrev text_at : String → ConfigMap → String
text_at key cm = elim (lookup key cm) [ none ↦ "" | some s ↦ s ]

abbrev pub add_volume : Volume → String → Mounts → Mounts
add_volume v path m = record {
  volumes = m.volumes ++ v ∷ [];
  volume_mounts = m.volume_mounts ++ record { name = v.name; mount_path = path } ∷ [];
}

abbrev rc_volume : String → Volume
rc_volume rc = record {
  name = "shell-rc";
  source = csi csi_config_map_driver_name (
      ("configMap", "cliapp-shell-context")
      ∷ ("namespace", "cliapp-system")
      ∷ ("subPath", rc)
      ∷ ("keepCurrentAlways", "true")
      ∷ []);
}

abbrev history_volume : String → Volume
history_volume history = record {
  name = "shell-history";
  source = csi csi_config_map_driver_name (
      ("configMap", "cliapp-shell-context")
      ∷ ("namespace", "cliapp-system")
      ∷ ("subPath", history)
      ∷ ("commitChangesOn", "unmount")
      ∷ ("conflictPolicy", "override")
      ∷ ("oversizePolicy", "truncateHeadLine")
      ∷ []);
}

install_rc : ConfigMap → String → Mounts → Mounts
install_rc cm rc m =
    if is_blank (text_at rc cm) then m else add_volume (rc_volume rc) (String.◌++◌ "/root/" rc) m

install_history : ConfigMap → String → Mounts → Mounts
install_history cm history m =
    if contains_key history cm
    then add_volume (history_volume history) (String.◌++◌ "/root/" history) m
    else m

unfoldable pub install_shell_context : ConfigMap → (rc history : String) → Mounts → Mounts
unfolding install_rc install_history
install_shell_context cm rc history m = install_history cm history (install_rc cm rc m)
