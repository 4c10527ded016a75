-- ===== src/Controller/Workload/Config.antt =====
-- applyAppConfig (controllers/cliapp_workload.go) behind its two loops.
pub mod Keeps
pub mod Own
pub mod Ends
use Prim.Native.String
use cliapp.Base.{
  ℕ, true, ◌&&◌, not, Option, none, some, List, [], ◌∷◌, ◌++◌, String, is_blank, get_elem?, set,
  if◌then◌else◌, insert,
}
use cliapp.Base.Text.{to_lower, join_rooted}
use cliapp.Api.{Distro, Shell, bash, zsh, distro_text, shell_text, CliApp, CliAppSpec}
use cliapp.Kube.{EnvVar, Volume, csi, SecurityContext, Container, OwnerReference, Pod, ConfigMap}
use cliapp.Controller.State.{Env, M, ◌>>=◌, pure, panic, returns, Answer, ok, err, CliAppReconciler}
use cliapp.Controller.Workload.HostPath.{HostMounts, host_mounts}
use cliapp.Controller.Workload.EnvList.{env_list}
use cliapp.Controller.Workload.ShellContext.{Mounts, add_volume, install_shell_context}
use cliapp.Controller.Workload.ImagePaths.{
  ImagePaths, fetch_image_configuration, app_root, container_path,
}

abbrev pub app_label : String
app_label = "cliapp.warm-metal.tech"

abbrev pub app_container : String
app_container = "workspace"

-- The shell, the distro and the image of the app's context.
pub record Context : Type 0 where
  pub shell : Shell
  pub distro : Distro
  pub image : String

abbrev shell_or : Shell → Shell → Shell
shell_or d Shell.unset = d
shell_or d s = s

abbrev distro_or : Distro → Distro → Distro
distro_or d Distro.unset = d
distro_or d s = s

abbrev context_image : Shell → Distro → String
context_image sh distro = String.◌++◌ "docker.io/warmmetal/app-context-" (
    String.◌++◌ (to_lower (shell_text sh))
      (String.◌++◌ "-" (String.◌++◌ (to_lower (distro_text distro)) ":latest")))

-- A configured context image rules out the app's own choices.
unfoldable pub choose_context : CliAppReconciler → CliAppSpec → Context
choose_context r spec =
    let sh = shell_or r.default_shell spec.shell in
    let distro = distro_or r.default_distro spec.distro in
    if is_blank r.default_app_context_image
    then record { shell = sh; distro = distro; image = context_image sh distro }
    else record {
      shell = r.default_shell;
      distro = r.default_distro;
      image = r.default_app_context_image;
    }

abbrev owner_of : CliApp → OwnerReference
owner_of app = record {
  api_version = app.api_version;
  kind = app.kind;
  name = app.name;
  uid = app.uid;
  controller = true;
  block_owner_deletion = true;
}

-- The metadata: a fresh name, the app's namespace, the app as the owner, and the app's label.
unfoldable pub own_pod : CliApp → String → Pod → Pod
own_pod app suffix pod = record pod {
  name = String.◌++◌ app.name (String.◌++◌ "-" suffix);
  namespace = app.namespace;
  owner_references = owner_of app ∷ [];
  labels = insert app_label app.name pod.labels;
}

abbrev context_env : Context → List EnvVar
context_env c =
    record { name = "APP_ROOT"; value = app_root }
    ∷ record { name = "DISTRO"; value = distro_text c.distro }
    ∷ record { name = "SHELL"; value = shell_text c.shell }
    ∷ []

abbrev path_env : String → List EnvVar
path_env paths =
    if is_blank paths then [] else record { name = "PATH"; value = container_path paths } ∷ []

abbrev choose_workdir : String → String → String
choose_workdir own workdir =
    if is_blank own && not (is_blank workdir) then join_rooted app_root workdir else own

abbrev add_sys_admin : Option SecurityContext → Option SecurityContext
add_sys_admin none = some (record { capabilities = some (record { add = "SYS_ADMIN" ∷ [] }) })
add_sys_admin (some c) = elim c.capabilities [
  | none ↦ some (record { capabilities = some (record { add = "SYS_ADMIN" ∷ [] }) })
  | some caps ↦
      some (record { capabilities = some (record { add = caps.add ++ "SYS_ADMIN" ∷ [] }) })
]

-- Everything about the target container but its mounts.
unfoldable pub configure_container : Context → ImagePaths → List EnvVar → Container → Container
configure_container c p envs k = record k {
  name = app_container;
  image = c.image;
  env = ((k.env ++ context_env c) ++ path_env p.paths) ++ envs;
  working_dir = choose_workdir k.working_dir p.workdir;
  stdin = true;
  security_context = add_sys_admin k.security_context;
}

abbrev image_volume : String → Volume
image_volume image = record {
  name = "app";
  source = csi "csi-image.warm-metal.tech" (("image", image) ∷ []);
}

-- The host paths, then the volume of the app's image.
unfoldable pub mount_image : HostMounts → String → Mounts → Mounts
mount_image h image m =
    add_volume (image_volume image) app_root
      (record { volumes = m.volumes ++ h.volumes; volume_mounts = m.volume_mounts ++ h.mounts })

unfoldable pub mount_shell_context : Option ConfigMap → Shell → Mounts → M Mounts
mount_shell_context none sh m = pure m
mount_shell_context (some cm) zsh m = pure (install_shell_context cm ".zshrc" ".zsh_history" m)
mount_shell_context (some cm) bash m =
    pure (install_shell_context cm ".bash_profile" ".bash_history" m)
mount_shell_context (some cm) sh m = panic "sh"

abbrev put_container : Pod → ℕ → Container → Mounts → Pod
put_container pod i k m = record pod {
  spec = record {
    containers = set pod.spec.containers i (record k { volume_mounts = m.volume_mounts });
    volumes = m.volumes;
  };
}

-- The target container is there, and its image is known.
configure_target :
    Context
    → HostMounts
    → List EnvVar
    → Option ConfigMap
    → Pod
    → ℕ
    → Container
    → Answer ImagePaths
    → M (Answer Pod)
unfolding mount_shell_context
configure_target c h envs cm pod i k (err e) = pure (err e)
configure_target c h envs cm pod i k (ok p) = do
  m ← mount_shell_context cm c.shell (
      mount_image h k.image
        (record { volumes = pod.spec.volumes; volume_mounts = k.volume_mounts }))
  pure (ok (put_container pod i (configure_container c p envs k) m))

-- `&pod.Spec.Containers[targetContainerID]` panics out of range.
configure_pod :
    Env
    → Context
    → HostMounts
    → List EnvVar
    → Option ConfigMap
    → Pod
    → ℕ
    → Option Container
    → M (Answer Pod)
unfolding configure_target
configure_pod env c h envs cm pod i none = panic "index out of range"
configure_pod env c h envs cm pod i (some k) =
    fetch_image_configuration env k.image >>= configure_target c h envs cm pod i k

apply_parsed :
    Env
    → CliAppReconciler
    → Pod
    → ℕ
    → Option ConfigMap
    → HostMounts
    → Answer (List EnvVar)
    → M (Answer Pod)
unfolding configure_pod
apply_parsed env r pod i cm h (err e) s = returns (err e) s
apply_parsed env r pod i cm h (ok envs) s =
    let owned = own_pod s.app (env.random s.log) pod in
    configure_pod env (choose_context r s.app.spec) h envs cm owned i
      (get_elem? owned.spec.containers i) s

unfoldable pub apply_app_config :
    Env → CliAppReconciler → Pod → ℕ → Option ConfigMap → M (Answer Pod)
unfolding apply_parsed
apply_app_config env r pod i cm s = elim (host_mounts s.app.spec.host_path) [
  | err e ↦ returns (err e) s
  | ok h ↦ apply_parsed env r pod i cm h (env_list s.app.spec.env) s
]
