-- ===== src/Controller/Workload/Config/Keeps.antt =====
-- applyAppConfig (controllers/cliapp_workload.go) does not change the app.
use cliapp.Base.{ℕ, refl, Option, none, some, List, get_elem?}
use cliapp.Api.{Shell, bash, zsh}
use cliapp.Kube.{EnvVar, Container, Pod, ConfigMap}
use cliapp.Controller.State.{Env, after, Answer, ok, err, returns, CliAppReconciler}
use cliapp.Controller.Keeps.{Reads, Keeps-bind, KeepsTo, IsReading, same, more}
use cliapp.Controller.Workload.HostPath.{HostMounts, host_mounts}
use cliapp.Controller.Workload.EnvList.{env_list}
use cliapp.Controller.Workload.ShellContext.{Mounts}
use cliapp.Controller.Workload.ImagePaths.{ImagePaths, fetch_image_configuration}
use cliapp.Controller.Workload.Config.{
  Context, choose_context, own_pod, mount_shell_context, configure_target, configure_pod,
  apply_parsed, apply_app_config,
}

mount_shell_context-Reads :
    (cm : Option ConfigMap) (sh : Shell) (m : Mounts) → Reads (mount_shell_context cm sh m)
unfolding mount_shell_context
mount_shell_context-Reads none sh m s = (refl, same)
mount_shell_context-Reads (some cm) zsh m s = (refl, same)
mount_shell_context-Reads (some cm) bash m s = (refl, same)
mount_shell_context-Reads (some cm) _ m s = (refl, same)

module _ (c : Context) (h : HostMounts) (envs : List EnvVar) (cm : Option ConfigMap) (pod : Pod)
    (i : ℕ) where
  configure_target-Reads :
      (k : Container) (a : Answer ImagePaths) → Reads (configure_target c h envs cm pod i k a)
  unfolding configure_target
  configure_target-Reads k (err e) s = (refl, same)
  configure_target-Reads k (ok p) s =
      Keeps-bind (mount_shell_context cm c.shell _) _ (mount_shell_context-Reads cm c.shell _)
        (λ m t. (refl, same)) s

  configure_pod-Reads :
      (env : Env) (k : Option Container) → Reads (configure_pod env c h envs cm pod i k)
  unfolding configure_pod fetch_image_configuration
  configure_pod-Reads env none s = (refl, same)
  configure_pod-Reads env (some k) s =
      Keeps-bind (fetch_image_configuration env k.image) (configure_target c h envs cm pod i k)
        (λ t. (refl, more tt same)) (configure_target-Reads k) s

module _ (env : Env) (r : CliAppReconciler) (pod : Pod) (i : ℕ) (cm : Option ConfigMap) where
  apply_parsed-Reads :
      (h : HostMounts) (a : Answer (List EnvVar)) → Reads (apply_parsed env r pod i cm h a)
  unfolding apply_parsed
  apply_parsed-Reads h (err e) s = (refl, same)
  apply_parsed-Reads h (ok envs) s =
      let owned = own_pod s.app (env.random s.log) pod in
      configure_pod-Reads (choose_context r s.app.spec) h envs cm owned i env
        (get_elem? owned.spec.containers i) s

  pub apply_app_config-Reads : Reads (apply_app_config env r pod i cm)
  unfolding apply_app_config
  apply_app_config-Reads s = parsed (host_mounts s.app.spec.host_path)
    where
      parsed :
          (a : Answer HostMounts)
          → KeepsTo IsReading s (
              after (elim a [
                | err e ↦ returns (err e) s
                | ok h ↦ apply_parsed env r pod i cm h (env_list s.app.spec.env) s
              ]))
      parsed (err e) = (refl, same)
      parsed (ok h) = apply_parsed-Reads h (env_list s.app.spec.env) s
