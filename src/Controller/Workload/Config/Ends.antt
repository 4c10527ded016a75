-- ===== src/Controller/Workload/Config/Ends.antt =====
-- When applyAppConfig (controllers/cliapp_workload.go) does not panic.
use cliapp.Base.{ℕ, ◌≡◌, refl, ◌≢◌, ◌⊎◌, Option, none, some, List, arith, get_elem?}
use cliapp.Api.{CliAppSpec, Shell, bash, zsh}
use cliapp.Kube.{EnvVar, Container, Pod, ConfigMap}
use cliapp.Controller.State.{
  Env, State, returns, Ends, Ends-bind_pure, Answer, ok, err, CliAppReconciler, image_status,
}
use cliapp.Controller.Calls.{logged}
use cliapp.Controller.Workload.HostPath.{HostMounts, host_mounts}
use cliapp.Controller.Workload.EnvList.{env_list}
use cliapp.Controller.Workload.ShellContext.{Mounts}
use cliapp.Controller.Workload.ImagePaths.{ImagePaths, fetch_image_configuration}
use cliapp.Controller.Workload.Config.{
  Context, choose_context, own_pod, mount_shell_context, mount_image, put_container,
  configure_container, configure_target, configure_pod, apply_parsed, apply_app_config,
}

abbrev pub IsKnownShell : Shell → Type 0
IsKnownShell sh = (sh ≡ bash) ⊎ (sh ≡ zsh)

mount_shell_context-Ends :
    (cm : Option ConfigMap) (sh : Shell) (m : Mounts) (s : State)
    → IsKnownShell sh
    → Ends (mount_shell_context cm sh m s)
unfolding mount_shell_context
mount_shell_context-Ends cm sh m s h = ground arith

module _ (c : Context) (h : HostMounts) (envs : List EnvVar) (cm : Option ConfigMap) (pod : Pod)
    (i : ℕ) (known : IsKnownShell c.shell) where
  configure_target-Ends :
      (k : Container) (a : Answer ImagePaths) (s : State)
      → Ends (configure_target c h envs cm pod i k a s)
  unfolding configure_target
  configure_target-Ends k (err e) s = tt
  configure_target-Ends k (ok p) s =
      Ends-bind_pure
        (mount_shell_context cm c.shell (
          mount_image h k.image
            (record { volumes = pod.spec.volumes; volume_mounts = k.volume_mounts })))
        (λ m. ok (put_container pod i (configure_container c p envs k) m)) s
        (mount_shell_context-Ends cm c.shell _ s known)

  configure_pod-Ends :
      (env : Env) (k : Option Container) (s : State)
      → k ≢ none
      → Ends (configure_pod env c h envs cm pod i k s)
  unfolding configure_pod fetch_image_configuration
  configure_pod-Ends env none s ne = absurd (ne refl)
  configure_pod-Ends env (some k) s ne = configure_target-Ends k _ (logged (image_status k.image) s)

choose_context-IsKnownShell :
    (r : CliAppReconciler) (spec : CliAppSpec)
    → IsKnownShell r.default_shell
    → (spec.shell ≡ Shell.unset) ⊎ IsKnownShell spec.shell
    → IsKnownShell (choose_context r spec).shell
unfolding choose_context
choose_context-IsKnownShell r spec h k = ground arith

module _ (env : Env) (r : CliAppReconciler) (pod : Pod) (i : ℕ) (cm : Option ConfigMap) where
  -- The index of the target container is in range, and the shells of the app and of the reconciler
  -- are supported ones.
  pub apply_app_config-Ends :
      (s : State)
      → get_elem? pod.spec.containers i ≢ none
      → IsKnownShell r.default_shell
      → (s.app.spec.shell ≡ Shell.unset) ⊎ IsKnownShell s.app.spec.shell
      → Ends (apply_app_config env r pod i cm s)
  unfolding apply_app_config apply_parsed own_pod
  apply_app_config-Ends s ne h k =
      mounted (host_mounts s.app.spec.host_path) (env_list s.app.spec.env)
    where
      parsed :
          (hm : HostMounts) (a : Answer (List EnvVar)) → Ends (apply_parsed env r pod i cm hm a s)
      parsed hm (err e) = tt
      parsed hm (ok envs) =
          configure_pod-Ends (choose_context r s.app.spec) hm envs cm
            (own_pod s.app (env.random s.log) pod) i (choose_context-IsKnownShell r s.app.spec h k)
            env (get_elem? pod.spec.containers i) s ne

      mounted :
          (a : Answer HostMounts) (b : Answer (List EnvVar))
          → Ends (elim a [ err e ↦ returns (err e) s | ok hm ↦ apply_parsed env r pod i cm hm b s ])
      mounted (err e) b = tt
      mounted (ok hm) b = parsed hm b
