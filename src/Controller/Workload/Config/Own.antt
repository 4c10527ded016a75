-- ===== src/Controller/Workload/Config/Own.antt =====
-- The Pods that applyAppConfig (controllers/cliapp_workload.go) makes the app's own.
use cliapp.Base.{
  ℕ, ◌≡◌, refl, Option, none, some, List, String, lookup, lookup-insert, eq_iff, get_elem?, arith,
}
use cliapp.Api.{CliApp}
use cliapp.Kube.{EnvVar, Container, Pod, ConfigMap}
use cliapp.Controller.State.{Env, State, returns, Answer, ok, err, CliAppReconciler}
use cliapp.Controller.Keeps.{Yields, IfOk, Yields-bind}
use cliapp.Controller.Workload.HostPath.{HostMounts, host_mounts}
use cliapp.Controller.Workload.EnvList.{env_list}
use cliapp.Controller.Workload.ImagePaths.{ImagePaths, fetch_image_configuration}
use cliapp.Controller.Workload.Config.{
  Context, choose_context, mount_shell_context, configure_target, configure_pod, apply_parsed,
  apply_app_config, app_label, own_pod,
}

-- A Pod of the app, which nobody deletes.
pub record IsOwn (app : CliApp) (pod : Pod) : Type 0 where
  pub named : lookup app_label pod.labels ≡ some app.name
  pub placed : pod.namespace ≡ app.namespace
  pub kept : pod.deletion_timestamp ≡ none

module _ (app : CliApp) where
  own_pod-IsOwn :
      (suffix : String) (pod : Pod)
      → pod.deletion_timestamp ≡ none
      → IsOwn app (own_pod app suffix pod)
  unfolding own_pod
  own_pod-IsOwn suffix pod k = record {
    named =
        ground (
          arith,
          lookup-insert app_label app_label app.name pod.labels,
          eq_iff app_label app_label,
        );
    placed = refl;
    kept = k;
  }

  module _ (c : Context) (h : HostMounts) (envs : List EnvVar) (cm : Option ConfigMap) (pod : Pod)
      (i : ℕ) (o : IsOwn app pod) where
    configure_target-IsOwn :
        (k : Container) (a : Answer ImagePaths) (s : State)
        → Yields (IfOk (IsOwn app)) (configure_target c h envs cm pod i k a s)
    unfolding configure_target
    configure_target-IsOwn k (err e) s = tt
    configure_target-IsOwn k (ok p) s =
        Yields-bind (IfOk (IsOwn app)) (mount_shell_context cm c.shell _) _ s
          (λ m t. record { named = o.named; placed = o.placed; kept = o.kept })

    configure_pod-IsOwn :
        (env : Env) (k : Option Container) (s : State)
        → Yields (IfOk (IsOwn app)) (configure_pod env c h envs cm pod i k s)
    unfolding configure_pod
    configure_pod-IsOwn env none s = tt
    configure_pod-IsOwn env (some k) s =
        Yields-bind (IfOk (IsOwn app)) (fetch_image_configuration env k.image)
          (configure_target c h envs cm pod i k) s (configure_target-IsOwn k)

pub apply_app_config-IsOwn :
    (env : Env) (r : CliAppReconciler) (pod : Pod) (i : ℕ) (cm : Option ConfigMap) (s : State)
    → pod.deletion_timestamp ≡ none
    → Yields (IfOk (IsOwn s.app)) (apply_app_config env r pod i cm s)
unfolding apply_app_config apply_parsed
apply_app_config-IsOwn env r pod i cm s k = parsed (host_mounts s.app.spec.host_path)
  where
    listed :
        (h : HostMounts) (a : Answer (List EnvVar))
        → Yields (IfOk (IsOwn s.app)) (apply_parsed env r pod i cm h a s)
    listed h (err e) = tt
    listed h (ok envs) =
        let owned = own_pod s.app (env.random s.log) pod in
        configure_pod-IsOwn s.app (choose_context r s.app.spec) h envs cm owned i
          (own_pod-IsOwn s.app (env.random s.log) pod k) env (get_elem? owned.spec.containers i) s

    parsed :
        (a : Answer HostMounts)
        → Yields (IfOk (IsOwn s.app)) (elim a [
          | err e ↦ returns (err e) s
          | ok h ↦ apply_parsed env r pod i cm h (env_list s.app.spec.env) s
        ])
    parsed (err e) = tt
    parsed (ok h) = listed h (env_list s.app.spec.env)
