-- ===== src/Controller/Start/Pods.antt =====
-- The Pods that startApp (controllers/cliapp_workload.go) creates.
use cliapp.Base.{ℕ, ◌≡◌, refl, subst, Option, none, some, String, arith}
use cliapp.Api.{CliApp, ForkObject}
use cliapp.Kube.{Pod, ConfigMap}
use cliapp.Controller.State.{Env, State, after, Call, create_pod, Answer, ok, err, CliAppReconciler}
use cliapp.Controller.Keeps.{Onto, Onto-bind, Onto-trans, same, more, IsReading, Yields, IfOk}
use cliapp.Controller.Calls.{add_pod}
use cliapp.Controller.Fork.Fresh.{IsUndeleted, fetch_fork_target_pod-IsUndeleted}
use cliapp.Controller.Workload.Config.{apply_app_config}
use cliapp.Controller.Workload.Config.Keeps.{apply_app_config-Reads}
use cliapp.Controller.Workload.Config.Own.{IsOwn, apply_app_config-IsOwn}
use cliapp.Controller.Start.{
  base_pod, configure_and_create, fetch_shell_context, create_configured, start_from, start_app,
  annotate, convert_to_manifest, present,
}
use cliapp.Controller.Start.Keeps.{base_pod-Reads}

base_pod-IsUndeleted :
    (env : Env) (fork : Option ForkObject) (s : State) → Yields IsUndeleted (base_pod env fork s)
unfolding base_pod convert_to_manifest
base_pod-IsUndeleted env none s = refl
base_pod-IsUndeleted env (some fork) s =
    fetch_fork_target_pod-IsUndeleted env s.app.namespace fork s

-- The app's own Pod with the annotations for its spec.
pub record IsMadeFor (app : CliApp) (dump hash : String) (pod : Pod) : Type 0 where
  pub unmarked : Pod
  pub own : IsOwn app unmarked
  pub marked : pod ≡ annotate dump hash unmarked

-- A call that creates a Pod creates one with the property.
abbrev pub Creates : (Pod → Type 0) → Call → Type 0
Creates P (create_pod pod) = P pod
Creates P call = Unit

reading-Creates : (P : Pod → Type 0) (call : Call) → IsReading call → Creates P call
reading-Creates P call q = ground arith

pub Creates-mono :
    (P Q : Pod → Type 0)
    → ((pod : Pod) → P pod → Q pod)
    → (call : Call) → Creates P call
    → Creates Q call
Creates-mono P Q k (create_pod pod) m = k pod m
Creates-mono P Q k call m = tt

module _ (env : Env) (dump hash : String) where
  create_configured-IsMadeFor :
      (app : CliApp) (a : Answer Pod) (s : State)
      → IfOk (IsOwn app) a
      → Onto
          (Creates (IsMadeFor app dump hash))
          s.log
          (after (create_configured env dump hash a s)).log
  unfolding create_configured add_pod
  create_configured-IsMadeFor app (err e) s o = same
  create_configured-IsMadeFor app (ok pod) s o =
      more (record { unmarked = pod; own = o; marked = refl }) same

  configure_and_create-IsMadeFor :
      (r : CliAppReconciler) (pod : Pod) (i : ℕ) (cm : Option ConfigMap) (s : State)
      → pod.deletion_timestamp ≡ none
      → Onto
          (Creates (IsMadeFor s.app dump hash))
          s.log
          (after (configure_and_create env r dump hash pod i cm s)).log
  unfolding configure_and_create
  configure_and_create-IsMadeFor r pod i cm s k =
      Onto-bind (IfOk (IsOwn s.app)) (apply_app_config env r pod i cm)
        (create_configured env dump hash) s (reading-Creates (IsMadeFor s.app dump hash))
        (apply_app_config-IsOwn env r pod i cm s k) (apply_app_config-Reads env r pod i cm s)
        (λ a t o e. create_configured-IsMadeFor s.app a t o)

  start_from-IsMadeFor :
      (r : CliAppReconciler) (a : Answer (Pod × ℕ)) (s : State)
      → IsUndeleted a
      → Onto
          (Creates (IsMadeFor s.app dump hash))
          s.log
          (after (start_from env r dump hash a s)).log
  unfolding start_from fetch_shell_context
  start_from-IsMadeFor r (err e) s k = same
  start_from-IsMadeFor r (ok (pod, i)) s k =
      Onto-trans (more tt same)
        (configure_and_create-IsMadeFor r pod i (present (env.get_config_map_answer s.log)) _ k)

  pub start_app-IsMadeFor :
      (r : CliAppReconciler) (s : State)
      → Onto (Creates (IsMadeFor s.app dump hash)) s.log (after (start_app env r dump hash s)).log
  unfolding start_app
  start_app-IsMadeFor r s =
      Onto-bind IsUndeleted (base_pod env s.app.spec.fork) (start_from env r dump hash) s
        (reading-Creates (IsMadeFor s.app dump hash)) (base_pod-IsUndeleted env s.app.spec.fork s)
        (base_pod-Reads env s.app.spec.fork s)
        (λ a t k e.
          subst
            (λ app.
              Onto (Creates (IsMadeFor app dump hash)) t.log
                (after (start_from env r dump hash a t)).log)
            e (start_from-IsMadeFor r a t k))
