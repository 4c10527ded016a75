-- ===== src/Controller/Start/Keeps.antt =====
-- startApp (controllers/cliapp_workload.go) and the app.
use cliapp.Base.{ℕ, refl, Option, none, some, String}
use cliapp.Api.{ForkObject}
use cliapp.Kube.{Pod, ConfigMap}
use cliapp.Controller.State.{Env, Answer, ok, err, CliAppReconciler}
use cliapp.Controller.Keeps.{Keeps, Reads, Reads-Keeps, Keeps-bind, same, more}
use cliapp.Controller.Calls.{add_pod}
use cliapp.Controller.Workload.Config.{apply_app_config}
use cliapp.Controller.Workload.Config.Keeps.{apply_app_config-Reads}
use cliapp.Controller.Fork.Keeps.{fetch_fork_target_pod-Reads}
use cliapp.Controller.Start.{
  base_pod, configure_and_create, fetch_shell_context, create_configured, start_from, start_app,
}

create_configured-Keeps :
    (env : Env) (dump hash : String) (a : Answer Pod) → Keeps (create_configured env dump hash a)
unfolding create_configured add_pod
create_configured-Keeps env dump hash (ok pod) s = (refl, more tt same)
create_configured-Keeps env dump hash (err e) s = (refl, same)

pub base_pod-Reads : (env : Env) (fork : Option ForkObject) → Reads (base_pod env fork)
unfolding base_pod
base_pod-Reads env none s = (refl, same)
base_pod-Reads env (some fork) s = fetch_fork_target_pod-Reads env s.app.namespace fork s

configure_and_create-Keeps :
    (env : Env) (r : CliAppReconciler) (dump hash : String) (pod : Pod) (i : ℕ)
    (cm : Option ConfigMap)
    → Keeps (configure_and_create env r dump hash pod i cm)
unfolding configure_and_create
configure_and_create-Keeps env r dump hash pod i cm =
    Keeps-bind (apply_app_config env r pod i cm) (create_configured env dump hash)
      (Reads-Keeps (apply_app_config env r pod i cm) (apply_app_config-Reads env r pod i cm))
      (create_configured-Keeps env dump hash)

start_from-Keeps :
    (env : Env) (r : CliAppReconciler) (dump hash : String) (a : Answer (Pod × ℕ))
    → Keeps (start_from env r dump hash a)
unfolding start_from fetch_shell_context
start_from-Keeps env r dump hash (err e) s = (refl, same)
start_from-Keeps env r dump hash (ok (pod, i)) s =
    Keeps-bind (fetch_shell_context env) (configure_and_create env r dump hash pod i)
      (λ t. (refl, more tt same)) (configure_and_create-Keeps env r dump hash pod i) s

pub start_app-Keeps :
    (env : Env) (r : CliAppReconciler) (dump hash : String) → Keeps (start_app env r dump hash)
unfolding start_app
start_app-Keeps env r dump hash s =
    Keeps-bind (base_pod env s.app.spec.fork) (start_from env r dump hash)
      (Reads-Keeps (base_pod env s.app.spec.fork) (base_pod-Reads env s.app.spec.fork))
      (start_from-Keeps env r dump hash) s
