-- ===== src/Controller/Start/Ends.antt =====
-- Panics of startApp (controllers/cliapp_workload.go).
use cliapp.Base.{ℕ, ◌≡◌, ◌≢◌, ◌⊎◌, Option, none, some, String, get_elem?}
use cliapp.Api.{ForkObject, Shell}
use cliapp.Kube.{Pod}
use cliapp.Controller.State.{
  Env, State, Ends, ◌>>=◌, Ends-bind_all, Answer, ok, err, CliAppReconciler, get_config_map,
}
use cliapp.Controller.Calls.{logged, add_pod}
use cliapp.Controller.Workload.Config.{apply_app_config}
use cliapp.Controller.Workload.Config.Ends.{IsKnownShell, apply_app_config-Ends}
use cliapp.Controller.Start.{
  convert_to_manifest, base_pod, fetch_shell_context, create_configured, configure_and_create,
  start_from, start_app, present,
}

create_configured-Ends :
    (env : Env) (dump hash : String) (a : Answer Pod) (s : State)
    → Ends (create_configured env dump hash a s)
unfolding create_configured add_pod
create_configured-Ends env dump hash (ok pod) s = tt
create_configured-Ends env dump hash (err e) s = tt

module _ (env : Env) (r : CliAppReconciler) (dump hash : String) where
  start_from-Ends :
      (pod : Pod) (i : ℕ) (s : State)
      → get_elem? pod.spec.containers i ≢ none
      → IsKnownShell r.default_shell
      → (s.app.spec.shell ≡ Shell.unset) ⊎ IsKnownShell s.app.spec.shell
      → Ends (start_from env r dump hash (ok (pod, i)) s)
  unfolding start_from fetch_shell_context configure_and_create
  start_from-Ends pod i s ne h k =
      Ends-bind_all (apply_app_config env r pod i (present (env.get_config_map_answer s.log)))
        (create_configured env dump hash)
        (logged (get_config_map "cliapp-system" "cliapp-shell-context") s)
        (apply_app_config-Ends env r pod i _ _ ne h k) (create_configured-Ends env dump hash)

  -- An app without a fork, with a supported shell, under a reconciler with one.
  pub start_app-Ends :
      (s : State)
      → s.app.spec.fork ≡ none
      → IsKnownShell r.default_shell
      → (s.app.spec.shell ≡ Shell.unset) ⊎ IsKnownShell s.app.spec.shell
      → Ends (start_app env r dump hash s)
  unfolding start_app base_pod convert_to_manifest
  start_app-Ends s unforked h k = from s.app.spec.fork unforked
    where
      from :
          (fork : Option ForkObject)
          → fork ≡ none
          → Ends ((base_pod env fork >>= start_from env r dump hash) s)
      from none e = start_from-Ends (convert_to_manifest s.app) 0 s (λ c. cc) h k
      from (some f) e = cc
