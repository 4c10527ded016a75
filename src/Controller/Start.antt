-- ===== src/Controller/Start.antt =====
-- startApp and convertToManifest (controllers/cliapp_workload.go).
pub mod Keeps
pub mod Ends
pub mod Pods
use cliapp.Base.{ℕ, false, Option, none, some, [], ◌∷◌, String, insert}
use cliapp.Api.{CliApp, ForkObject}
use cliapp.Kube.{Pod, ConfigMap}
use cliapp.Controller.Error.{Error}
use cliapp.Controller.State.{
  Env, M, ◌>>=◌, pure, returns, Answer, ok, err, CliAppReconciler, get_config_map,
}
use cliapp.Controller.Calls.{logged, add_pod}
use cliapp.Controller.Fork.{fetch_fork_target_pod}
use cliapp.Controller.Workload.Config.{apply_app_config}

unfoldable pub convert_to_manifest : CliApp → Pod
convert_to_manifest app = record {
  name = "";
  namespace = "";
  labels = [];
  annotations = [];
  owner_references = [];
  deletion_timestamp = none;
  spec = record {
    containers =
        record {
          name = "";
          image = app.spec.image;
          env = [];
          working_dir = "";
          stdin = false;
          volume_mounts = [];
          security_context = none;
          startup_probe = none;
          liveness_probe = none;
          readiness_probe = none;
        }
        ∷ [];
    volumes = [];
  };
  status = record { phase = ""; conditions = [] };
}

-- The Pod to start from and the index of its target container.
pub base_pod : Env → Option ForkObject → M (Answer (Pod × ℕ))
unfolding convert_to_manifest
base_pod env none s = returns (ok (convert_to_manifest s.app, 0)) s
base_pod env (some fork) s = fetch_fork_target_pod env s.app.namespace fork s

-- A ConfigMap that cannot be fetched counts as none.
abbrev pub present : Answer ConfigMap → Option ConfigMap
present (ok cm) = some cm
present (err e) = none

fetch_shell_context : Env → M (Option ConfigMap)
fetch_shell_context env s =
    returns (present (env.get_config_map_answer s.log))
      (logged (get_config_map "cliapp-system" "cliapp-shell-context") s)

abbrev pub anno_key_spec_hash : String
anno_key_spec_hash = "cliapp.warm-metal.tech/spec-hash"

abbrev pub anno_key_spec_dump : String
anno_key_spec_dump = "cliapp.warm-metal.tech/spec"

unfoldable pub annotate : (dump hash : String) → Pod → Pod
annotate dump hash pod = record pod {
  annotations = insert anno_key_spec_hash hash (insert anno_key_spec_dump dump pod.annotations);
}

create_configured : Env → (dump hash : String) → Answer Pod → M (Option Error)
unfolding annotate
create_configured env dump hash (err e) = pure (some e)
create_configured env dump hash (ok pod) = add_pod env (annotate dump hash pod)

configure_and_create :
    Env → CliAppReconciler → (dump hash : String) → Pod → ℕ → Option ConfigMap → M (Option Error)
unfolding create_configured
configure_and_create env r dump hash pod i cm =
    apply_app_config env r pod i cm >>= create_configured env dump hash

start_from : Env → CliAppReconciler → (dump hash : String) → Answer (Pod × ℕ) → M (Option Error)
unfolding fetch_shell_context configure_and_create
start_from env r dump hash (err e) = pure (some e)
start_from env r dump hash (ok (pod, i)) =
    fetch_shell_context env >>= configure_and_create env r dump hash pod i

-- The error; the Pod that startApp returns too is not used by its caller.
unfoldable pub start_app : Env → CliAppReconciler → (dump hash : String) → M (Option Error)
unfolding base_pod start_from
start_app env r dump hash s = (base_pod env s.app.spec.fork >>= start_from env r dump hash) s
