-- ===== src/Examples/Cluster.antt =====
-- A small cluster to run the reconciler in: updates are stored, deletions and creations succeed, and
-- the list of Pods is fixed.
use cliapp.Base.{refl, inl, List, [], ◌∷◌, none, false, ◌≡◌, subst, arith, ◌≢◌, All, eq_iff}
use cliapp.Api.{Phase, live, rest, shutting_down, Distro, Shell, bash, alpine, CliAppSpec, CliApp}
use cliapp.Kube.{Pod}
use cliapp.Controller.Error.{external}
use cliapp.Controller.State.{Env, ok, err, not_found, CliAppReconciler, State}
use cliapp.Controller.Validate.{IsAcceptable}
use cliapp.Controller.Env.{Echoes, NamesPods}

abbrev pub cluster : List Pod → Env
cluster pods = record {
  now = λ h. 100;
  random = λ h. "x1y2z";
  get_app = λ ns n. not_found;
  update_status_answer = λ h a. ok a;
  update_app_answer = λ h a. ok a;
  delete_app_answer = λ h a. none;
  list_pods_answer = λ h ns n. ok pods;
  list_cached_answer = λ h ns n. ok pods;
  delete_pod_answer = λ h ns n. none;
  create_pod_answer = λ h p. none;
  get_config_map_answer = λ h. err (external "not found");
  find_objects_answer = λ h ns n. ok [];
  fetch_template_answer = λ h i. err (external "not found");
  image_status_answer = λ h i. ok [];
  decode_info = λ s. err (external "bad info");
  parse_url = λ s. none;
  write_file = λ n t. none;
  builder_solve = λ b o. none;
  repetitions = λ h. 0;
  compute_hash = λ s. "h1";
  encode_spec = λ s. "d1";
}

pub cluster-Echoes : (pods : List Pod) → Echoes (cluster pods)
cluster-Echoes pods = record { status = λ h a b e. ground arith; app = λ h a b e. ground arith }

abbrev pub ready_pod : Pod
ready_pod = record {
  name = "ctr-abcde";
  namespace = "app";
  labels = [];
  annotations =
      ("cliapp.warm-metal.tech/spec-hash", "h1") ∷ ("cliapp.warm-metal.tech/spec", "d1") ∷ [];
  owner_references = [];
  deletion_timestamp = none;
  spec = record { containers = []; volumes = [] };
  status = record {
    phase = "Running";
    conditions = record { type = "Ready"; status = "True" } ∷ [];
  };
}

pub cluster-NamesPods : NamesPods (cluster (ready_pod ∷ []))
cluster-NamesPods = record {
  named = λ h ns n pods e.
      let same : ready_pod ∷ [] ≡ pods = ground arith in
      subst (All λ p. p.name ≢ "") same (ground (arith, eq_iff "ctr-abcde" ""), tt);
}

abbrev pub ctr_spec : CliAppSpec
ctr_spec = record {
  fork = none;
  image = "docker.io/warmmetal/ctr:v1";
  dockerfile = "";
  command = "ctr" ∷ [];
  host_path = "/var/run/containerd/containerd.sock" ∷ [];
  env = "A=b" ∷ [];
  distro = Distro.unset;
  shell = Shell.unset;
  target_phase = live;
  uninstall_unless_live = false;
}

-- The app of the tests of controllers/, in a phase and with a target.
abbrev pub ctr : Phase → Phase → CliApp
ctr phase target = record {
  api_version = "core.cliapp.warm-metal.tech/v1";
  kind = "CliApp";
  name = "ctr";
  namespace = "app";
  uid = "u1";
  spec = record ctr_spec { target_phase = target };
  status = record { phase = phase; last_phase_transition = 0; pod_name = ""; error = "" };
}

abbrev pub manager : CliAppReconciler
manager = record {
  builder_endpoint = "";
  duration_idle_live_lasts = 300;
  default_app_context_image = "";
  default_shell = bash;
  default_distro = alpine;
}

abbrev pub pass_over : CliApp → State
pass_over app = record { app = app; app_map = none; log = [] }

pub ctr-IsAcceptable : IsAcceptable (ctr shutting_down rest)
ctr-IsAcceptable = record {
  source = inl (ground (arith, eq_iff "docker.io/warmmetal/ctr:v1" ""));
  target = inl refl;
  distro = ground arith;
  shell = ground arith;
}
