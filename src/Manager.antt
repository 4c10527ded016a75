-- ===== src/Manager.antt =====
-- cmd/manager/manager.go and CliAppDefault (pkg/apis/config/v1/cliappdefault_types.go): from the flags
-- and the configuration to the reconciler that the manager runs. What the machine and the cluster
-- answer is the parameter `Host`.
pub mod Passes
use cliapp.Base.{ℕ, Option, none, some, List, String, is_blank, is_none, if◌then◌else◌}
use cliapp.Api.{Distro, Shell, distro_of, shell_of}
use cliapp.Utils.{get_current_namespace}
use cliapp.Controller.Error.{Error, message}
use cliapp.Controller.State.{BuildContext, Answer, ok, err, CliAppReconciler}
use cliapp.Controller.Validate.{validate_distro, validate_shell}
use cliapp.Controller.Build.{init_app_map}

-- The part of the configuration that is the program's own.
pub record CliAppDefault : Type 0 where
  pub default_app_context_image : String
  pub default_shell : String
  pub default_distro : String
  pub duration_idle_lives_last : ℕ
  pub builder_service : String

-- CliAppDefault{}
abbrev pub no_config : CliAppDefault
no_config = record {
  default_app_context_image = "";
  default_shell = "";
  default_distro = "";
  duration_idle_lives_last = 0;
  builder_service = "";
}

-- `address` is GetAddressAndDialer of an endpoint and `dial` the connection to an address;
-- `namespace_file` is the file with the namespace, `new_builder` the client of an endpoint.
pub record Host : Type 0 where
  pub load : String → Answer CliAppDefault
  pub new_manager : Option Error
  pub address : String → Answer String
  pub dial : String → Option Error
  pub namespace_file : Option String
  pub new_builder : String → Option Error
  pub set_up : Option Error
  pub add_health_check : Option Error
  pub add_ready_check : Option Error

-- The end of main before the manager runs, with the line of the log or the panic, or what runs.
pub data Main : Type 0 where
  exits : String → Main
  panics : String → Main
  runs : CliAppReconciler → Option (List (String × BuildContext)) → Main

abbrev unless_failed : Option Error → String → Main → Main
unless_failed none line next = next
unless_failed (some e) line next = exits line

-- The two tests of defaults: an unset one is replaced, one that is not supported is none.
unfoldable pub default_distro : String → Option Distro
default_distro text =
    if is_blank text
    then some Distro.alpine
    else elim (validate_distro (distro_of text)) [ none ↦ some (distro_of text) | some e ↦ none ]

unfoldable pub default_shell : String → Option Shell
default_shell text =
    if is_blank text
    then some Shell.bash
    else elim (validate_shell (shell_of text)) [ none ↦ some (shell_of text) | some e ↦ none ]

-- newCRIConnection: the line of the log where it fails. An endpoint that is no address is not logged.
unfoldable pub new_cri_connection : Host → String → Option String
new_cri_connection host endpoint = elim (host.address endpoint) [
  | err e ↦ some ""
  | ok addr ↦ elim (host.dial addr) [
    | some e ↦ some "unable to connect to cri image service"
    | none ↦ none
  ]
]

abbrev pub reconciler_of : CliAppDefault → Distro → Shell → CliAppReconciler
reconciler_of config distro shell = record {
  builder_endpoint = config.builder_service;
  duration_idle_live_lasts = config.duration_idle_lives_last;
  default_app_context_image = config.default_app_context_image;
  default_shell = shell;
  default_distro = distro;
}

-- From SetupWithManager on.
unfoldable pub set_up_manager :
    Host → CliAppReconciler → Option (List (String × BuildContext)) → Main
set_up_manager host r builds = unless_failed host.set_up "unable to create controller" (
    unless_failed host.add_health_check "unable to set up health check"
      (unless_failed host.add_ready_check "unable to set up ready check" (runs r builds)))

-- InitImageBuilderOrDie, which panics where the client of an endpoint cannot be made.
unfoldable pub with_builder : Host → String → (Option (List (String × BuildContext)) → Main) → Main
with_builder host endpoint k =
    if is_blank endpoint then k (init_app_map endpoint) else elim (host.new_builder endpoint) [
      | some e ↦ panics (message e)
      | none ↦ k (init_app_map endpoint)
    ]

-- The fields of the reconciler: the namespace is fetched first, and the builder is made.
unfoldable pub make_reconciler : Host → CliAppReconciler → Main
unfolding set_up_manager with_builder get_current_namespace
make_reconciler host r = elim (get_current_namespace host.namespace_file) [
  | none ↦ panics "can't fetch the current namespace"
  | some namespace ↦ with_builder host r.builder_endpoint (set_up_manager host r)
]

unfoldable pub with_defaults : Host → String → CliAppDefault → Option Distro → Option Shell → Main
unfolding make_reconciler new_cri_connection
with_defaults host cri config none shell = exits "invalid distro"
with_defaults host cri config (some distro) none = exits "invalid shell"
with_defaults host cri config (some distro) (some shell) =
    let started = make_reconciler host (reconciler_of config distro shell) in
    elim (new_cri_connection host cri) [ some line ↦ exits line | none ↦ started ]

unfoldable pub configured : Host → String → Answer CliAppDefault → Main
unfolding with_defaults default_distro default_shell
configured host cri (err e) = exits "unable to load the config file"
configured host cri (ok config) = unless_failed host.new_manager "unable to start manager" (
    with_defaults host cri config (default_distro config.default_distro)
      (default_shell config.default_shell))

-- main, with the flags `config` and `cri-image-service-url`
unfoldable pub main : Host → (config_file cri_endpoint : String) → Main
unfolding configured
main host config_file cri =
    configured host cri (if is_blank config_file then ok no_config else host.load config_file)
