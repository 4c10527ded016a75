-- ===== src/Manager/Passes.antt =====
-- The passes of a manager that runs (cmd/manager/manager.go with controllers/).
use cliapp.Base.{◌≡◌, ◌≢◌, ◌⊎◌, refl, Option, none, some, List, String, arith, eq_iff, subst}
use cliapp.Api.{building, other, Distro, Shell, alpine, ubuntu}
use cliapp.Controller.State.{BuildContext, Answer, ok, err, CliAppReconciler, Env, State, Ends}
use cliapp.Controller.Env.{NamesPods}
use cliapp.Controller.Build.{init_app_map}
use cliapp.Controller.Validate.{validate_distro, validate_shell}
use cliapp.Controller.Workload.Config.Ends.{IsKnownShell}
use cliapp.Controller.Reconcile.{reconcile_app}
use cliapp.Controller.Reconcile.Ends.{reconcile_app-Ends}
use cliapp.Manager.{
  CliAppDefault, Host, Main, runs, default_distro, default_shell, set_up_manager, with_builder,
  make_reconciler, with_defaults, configured, main, reconciler_of,
}

-- What a manager runs with: a default distro and a default shell that are supported, and a table of
-- builds exactly where there is an endpoint of a builder.
pub record IsConfigured (r : CliAppReconciler) (builds : Option (List (String × BuildContext)))
    : Type 0 where
  pub shell_known : IsKnownShell r.default_shell
  pub distro_known : (r.default_distro ≡ alpine) ⊎ (r.default_distro ≡ ubuntu)
  pub has_builds : builds ≡ init_app_map r.builder_endpoint

abbrev RunsConfigured : Main → Type 0
RunsConfigured (runs r builds) = IsConfigured r builds
RunsConfigured m = Unit

default_shell-known : (text : String) (sh : Shell) → default_shell text ≡ some sh → IsKnownShell sh
unfolding default_shell validate_shell
default_shell-known text sh h = ground arith

default_distro-known :
    (text : String) (d : Distro) → default_distro text ≡ some d → (d ≡ alpine) ⊎ (d ≡ ubuntu)
unfolding default_distro validate_distro
default_distro-known text d h = ground arith

make_reconciler-RunsConfigured :
    (host : Host) (r : CliAppReconciler)
    → IsConfigured r (init_app_map r.builder_endpoint)
    → RunsConfigured (make_reconciler host r)
unfolding make_reconciler with_builder set_up_manager
make_reconciler-RunsConfigured host r h = ground arith

with_defaults-RunsConfigured :
    (host : Host) (cri : String) (config : CliAppDefault) (d : Option Distro) (sh : Option Shell)
    → default_distro config.default_distro ≡ d
    → default_shell config.default_shell ≡ sh
    → RunsConfigured (with_defaults host cri config d sh)
unfolding with_defaults
with_defaults-RunsConfigured host cri config none sh p q = tt
with_defaults-RunsConfigured host cri config (some d) none p q = tt
with_defaults-RunsConfigured host cri config (some d) (some sh) p q = ground (
  arith,
  make_reconciler-RunsConfigured host (reconciler_of config d sh) (record {
    shell_known = default_shell-known config.default_shell sh q;
    distro_known = default_distro-known config.default_distro d p;
    has_builds = refl;
  }),
)

configured-RunsConfigured :
    (host : Host) (cri : String) (a : Answer CliAppDefault) → RunsConfigured (configured host cri a)
unfolding configured
configured-RunsConfigured host cri (err e) = tt
configured-RunsConfigured host cri (ok config) =
    ground (arith, with_defaults-RunsConfigured host cri config _ _ refl refl)

-- Whatever the configuration and the machine, a manager that runs has a default shell and a default
-- distro among the supported ones, and a table of builds exactly where an endpoint is configured.
main-IsConfigured :
    (host : Host) (config_file cri : String) (r : CliAppReconciler)
    (builds : Option (List (String × BuildContext)))
    → main host config_file cri ≡ runs r builds
    → IsConfigured r builds
unfolding main
main-IsConfigured host config_file cri r builds h =
    subst RunsConfigured h (configured-RunsConfigured host cri _)

-- The first pass of a manager that runs does not panic for an app without a fork in a known phase,
-- where the manager has an endpoint of a builder or the app is not being built; Pods are taken to have
-- names, and every call may fail.
pub main-reconcile_app-Ends :
    {env : Env} (named : NamesPods env) (host : Host) (config_file cri : String)
    (r : CliAppReconciler) (s : State)
    → main host config_file cri ≡ runs r s.app_map
    → s.app.spec.fork ≡ none
    → ((x : String) → s.app.status.phase ≢ other x)
    → (r.builder_endpoint ≢ "") ⊎ (s.app.status.phase ≢ building)
    → Ends (reconcile_app env r s)
unfolding init_app_map
main-reconcile_app-Ends named host config_file cri r s m f k b =
    let c = main-IsConfigured host config_file cri r s.app_map m in
    reconcile_app-Ends named r s f c.shell_known k (has_map c.has_builds b)
  where
    has_map :
        s.app_map ≡ init_app_map r.builder_endpoint
        → (r.builder_endpoint ≢ "") ⊎ (s.app.status.phase ≢ building)
        → s.app.status.phase ≡ building
        → s.app.spec.image ≡ ""
        → s.app_map ≢ none
    has_map e o p i = ground (arith, eq_iff r.builder_endpoint "")
