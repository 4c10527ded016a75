-- ===== src/Examples/System.antt =====
-- Runs of controllers/ and pkg/gate over several passes, and of the manager's start.
use cliapp.Base.{◌≡◌, refl, inl, inr, none, some, List, [], ◌∷◌, arith, eq_iff, lookup}
use cliapp.Api.{live, rest, recovering, shutting_down, CliApp, alpine, bash}
use cliapp.Base.Text.{trim_space}
use cliapp.Utils.{
  is_pod_ready, is_pod_ready_condition_true, get_pod_ready_condition, get_pod_condition,
  get_pod_condition_from_list, get_pod_condition_at, get_current_namespace,
}
use cliapp.Controller.Build.{init_app_map}
use cliapp.Controller.State.{Env, ok, Ends}
use cliapp.Controller.Error.{Error}
use cliapp.Controller.Rest.Drains.{Drains}
use cliapp.Controller.Live.Progress.{IsServing}
use cliapp.Controller.Reconcile.{reconcile_app}
use cliapp.Controller.Passes.{Stored, pass, passes}
use cliapp.Controller.Passes.Settles.{passes-rest}
use cliapp.Controller.Passes.Wakes.{IsWaking, passes-live}
use cliapp.Gate.Start.{AppClient}
use cliapp.Manager.{
  Host, no_config, reconciler_of, main, configured, with_defaults, default_distro, default_shell,
  make_reconciler, set_up_manager, with_builder, new_cri_connection,
}
use cliapp.Manager.Passes.{main-reconcile_app-Ends}
use cliapp.System.{IsEchoing, starts, closes, reconciles, done, next, start_asked, close_asked}
use cliapp.System.Course.{Turns, course}
use cliapp.System.Wakes.{IsStartable, start_asked-passes}
use cliapp.System.Turns.{runs-Turns}
use cliapp.Examples.Cluster.{
  ctr-IsAcceptable, cluster, cluster-Echoes, cluster-NamesPods, ready_pod, ctr, manager, pass_over,
}

abbrev stored : CliApp → Stored
stored app = record { app = app; app_map = none }

-- A cluster without Pods, much later.
abbrev evening : Env
evening = record (cluster []) { now = λ h. 1000 }

passes-rest_example :
    (passes (evening ∷ cluster [] ∷ []) manager (stored (ctr shutting_down rest))).app.status.phase
    ≡ rest
passes-rest_example =
    passes-rest manager (evening ∷ cluster [] ∷ []) (stored (ctr shutting_down rest)) 1
      (
        record { status = λ h a b e. ground arith; app = λ h a b e. ground arith },
        (cluster-Echoes [], tt),
      )
      (record {
        target = refl;
        installed = refl;
        known = λ text. grind arith;
        valid = ctr-IsAcceptable;
      })
      (inl (
        record { saves = λ h a. refl; none_left = refl; late = λ q h. omega arith },
        (0, refl, inr refl),
      ))
      (omega arith)

ctr-IsWaking : IsWaking (ctr rest live)
ctr-IsWaking = record {
  target = refl;
  image = ground (arith, eq_iff "docker.io/warmmetal/ctr:v1" "");
  known = λ text. grind arith;
  valid = record {
    source = inl (ground (arith, eq_iff "docker.io/warmmetal/ctr:v1" ""));
    target = inr refl;
    distro = ground arith;
    shell = ground arith;
  };
}

ready_pod-IsServing : (app : CliApp) → IsServing (cluster (ready_pod ∷ [])) app ready_pod
unfolding lookup is_pod_ready is_pod_ready_condition_true get_pod_ready_condition get_pod_condition
    get_pod_condition_from_list get_pod_condition_at
ready_pod-IsServing app = record {
  pods = ready_pod ∷ [];
  saves = λ h a. refl;
  listed = λ h. refl;
  first = refl;
  ready = refl;
  named = ground (arith, eq_iff "ctr-abcde" "");
}

abbrev two_passes : List Env
two_passes = cluster (ready_pod ∷ []) ∷ cluster (ready_pod ∷ []) ∷ []

passes-live_example :
    ((passes two_passes manager (stored (ctr rest live))).app.status.phase ≡ live)
    × ((passes two_passes manager (stored (ctr rest live))).app.status.pod_name ≡ "ctr-abcde")
passes-live_example =
    passes-live manager ready_pod two_passes (stored (ctr rest live)) ctr-IsWaking (grind arith)
      (
        ready_pod-IsServing (ctr rest live),
        (
          ready_pod-IsServing
              (pass (cluster (ready_pod ∷ [])) manager (stored (ctr rest live))).app,
          tt,
        ),
      )
      refl

abbrev server : AppClient
server = record {
  get = λ n. ok (ctr rest rest);
  update = λ n a. ok a;
  repetitions = 2;
  watch = ok [];
}

server-IsEchoing : IsEchoing server
server-IsEchoing = λ n a b e. ground arith

abbrev begun : Stored
begun = start_asked server 0 (stored (ctr rest rest))

runs-Turns_example :
    Turns
      (course (ctr rest rest))
      (course (close_asked server 1 (pass (cluster []) manager begun)).app)
runs-Turns_example = runs-Turns {r = manager} (
    next (starts server server-IsEchoing 0 (stored (ctr rest rest))) (
      next (reconciles (cluster []) (cluster-Echoes []) begun)
        (next (closes server server-IsEchoing 1 (pass (cluster []) manager begun)) done)))

-- A machine whose configuration is empty.
abbrev host : Host
host = record {
  load = λ f. ok no_config;
  new_manager = none;
  address = λ e. ok e;
  dial = λ a. none;
  namespace_file = some "cliapp-system";
  new_builder = λ e. none;
  set_up = none;
  add_health_check = none;
  add_ready_check = none;
}

main-reconcile_app-Ends_example : Ends (
    reconcile_app
      (cluster (ready_pod ∷ []))
      (reconciler_of no_config alpine bash)
      (pass_over (ctr recovering live)))
unfolding main configured with_defaults default_distro default_shell make_reconciler set_up_manager
    with_builder new_cri_connection get_current_namespace trim_space init_app_map
main-reconcile_app-Ends_example =
    main-reconcile_app-Ends cluster-NamesPods host "" "unix:///run/cri.sock"
      (reconciler_of no_config alpine bash) (pass_over (ctr recovering live)) refl refl
      (λ x. grind arith) (inr (grind arith))

ctr-IsStartable : IsStartable (ctr rest rest)
ctr-IsStartable = record {
  target = refl;
  image = ground (arith, eq_iff "docker.io/warmmetal/ctr:v1" "");
  known = λ text. grind arith;
  down = grind arith;
  valid = record {
    source = inl (ground (arith, eq_iff "docker.io/warmmetal/ctr:v1" ""));
    target = inl refl;
    distro = ground arith;
    shell = ground arith;
  };
}

start_asked-passes_example :
    ((passes two_passes manager begun).app.status.phase ≡ live)
    × ((passes two_passes manager begun).app.status.pod_name ≡ "ctr-abcde")
start_asked-passes_example =
    start_asked-passes manager server 0 (stored (ctr rest rest)) (ctr rest live) ready_pod
      two_passes server-IsEchoing ctr-IsStartable refl
      (
        ready_pod-IsServing begun.app,
        (ready_pod-IsServing (pass (cluster (ready_pod ∷ [])) manager begun).app, tt),
      )
      refl
