-- ===== src/Controller/Passes.antt =====
-- Passes one after the other (controllers/): each begins with the object that the API server holds
-- then, and has services of its own, since time goes on and Pods come and go between passes.

pub mod Settles
pub mod Steps
pub mod Wakes
use cliapp.Base.{Option, List, [], ◌∷◌, String}
use cliapp.Api.{CliApp}
use cliapp.Controller.State.{
  BuildContext, Env, State, History, Call, update_status, update_app, Answer, ok, err, after,
  CliAppReconciler,
}
use cliapp.Controller.Reconcile.{reconcile_app}

abbrev pub or_before : Answer CliApp → CliApp → CliApp
or_before (ok app) before = app
or_before (err e) before = before

-- The object that the server holds behind the calls of a pass that began with `app`: an update that
-- fails changes nothing there.
pub latest : Env → CliApp → History → CliApp
latest env app [] = app
latest env app (update_status a ∷ h) = or_before (env.update_status_answer h a) (latest env app h)
latest env app (update_app a ∷ h) = or_before (env.update_app_answer h a) (latest env app h)
latest env app (call ∷ h) = latest env app h

-- What lasts from pass to pass: the object, and the reconciler's table of builds.
pub record Stored : Type 0 where
  pub app : CliApp
  pub app_map : Option (List (String × BuildContext))

abbrev pub begin : Stored → State
begin s = record { app = s.app; app_map = s.app_map; log = [] }

abbrev pub store : Env → CliApp → State → Stored
unfolding latest
store env app t = record { app = latest env app t.log; app_map = t.app_map }

pub pass : Env → CliAppReconciler → Stored → Stored
unfolding reconcile_app latest
pass env r s = store env s.app (after (reconcile_app env r (begin s)))

-- One pass with each of the services, in order.
unfoldable pub passes : List Env → CliAppReconciler → Stored → Stored
unfolding pass
passes [] r s = s
passes (env ∷ envs) r s = passes envs r (pass env r s)
