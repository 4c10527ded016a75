-- ===== src/Controller/Live/Calls.antt =====
-- What makeAppLive (controllers/cliapp_live.go) asks for an app at Rest.
use cliapp.Base.{◌≡◌, sym, subst, arith}
use cliapp.Api.{rest, recovering, building}
use cliapp.Controller.State.{Env, State, after, CliAppReconciler}
use cliapp.Controller.Rest.Calls.{OnlyStops, transit-OnlyStops}
use cliapp.Controller.Live.{begin_build, recover, live_dispatch, make_app_live}

recover-OnlyStops : (env : Env) (s : State) → OnlyStops s → OnlyStops (after (recover env s))
unfolding recover
recover-OnlyStops env s h = ground (arith, transit-OnlyStops env recovering s h)

begin_build-OnlyStops :
    (env : Env) (r : CliAppReconciler) (s : State)
    → OnlyStops s
    → OnlyStops (after (begin_build env r s))
unfolding begin_build
begin_build-OnlyStops env r s h = ground (arith, transit-OnlyStops env building s h)

-- An app at Rest that is to be live is only moved on: no Pod is created and no build started.
pub make_app_live-OnlyStops :
    (env : Env) (r : CliAppReconciler) (s : State)
    → s.app.status.phase ≡ rest
    → OnlyStops s
    → OnlyStops (after (make_app_live env r s))
unfolding make_app_live live_dispatch
make_app_live-OnlyStops env r s p h =
    let woken =
      subst (λ q. OnlyStops (after (live_dispatch env r q s))) (sym p)
        (recover-OnlyStops env s h) in
    ground (arith, h, woken, begin_build-OnlyStops env r s h)
