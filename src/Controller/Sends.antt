-- ===== src/Controller/Sends.antt =====
-- What a pass of controllers/ sends to the API server.
use cliapp.Base.{◌≡◌, refl, sym, ap, subst, All, arith}
use cliapp.Api.{
  Phase, rest, recovering, building, live, waiting_for_sessions, shutting_down, other, CliApp, Core,
  core,
}
use cliapp.Controller.State.{
  Env, State, History, Call, update_status, update_app, Answer, ok, err, after,
}
use cliapp.Controller.Keeps.{IsQuiet, Onto-All, KeepsTo}
use cliapp.Controller.Env.{Echoes}
use cliapp.Controller.Phases.{Moves}
use cliapp.Controller.Calls.{logged, stored, send_status, send_app}
use cliapp.Controller.Transit.{transit_phase_to, stamp, forget_pod}

module _ (K : Core → Type 0) (target start : Phase) where
  abbrev pub IsNext : CliApp → Type 0
  IsNext a = K (core a) × Moves target start a.status.phase

  abbrev pub CarriesNext : Call → Type 0
  CarriesNext (update_status a) = IsNext a
  CarriesNext (update_app a) = IsNext a
  CarriesNext c = Unit

  -- What the pass holds and all that it has sent is next.
  pub record GoesOn (s : State) : Type 0 where
    pub holds : IsNext s.app
    pub sent : All CarriesNext s.log

  IsQuiet-CarriesNext : (c : Call) → IsQuiet c → CarriesNext c
  IsQuiet-CarriesNext c q = ground arith

  pub KeepsTo-GoesOn : (s t : State) → KeepsTo IsQuiet s t → GoesOn s → GoesOn t
  KeepsTo-GoesOn s t (e, o) g = record {
    holds = subst IsNext (sym e) g.holds;
    sent = Onto-All IsQuiet-CarriesNext o g.sent;
  }

  -- An answer with the status, the spec and the name that were sent is next too.
  echo-IsNext :
      (a b : CliApp) → b.status.phase ≡ a.status.phase → core b ≡ core a → IsNext a → IsNext b
  echo-IsNext a b p s (k, m) = (subst K (sym s) k, subst (Moves target start) (sym p) m)

  forget_pod-IsNext : (p : Phase) (a : CliApp) → IsNext a → IsNext (forget_pod p a)
  forget_pod-IsNext rest a n = n
  forget_pod-IsNext Phase.unset a n = n
  forget_pod-IsNext recovering a n = n
  forget_pod-IsNext building a n = n
  forget_pod-IsNext live a n = n
  forget_pod-IsNext waiting_for_sessions a n = n
  forget_pod-IsNext shutting_down a n = n
  forget_pod-IsNext (other t) a n = n

  module _ {env : Env} (e : Echoes env) where
    pub status-IsNext :
        (h : History) (a b : CliApp) → env.update_status_answer h a ≡ ok b → IsNext a → IsNext b
    status-IsNext h a b q n =
        let echo = e.status h a b q in echo-IsNext a b (ap (λ x. x.phase) echo.0) echo.1 n

    pub app-IsNext :
        (h : History) (a b : CliApp) → env.update_app_answer h a ≡ ok b → IsNext a → IsNext b
    app-IsNext h a b q n = let echo = e.app h a b q in echo-IsNext a b echo.0 echo.1 n

    pub send_status-GoesOn : (s : State) → GoesOn s → GoesOn (after (send_status env s))
    unfolding send_status
    send_status-GoesOn s g = answered (env.update_status_answer s.log s.app) refl
      where
        answered :
            (a : Answer CliApp)
            → env.update_status_answer s.log s.app ≡ a
            → GoesOn (after (stored a (logged (update_status s.app) s)))
        answered (ok a) q = record {
          holds = status-IsNext s.log s.app a q g.holds;
          sent = (g.holds, g.sent);
        }
        answered (err x) q = record { holds = g.holds; sent = (g.holds, g.sent) }

    pub send_app-GoesOn : (s : State) → GoesOn s → GoesOn (after (send_app env s))
    unfolding send_app
    send_app-GoesOn s g = answered (env.update_app_answer s.log s.app) refl
      where
        answered :
            (a : Answer CliApp)
            → env.update_app_answer s.log s.app ≡ a
            → GoesOn (after (stored a (logged (update_app s.app) s)))
        answered (ok a) q = record {
          holds = app-IsNext s.log s.app a q g.holds;
          sent = (g.holds, g.sent);
        }
        answered (err x) q = record { holds = g.holds; sent = (g.holds, g.sent) }

    pub transit-GoesOn :
        (p : Phase) (s : State)
        → Moves target start p
        → GoesOn s
        → GoesOn (after (transit_phase_to env p s))
    unfolding transit_phase_to
    transit-GoesOn p s m g =
        ground
          (arith, send_status-GoesOn (record s { app = forget_pod p (stamp p s.app env s) }) kept)
      where
        stamped : GoesOn (record s { app = stamp p s.app env s })
        stamped = record { holds = (g.holds.0, m); sent = g.sent }

        kept : GoesOn (record s { app = forget_pod p (stamp p s.app env s) })
        kept = record {
          holds = forget_pod-IsNext p (stamp p s.app env s) stamped.holds;
          sent = g.sent;
        }
