-- ===== src/Controller/Transit/Laws.antt =====
-- What transitPhaseTo (controllers/cliapp_common.go) does to the app that it holds.
use cliapp.Base.{◌≡◌, refl, ap, ◌⊎◌, ◌≢◌, false, none, eq_iff, arith}
use cliapp.Api.{Phase, live, CliApp, is_live}
use cliapp.Controller.State.{Env, State, after, Ends, Answer, ok, err, update_status}
use cliapp.Controller.Env.{Echoes}
use cliapp.Controller.Calls.{send_status, stored, logged}
use cliapp.Controller.Transit.{transit_phase_to, stamp, forget_pod}

module _ {env : Env} (e : Echoes env) where
  -- Whether an update of the status is stored or fails, the status and the spec are those sent.
  pub send_status-app :
      (s : State)
      → let t = after (send_status env s) in
        (t.app.status ≡ s.app.status) × (t.app.spec ≡ s.app.spec)
  unfolding send_status
  send_status-app s = answered (env.update_status_answer s.log s.app) refl
    where
      answered :
          (a : Answer CliApp)
          → env.update_status_answer s.log s.app ≡ a
          → let t = after (stored a (logged (update_status s.app) s)) in
            (t.app.status ≡ s.app.status) × (t.app.spec ≡ s.app.spec)
      answered (ok b) h = let echo = e.status s.log s.app b h in (echo.0, ap (λ c. c.spec) echo.1)
      answered (err x) h = (refl, refl)

  -- Where an update that succeeds answers the status and the spec that were sent, the app is left in
  -- the phase that was asked for, with the spec that it had, whether the move is made, fails or panics.
  pub transit_phase_to-phase :
      (p : Phase) (s : State)
      → let t = after (transit_phase_to env p s) in
        (t.app.status.phase ≡ p) × (t.app.spec ≡ s.app.spec)
  unfolding transit_phase_to
  transit_phase_to-phase p s =
      ground (arith, send_status-app (record s { app = forget_pod p (stamp p s.app env s) }))

-- Only the move to Live can panic.
pub transit_phase_to-Ends :
    (env : Env) (p : Phase) (s : State) → is_live p ≡ false → Ends (transit_phase_to env p s)
unfolding transit_phase_to send_status
transit_phase_to-Ends env p s h = ground arith

-- The move to Live does not panic for an app with the name of its Pod, and an image or a fork.
pub transit_phase_to-Ends_live :
    (env : Env) (s : State)
    → s.app.status.pod_name ≢ ""
    → (s.app.spec.image ≢ "") ⊎ (s.app.spec.fork ≢ none)
    → Ends (transit_phase_to env live s)
unfolding transit_phase_to send_status
transit_phase_to-Ends_live env s h k =
    ground (arith, eq_iff s.app.status.pod_name "", eq_iff s.app.spec.image "")
