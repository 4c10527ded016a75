-- ===== src/Controller/Rest/Progress.antt =====
-- makeAppRest (controllers/cliapp_rest.go) where the services help.
use cliapp.Base.{
  ℕ, ◌+◌, ◌<◌, ◌≤◌, ◌≡◌, ◌≢◌, refl, sym, ap, ◌∙◌, subst, true, false, Option, none, some, [], ◌∷◌,
  arith, eq_iff,
}
use cliapp.Api.{
  Phase, rest, recovering, building, live, waiting_for_sessions, shutting_down, other, CliApp,
  with_pod_name, is_live,
}
use cliapp.Controller.Error.{Error}
use cliapp.Controller.State.{
  Env, M, pure, ◌>>=◌, State, History, Outcome, returns, panics, Verdict, update_status,
  list_cached, ok, CliAppReconciler,
}
use cliapp.Controller.Phases.{height}
use cliapp.Controller.Calls.{logged, stored, send_status, fetch_cached_pods}
use cliapp.Controller.Transit.{transit_phase_to, stamp, forget_pod}
use cliapp.Controller.Build.Cancel.{cancel-returns}
use cliapp.Controller.Rest.{
  Reply, again, nothing, rest_from_live, rest_to_shutdown, rest_from_waiting, rest_settled,
  rest_with_pods, rest_from_building, rest_dispatch, make_app_rest,
}

-- The services help an app on its way to Rest: its status is saved, its Pods are gone, and if it waits
-- for sessions it has been idle for long enough.
pub record IsHelpful (env : Env) (r : CliAppReconciler) (app : CliApp) : Type 0 where
  pub saves : (h : History) (a : CliApp) → env.update_status_answer h a ≡ ok a
  pub none_left : env.list_cached_answer [] app.namespace app.name ≡ ok []
  pub late :
      app.status.phase ≡ waiting_for_sessions
      → (h : History) → app.status.last_phase_transition + r.duration_idle_live_lasts ≤ env.now h

-- The outcome has no error, and the last call has saved what is held, which has the property.
abbrev pub Saves : (CliApp → Type 0) → Outcome Reply → Type 0
Saves P (returns (v, x) t) =
    (x ≡ none) × P t.app × ((h : History) × (t.log ≡ update_status t.app ∷ h))
Saves P (panics w t) = ⊥

abbrev pub Saved : (CliApp → Type 0) → Outcome (Option Error) → Type 0
Saved P (returns x t) = (x ≡ none) × P t.app × ((h : History) × (t.log ≡ update_status t.app ∷ h))
Saved P (panics w t) = ⊥

-- A transition, and a reply without an error.
pub then_reply :
    (P : CliApp → Type 0) (m : M (Option Error)) (f : Option Error → Verdict) (s : State)
    → Saved P (m s)
    → Saves P ((m >>= λ x t. returns (f x, x) t) s)
then_reply P m f s k = at (m s) k
  where
    at :
        (o : Outcome (Option Error))
        → Saved P o
        → Saves P (elim o [ returns x t ↦ returns (f x, x) t | panics w t ↦ panics w t ])
    at (returns x t) g = g
    at (panics w t) g = absurd g

module _ (env : Env) (saves : (h : History) (a : CliApp) → env.update_status_answer h a ≡ ok a)
    (P : CliApp → Type 0) (s : State) where
  pub send_status-Saved : P s.app → Saved P (send_status env s)
  unfolding send_status
  send_status-Saved k =
      subst (λ a. Saved P (stored a (logged (update_status s.app) s))) (sym (saves s.log s.app))
        (refl, k, (s.log, refl))

module _ (env : Env) (saves : (h : History) (a : CliApp) → env.update_status_answer h a ≡ ok a)
    (P : CliApp → Type 0) (p : Phase) (s : State) (k : P (forget_pod p (stamp p s.app env s))) where
  pub transit-Saved : is_live p ≡ false → Saved P (transit_phase_to env p s)
  unfolding transit_phase_to
  transit-Saved h = ground (
    arith,
    send_status-Saved env saves P (record s { app = forget_pod p (stamp p s.app env s) }) k,
  )

  -- The move to Live is made for an app with the name of its Pod and an image.
  pub transit_live-Saved :
      s.app.status.pod_name ≢ "" → s.app.spec.image ≢ "" → Saved P (transit_phase_to env p s)
  unfolding transit_phase_to
  transit_live-Saved h i = ground (
    arith,
    send_status-Saved env saves P (record s { app = forget_pod p (stamp p s.app env s) }) k,
    eq_iff s.app.status.pod_name "",
    eq_iff s.app.spec.image "",
  )

abbrev pub IsBelow : ℕ → CliApp → Type 0
IsBelow n app = height app.status.phase < n

module _ (env : Env) (r : CliAppReconciler) where
  rest_to_shutdown-Saves :
      (n : ℕ) (s : State)
      → IsHelpful env r s.app
      → 1 < n
      → Saves (IsBelow n) (rest_to_shutdown env s)
  unfolding rest_to_shutdown
  rest_to_shutdown-Saves n s h k =
      then_reply (IsBelow n) (transit_phase_to env shutting_down) (λ _. again) s
        (transit-Saved env h.saves (IsBelow n) shutting_down s k refl)

  rest_from_live-Saves :
      (s : State) → IsHelpful env r s.app → Saves (IsBelow 3) (rest_from_live env r s)
  unfolding rest_from_live
  rest_from_live-Saves s h = ground (
    arith,
    then_reply (IsBelow 3) (transit_phase_to env shutting_down) (λ _. again)
        (record s { app = with_pod_name "" s.app })
        (transit-Saved env h.saves (IsBelow 3) shutting_down
          (record s { app = with_pod_name "" s.app }) (omega arith) refl),
    then_reply (IsBelow 3) (transit_phase_to env waiting_for_sessions)
        (λ _. record { requeue = true; requeue_after = r.duration_idle_live_lasts }) s
        (transit-Saved env h.saves (IsBelow 3) waiting_for_sessions s (omega arith) refl),
  )

  rest_from_waiting-Saves :
      (s : State)
      → IsHelpful env r s.app
      → s.app.status.phase ≡ waiting_for_sessions
      → Saves (IsBelow 2) (rest_from_waiting env r s)
  unfolding rest_from_waiting
  rest_from_waiting-Saves s h q =
      ground (arith, h.late q s.log, rest_to_shutdown-Saves 2 s h (omega arith))

  rest_with_pods-Saves :
      (s : State)
      → IsHelpful env r s.app
      → s.app.spec.uninstall_unless_live ≡ false
      → Saves (IsBelow 1) (rest_with_pods env (ok []) s)
  unfolding rest_with_pods rest_settled
  rest_with_pods-Saves s h u = ground (
    arith,
    then_reply (IsBelow 1) (transit_phase_to env rest) (λ _. nothing) s
        (transit-Saved env h.saves (IsBelow 1) rest s (omega arith) refl),
  )

  rest_from_building-Saves :
      (s : State) → IsHelpful env r s.app → Saves (IsBelow 2) (rest_from_building env s)
  unfolding rest_from_building
  rest_from_building-Saves s h =
      let (t, e, same) = cancel-returns s in
      subst
        (λ o. Saves (IsBelow 2) (elim o [
          | returns _ u ↦
              (transit_phase_to env shutting_down >>= λ x.
              pure (elim x [ none ↦ again | some _ ↦ nothing ], x))
                u
          | panics w u ↦ panics w u
        ]))
        (sym e)
        (then_reply (IsBelow 2) (transit_phase_to env shutting_down)
          (λ x. elim x [ none ↦ again | some _ ↦ nothing ]) t
          (transit-Saved env h.saves (IsBelow 2) shutting_down t (omega arith) refl))

  rest_dispatch-Saves :
      (p : Phase) (s : State)
      → IsHelpful env r s.app
      → s.log ≡ []
      → s.app.status.phase ≡ p
      → s.app.spec.uninstall_unless_live ≡ false
      → 0 < height p
      → Saves (IsBelow (height p)) (rest_dispatch env r p s)
  unfolding rest_dispatch fetch_cached_pods
  rest_dispatch-Saves live s h l q u k = rest_from_live-Saves s h
  rest_dispatch-Saves waiting_for_sessions s h l q u k = rest_from_waiting-Saves s h q
  rest_dispatch-Saves Phase.unset s h l q u k = rest_to_shutdown-Saves 2 s h (omega arith)
  rest_dispatch-Saves recovering s h l q u k = rest_to_shutdown-Saves 2 s h (omega arith)
  rest_dispatch-Saves shutting_down s h l q u k =
      let listed = logged (list_cached s.app.namespace s.app.name) s in
      subst (λ a. Saves (IsBelow 1) (rest_with_pods env a listed))
        (sym (ap (λ g. env.list_cached_answer g s.app.namespace s.app.name) l ∙ h.none_left))
        (rest_with_pods-Saves listed
          (record { saves = h.saves; none_left = h.none_left; late = h.late }) u)
  rest_dispatch-Saves building s h l q u k = rest_from_building-Saves s h
  rest_dispatch-Saves rest s h l q u k = absurd (omega arith)
  rest_dispatch-Saves (other text) s h l q u k = absurd (omega arith)

  -- Where the services help, makeAppRest brings an app that is not at Rest nearer to it.
  pub make_app_rest-Saves :
      (s : State)
      → IsHelpful env r s.app
      → s.log ≡ []
      → s.app.spec.target_phase ≡ rest
      → s.app.spec.uninstall_unless_live ≡ false
      → 0 < height s.app.status.phase
      → Saves (IsBelow (height s.app.status.phase)) (make_app_rest env r s)
  unfolding make_app_rest
  make_app_rest-Saves s h l t u k =
      ground (arith, rest_dispatch-Saves s.app.status.phase s h l refl u k)
