-- ===== src/System/Turns.antt =====
-- The gate (pkg/gate/session.go) and the manager (controllers/) together, against the turns of Course.
use cliapp.Base.{
  ℕ, ◌≤◌, ◌≡◌, refl, sym, ap, subst, ◌∙◌, inl, inr, List, [], ◌∷◌, arith, All, true, false, Bool,
  ◌||◌, if◌then◌else◌,
}
use cliapp.Api.{Phase, rest, live, CliApp, is_live, is_rest, with_target}
use cliapp.Controller.State.{Answer, ok, err, CliAppReconciler}
use cliapp.Controller.Phases.{Moves, height, Edge-height}
use cliapp.Controller.Passes.{Stored, or_before, pass}
use cliapp.Controller.Passes.Steps.{pass-Moves}
use cliapp.Gate.Start.{AppClient, try_start, try_close, tried_with}
use cliapp.System.{
  kept, start_asked, close_asked, IsEchoing, Actor, starter, Step, starts, closes, reconciles, Runs,
  done, next,
}
use cliapp.System.Course.{Course, course, Turn, ask_live, ask_rest, go, Turns, stay, turn}

-- One update at most: the course stays, or it is the one that was asked for.
data IsAsked (q : Phase) (a : Course) : Course → Type 0 where
  as_before : IsAsked q a a
  asked : IsAsked q a (record a { target = q })

course_eq : {a b : Course} → a.target ≡ b.target → a.phase ≡ b.phase → a ≡ b
course_eq p q i = record { target = p i; phase = q i }

answer-IsAsked :
    (c : AppClient) (n : ℕ) (q : Phase) (app : CliApp) (a : Answer CliApp)
    → IsEchoing c
    → c.update n (with_target q app) ≡ a
    → IsAsked q (course app) (course (or_before a app))
answer-IsAsked c n q app (err x) e h = as_before
answer-IsAsked c n q app (ok b) e h =
    let echo = e n (with_target q app) b h in
    subst (IsAsked q (course app)) (course_eq (sym (ap (λ x. x.target_phase) echo.1)) (sym echo.0))
      asked

IsAsked-Turns :
    {q : Phase} {a b : Course}
    → ((c : Course) → Turn c (record c { target = q }))
    → IsAsked q a b
    → Turns a b
IsAsked-Turns ask as_before = stay
IsAsked-Turns {a} ask asked = turn (ask a) stay

IsAsked-resting :
    {a b : Course}
    → a.target ≡ rest
    → IsAsked rest a b
    → (b.target ≡ rest) × (height b.phase ≤ height a.phase)
IsAsked-resting p as_before = (p, omega arith)
IsAsked-resting p asked = (refl, omega arith)

Moves-height : {p q : Phase} → Moves rest p q → height q ≤ height p
Moves-height (inl e) = ground arith
Moves-height (inr x) = omega (arith, Edge-height x)

attempt-IsAsked :
    (c : AppClient) (n : ℕ) (q : Phase) (app : CliApp)
    → IsEchoing c
    → (b : Bool)
    → IsAsked q (course app) (
        course (
          kept c n
            (if b
              then tried_with [] (ok app)
              else tried_with (with_target q app ∷ []) (c.update n (with_target q app))).sent
            app))
unfolding kept
attempt-IsAsked c n q app e true = as_before
attempt-IsAsked c n q app e false = answer-IsAsked c n q app _ e refl

Step-Turns :
    {r : CliAppReconciler} {who : Actor} {s t : Stored}
    → Step r who s t
    → Turns (course s.app) (course t.app)
unfolding start_asked close_asked try_start try_close
Step-Turns (starts c e n s) =
    IsAsked-Turns (λ c. ask_live)
      (attempt-IsAsked c n live s.app e
        (is_live s.app.status.phase || is_live s.app.spec.target_phase))
Step-Turns (closes c e n s) =
    IsAsked-Turns (λ c. ask_rest)
      (attempt-IsAsked c n rest s.app e (is_rest s.app.spec.target_phase))
Step-Turns {r} (reconciles env e s) =
    let m = pass-Moves e r s in
    elim m.1 [
      | inl p ↦ subst (Turns (course s.app)) (course_eq (sym m.0.0) (sym p)) stay
      | inr x ↦
          subst (Turns (course s.app))
            (course_eq
              {a = record {
                target = s.app.spec.target_phase;
                phase = (pass env r s).app.status.phase;
              }}
              (sym m.0.0) refl)
            (turn (go x) stay)
    ]

Turns-trans : {a b c : Course} → Turns a b → Turns b c → Turns a c
Turns-trans stay u = u
Turns-trans (turn x t) u = turn x (Turns-trans t u)

-- Where an update that the API server accepts is answered with the name, the status and the spec that were
-- sent: however gates and the reconciler take turns, and whatever fails or panics in between, each
-- run of attempts of startApp and closeApp and of passes is, for the target and the phase that the
-- server holds, a sequence of turns.
pub runs-Turns :
    {r : CliAppReconciler} {actors : List Actor} {s t : Stored}
    → Runs r actors s t
    → Turns (course s.app) (course t.app)
runs-Turns done = stay
runs-Turns (next x runs) = Turns-trans (Step-Turns x) (runs-Turns runs)

abbrev pub IsNoStart : Actor → Type 0
IsNoStart starter = ⊥
IsNoStart _ = Unit

-- What is to rest goes on to rest, and never away from it.
Step-resting :
    {r : CliAppReconciler} {who : Actor} {s t : Stored}
    → IsNoStart who
    → s.app.spec.target_phase ≡ rest
    → Step r who s t
    → (t.app.spec.target_phase ≡ rest) × (height t.app.status.phase ≤ height s.app.status.phase)
unfolding close_asked try_close
Step-resting h p (starts c e n s) = absurd h
Step-resting h p (closes c e n s) =
    IsAsked-resting p (attempt-IsAsked c n rest s.app e (is_rest s.app.spec.target_phase))
Step-resting {r} h p (reconciles env e s) =
    let m = pass-Moves e r s in
    (
      m.0.0 ∙ p,
      Moves-height (subst (λ q. Moves q s.app.status.phase (pass env r s).app.status.phase) p m.1),
    )

-- Where an update that the API server accepts is answered with the name, the status and the spec that were
-- sent: once the target is Rest and as long as no gate starts the app, the target at the server
-- stays Rest and the app comes no further away from Rest, whatever gates close it and whatever the
-- passes meet.
runs-resting :
    {r : CliAppReconciler} {actors : List Actor} {s t : Stored}
    → s.app.spec.target_phase ≡ rest
    → Runs r actors s t
    → All IsNoStart actors
    → (t.app.spec.target_phase ≡ rest) × (height t.app.status.phase ≤ height s.app.status.phase)
runs-resting p done h = (p, omega arith)
runs-resting p (next x runs) (h, hs) =
    let a = Step-resting h p x in let b = runs-resting a.0 runs hs in (b.0, omega (arith, a.1, b.1))
