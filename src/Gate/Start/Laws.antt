-- ===== src/Gate/Start/Laws.antt =====
-- What startApp and closeApp (pkg/gate/session.go) send and what they come back with.
use cliapp.Base.{
  ℕ, zero, suc, ◌≡◌, subst, ◌⊎◌, true, List, [], ◌∷◌, String, arith, ◌||◌, All, All-append,
  if◌then◌else◌,
}
use cliapp.Api.{Phase, rest, live, CliApp, is_live, is_rest, with_target}
use cliapp.Controller.State.{Answer, ok, err}
use cliapp.Gate.Start.{
  WatchEvent, added, modified, AppClient, Tried, try_start, try_close, try_times, request_start,
  close_app, Waited, started, on_app, wait_live, start_requested, start_app, tried_with, watched,
  and_then,
}

-- The wait has not come to an app that is not Live.
abbrev ComesLive : Waited → Type 0
ComesLive (started app out) = app.status.phase ≡ live
ComesLive w = Unit

live_of_is_live : (p : Phase) → is_live p ≡ true → p ≡ live
live_of_is_live p h = ground arith

on_app-ComesLive : (app : CliApp) (w : Waited) → ComesLive w → ComesLive (on_app app w)
unfolding on_app
on_app-ComesLive app w h = ground (arith, live_of_is_live app.status.phase)

wait_live-ComesLive : (es : List WatchEvent) → ComesLive (wait_live es)
unfolding wait_live
wait_live-ComesLive [] = tt
wait_live-ComesLive (added app ∷ es) = on_app-ComesLive app (wait_live es) (wait_live-ComesLive es)
wait_live-ComesLive (modified app ∷ es) =
    on_app-ComesLive app (wait_live es) (wait_live-ComesLive es)
wait_live-ComesLive (_ ∷ es) = tt

start_requested-ComesLive : (c : AppClient) (a : Answer CliApp) → ComesLive (start_requested c a)
unfolding start_requested
start_requested-ComesLive c (err e) = tt
start_requested-ComesLive c (ok app) = requested (c.watch)
  where
    requested :
        (w : Answer (List WatchEvent))
        → ComesLive (if is_live app.status.phase then started app [] else watched w)
    requested (err e) = ground (arith, live_of_is_live app.status.phase)
    requested (ok es) = ground (arith, live_of_is_live app.status.phase, wait_live-ComesLive es)

-- startApp comes back without an error only with an app that is Live, whatever the API server
-- answers and the watch brings.
pub start_app-live :
    (c : AppClient) (app : CliApp) (out : List String)
    → start_app c ≡ started app out
    → app.status.phase ≡ live
unfolding start_app
start_app-live c app out h =
    subst ComesLive h (start_requested-ComesLive c (request_start c).answer)

-- An update answers what was sent, or an error.
abbrev pub UpdateEchoes : AppClient → Type 0
UpdateEchoes c = (n : ℕ) (a b : CliApp) → c.update n a ≡ ok b → b ≡ a

-- Attempts, of which each has the property
try_times-All :
    (P : Tried → Type 0) (attempt : ℕ → Tried) (left n : ℕ)
    → ((a b : Tried) → P a → P b → P (and_then a b))
    → ((k : ℕ) → P (attempt k))
    → P (try_times attempt left n)
unfolding try_times
try_times-All P attempt zero n j h = h n
try_times-All P attempt (suc left) n j h =
    j (attempt n) (try_times attempt left (suc n)) (h n) (try_times-All P attempt left (suc n) j h)

-- What is sent has a target, and so has what is answered without an error, unless `Q` holds of it.
pub record IsAsking (target : Phase) (Q : CliApp → Type 0) (t : Tried) : Type 0 where
  pub sent : All (λ app. app.spec.target_phase ≡ target) t.sent
  pub wanted : (app : CliApp) → t.answer ≡ ok app → Q app ⊎ (app.spec.target_phase ≡ target)

IsAsking-and_then :
    (target : Phase) (Q : CliApp → Type 0) (a b : Tried)
    → IsAsking target Q a
    → IsAsking target Q b
    → IsAsking target Q (and_then a b)
IsAsking-and_then target Q a b g h = record {
  sent = All-append _ a.sent b.sent g.sent h.sent;
  wanted = h.wanted;
}

module _ (c : AppClient) (echoes : UpdateEchoes c) where
  start-IsAsking :
      (n : ℕ) (a : Answer CliApp) → IsAsking live (λ app. app.status.phase ≡ live) (try_start c n a)
  unfolding try_start
  start-IsAsking n (err e) = ground arith
  start-IsAsking n (ok a) = record {
    sent = ground arith;
    wanted = λ app. updated app (c.update n (with_target live a)) (echoes n (with_target live a));
  }
    where
      updated :
          (app : CliApp) (b : Answer CliApp)
          → ((x : CliApp) → b ≡ ok x → x ≡ with_target live a)
          → (if is_live a.status.phase || is_live a.spec.target_phase
              then tried_with [] (ok a)
              else tried_with (with_target live a ∷ []) b).answer
            ≡ ok app
          → (app.status.phase ≡ live) ⊎ (app.spec.target_phase ≡ live)
      updated app b k e =
          ground (arith, k app, live_of_is_live a.status.phase, live_of_is_live a.spec.target_phase)

  close-IsAsking : (n : ℕ) (a : Answer CliApp) → IsAsking rest (λ app. ⊥) (try_close c n a)
  unfolding try_close
  close-IsAsking n (err e) = ground arith
  close-IsAsking n (ok a) = record {
    sent = ground arith;
    wanted = λ app. updated app (c.update n (with_target rest a)) (echoes n (with_target rest a));
  }
    where
      updated :
          (app : CliApp) (b : Answer CliApp)
          → ((x : CliApp) → b ≡ ok x → x ≡ with_target rest a)
          → (if is_rest a.spec.target_phase
              then tried_with [] (ok a)
              else tried_with (with_target rest a ∷ []) b).answer
            ≡ ok app
          → ⊥ ⊎ (app.spec.target_phase ≡ rest)
      updated app b k e = ground (arith, k app)

-- Where an update answers what was sent or an error, whatever else the API server answers, and however
-- often RetryOnConflict repeats the attempts: every object that startApp sends has the target Live, and
-- the app that it then waits for has that target or is Live already; every object that closeApp sends
-- has the target Rest, and closeApp succeeds only where the app has it.
pub request_start-close_app :
    (c : AppClient)
    → UpdateEchoes c
    → IsAsking live (λ app. app.status.phase ≡ live) (request_start c)
      × IsAsking rest (λ app. ⊥) (close_app c)
unfolding request_start close_app
request_start-close_app c echoes = (
  try_times-All _ _ c.repetitions 0 (IsAsking-and_then live _)
      (λ n. start-IsAsking c echoes n (c.get n)),
  try_times-All _ _ c.repetitions 0 (IsAsking-and_then rest _)
      λ n. close-IsAsking c echoes n (c.get n),
)
