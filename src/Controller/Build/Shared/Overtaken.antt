-- ===== src/Controller/Build/Shared/Overtaken.antt =====
-- Builds that are overtaken by the next poll (testImage of controllers/cliapp_build.go).
use cliapp.Base.{
  ℕ, ◌+◌, suc, ◌≤◌, ◌≡◌, refl, ap, false, some, List, [], ◌∷◌, ◌++◌, All, map, length, lookup,
  lookup-insert, arith, eq_iff, replicate,
}
use cliapp.Api.{CliApp}
use cliapp.Controller.Error.{under_build}
use cliapp.Controller.State.{Env, err}
use cliapp.Controller.Build.Shared.{
  Store, launched, poll, run_out, Event, polls, runs_out, run_builds,
}

-- Ends of builds
abbrev Ends : Type 0
Ends = List (Env × ℕ)

abbrev ends_of : Ends → List Event
ends_of ends = map (λ e. runs_out e.0 e.1) ends

-- Each pass polls the build, and some builds end before the next pass.
abbrev pub overtaken : CliApp → List Ends → List Event
overtaken app [] = []
overtaken app (ends ∷ rounds) = polls app ∷ (ends_of ends ++ overtaken app rounds)

-- A build that ends behind a poll is older than the one that this poll has started; `p` is the newest
-- before it.
abbrev pub AreOld : ℕ → List Ends → Type 0
AreOld p [] = Unit
AreOld p (ends ∷ rounds) = All (λ e. e.1 ≤ p) ends × AreOld (suc p) rounds

-- The app's build is the newest one, and it has not ended.
pub record IsUnderBuild (app : CliApp) (p : ℕ) (s : Store) : Type 0 where
  pub entry : lookup app.name s.table ≡ some p
  pub newest : s.next ≡ suc p
  pub unfinished : (s.contexts p).done ≡ false

poll-IsUnderBuild :
    (app : CliApp) (p : ℕ) (s : Store) → IsUnderBuild app p s → poll app s ≡ launched app s
unfolding poll
poll-IsUnderBuild app p s h = ground (arith, h.entry, h.unfinished)

launched-IsUnderBuild :
    (app : CliApp) (p : ℕ) (s : Store)
    → IsUnderBuild app p s
    → IsUnderBuild app (suc p) (launched app s).1
launched-IsUnderBuild app p s h = record {
  entry =
      ground
        (arith, h.newest, lookup-insert app.name app.name s.next s.table, eq_iff app.name app.name);
  newest = ground (arith, h.newest);
  unfinished = ground (arith, h.newest);
}

-- The end of an older build leaves the newest one under build.
run_out-IsUnderBuild :
    (env : Env) (app : CliApp) (p q : ℕ) (s : Store)
    → q ≤ p
    → IsUnderBuild app (suc p) s
    → IsUnderBuild app (suc p) (run_out env q s)
unfolding run_out
run_out-IsUnderBuild env app p q s l h = record {
  entry = ground (arith, h.entry);
  newest = ground (arith, h.newest);
  unfinished = ground (arith, h.unfinished, l);
}

-- None of n polls got anything, each started a build, and the last is still under build.
abbrev pub IsOvertaken : CliApp → ℕ → Store → List Event → Type 0
IsOvertaken app n s es =
    let r = run_builds es s in
    (r.answers ≡ replicate n (err under_build))
    × (r.store.next ≡ n + s.next)
    × ((q : ℕ) × IsUnderBuild app q r.store)

ends-IsOvertaken :
    (app : CliApp) (p n : ℕ) (ends : Ends) (es : List Event) (s : Store)
    → All (λ e. e.1 ≤ p) ends
    → IsUnderBuild app (suc p) s
    → ((t : Store) → IsUnderBuild app (suc p) t → IsOvertaken app n t es)
    → IsOvertaken app n s (ends_of ends ++ es)
unfolding run_builds
ends-IsOvertaken app p n [] es s l h k = k s h
ends-IsOvertaken app p n ((env, q) ∷ ends) es s (l, ls) h k =
    let now = run_out-IsUnderBuild env app p q s l h in
    let (answers, next, last) = ends-IsOvertaken app p n ends es (run_out env q s) ls now k in
    (answers, omega (arith, next, now.newest, h.newest), last)

-- Where the app's build is the newest and has not ended, and of the builds that end between two polls
-- none is the one that the poll before has started, since each takes longer than that or never ends:
-- whatever builds come to, each poll answers that the image is under build and starts another build.
pub overtaken-answers :
    (app : CliApp) (rounds : List Ends) (p : ℕ) (s : Store)
    → IsUnderBuild app p s
    → AreOld p rounds
    → IsOvertaken app (length rounds) s (overtaken app rounds)
unfolding run_builds
overtaken-answers app [] p s h l = (refl, omega arith, (p, h))
overtaken-answers app (ends ∷ rounds) p s h (l, ls) =
    let polled = poll-IsUnderBuild app p s h in
    let (answers, next, last) =
      ends-IsOvertaken app p (length rounds) ends (overtaken app rounds) (launched app s).1 l
        (launched-IsUnderBuild app p s h) (λ t g. overtaken-answers app rounds (suc p) t g ls) in
    rw polled (ap (λ l. err under_build ∷ l) answers, omega (arith, next), last)
