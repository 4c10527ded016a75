-- ===== src/Controller/Build/Shared/Sound.antt =====
-- The table of the shared contexts (controllers/cliapp_build.go): what it shows, and which entries it has.
use cliapp.Base.{
  ℕ, suc, ◌<◌, ◌≡◌, ◌≢◌, refl, Option, none, some, List, [], ◌∷◌, String, All, All-mono, lookup,
  insert, delete, arith, eq_iff,
}
use cliapp.Api.{CliApp}
use cliapp.Controller.State.{BuildContext, Env}
use cliapp.Controller.Build.{start, fallback, new_context}
use cliapp.Controller.Build.Shared.{
  Store, write, launched, poll, drop, run_out, Event, polls, drops, runs_out, run_builds,
  view_entries, view,
}

-- Each entry points to a context of its own name that has been made.
abbrev pub IsEntryOf : Store → String × ℕ → Type 0
IsEntryOf s e = (e.1 < s.next) × ((s.contexts e.1).name ≡ e.0)

abbrev pub IsSound : Store → Type 0
IsSound s = All (IsEntryOf s) s.table

pub lookup-view :
    (contexts : ℕ → BuildContext) (name : String) (table : List (String × ℕ))
    → lookup name (view_entries contexts table)
      ≡ elim (lookup name table) [ none ↦ none | some p ↦ some (contexts p) ]
unfolding lookup
lookup-view contexts name [] = refl
lookup-view contexts name ((other, p) ∷ others) = ground (arith, lookup-view contexts name others)

pub delete-view :
    (contexts : ℕ → BuildContext) (name : String) (table : List (String × ℕ))
    → view_entries contexts (delete name table) ≡ delete name (view_entries contexts table)
unfolding delete
delete-view contexts name [] = refl
delete-view contexts name ((other, p) ∷ others) = ground (arith, delete-view contexts name others)

-- A write is not seen where no entry points to it.
pub view-write :
    (contexts : ℕ → BuildContext) (p : ℕ) (b : BuildContext) (table : List (String × ℕ))
    → All (λ e. e.1 ≢ p) table
    → view_entries (write contexts p b) table ≡ view_entries contexts table
view-write contexts p b [] h = refl
view-write contexts p b ((name, q) ∷ others) (h, hs) =
    ground (arith, view-write contexts p b others hs)

pub All-delete :
    (P : String × ℕ → Type 0) (name : String) (table : List (String × ℕ))
    → All P table
    → All (λ e. P e × (e.0 ≢ name)) (delete name table)
unfolding delete
All-delete P name [] h = tt
All-delete P name ((other, p) ∷ others) (h, hs) =
    ground (arith, All-delete P name others hs, eq_iff other name)

pub lookup-IsBelow :
    (s : Store) (name : String) (p : ℕ) (table : List (String × ℕ))
    → All (IsEntryOf s) table
    → lookup name table ≡ some p
    → (p < s.next) × ((s.contexts p).name ≡ name)
unfolding lookup
lookup-IsBelow s name p [] h e = ground arith
lookup-IsBelow s name p ((other, q) ∷ others) (h, hs) e =
    ground (arith, lookup-IsBelow s name p others hs, eq_iff other name)

pub launched-view :
    (app : CliApp) (s : Store)
    → IsSound s
    → view (launched app s).1 ≡ insert app.name (new_context app) (view s)
unfolding insert
launched-view app s h =
    let kept = All-delete (IsEntryOf s) app.name s.table h in
    let fresh =
      All-mono (λ (e : String × ℕ) (k : IsEntryOf s e × (e.0 ≢ app.name)). below e.1 k.0.0)
        (delete app.name s.table) kept in
    ground (
      arith,
      view-write s.contexts s.next (new_context app) (delete app.name s.table) fresh,
      delete-view s.contexts app.name s.table,
    )
  where
    below : (p : ℕ) → p < s.next → p ≢ s.next
    below p h = omega arith

-- A write to a context that keeps its name keeps the store sound.
write-IsSound :
    (s : Store) (p : ℕ) (b : BuildContext)
    → b.name ≡ (s.contexts p).name
    → IsSound s
    → IsSound (record s { contexts = write s.contexts p b })
write-IsSound s p b n h =
    All-mono (λ (e : String × ℕ) (k : IsEntryOf s e). kept e.0 e.1 k) s.table h
  where
    kept :
        (name : String) (q : ℕ)
        → (q < s.next) × ((s.contexts q).name ≡ name)
        → (q < s.next) × ((write s.contexts p b q).name ≡ name)
    kept name q k = ground arith

pub launched-IsSound : (app : CliApp) (s : Store) → IsSound s → IsSound (launched app s).1
unfolding insert
launched-IsSound app s h = (
  (omega arith, ground arith),
  All-mono (λ (e : String × ℕ) (k : IsEntryOf s e × (e.0 ≢ app.name)). kept e.0 e.1 k.0)
      (delete app.name s.table) (All-delete (IsEntryOf s) app.name s.table h),
)
  where
    kept :
        (name : String) (q : ℕ)
        → (q < s.next) × ((s.contexts q).name ≡ name)
        → (q < suc s.next) × ((write s.contexts s.next (new_context app) q).name ≡ name)
    kept name q k = ground arith

pub poll-IsSound : (app : CliApp) (s : Store) → IsSound s → IsSound (poll app s).1
unfolding poll
poll-IsSound app s h = ground (arith, launched-IsSound app s h)

delete-IsSound :
    (name : String) (s : Store) → IsSound s → IsSound (record s { table = delete name s.table })
delete-IsSound name s h =
    All-mono (λ (e : String × ℕ) (k : IsEntryOf s e × (e.0 ≢ name)). k.0) (delete name s.table)
      (All-delete (IsEntryOf s) name s.table h)

pub drop-IsSound : (app : CliApp) (s : Store) → IsSound s → IsSound (drop app s)
unfolding drop fallback
drop-IsSound app s h = found (lookup app.name s.table)
  where
    found :
        (o : Option ℕ)
        → IsSound (elim o [
          | some p ↦ record s {
            contexts = write s.contexts p (fallback (s.contexts p));
            table = delete app.name s.table;
          }
          | none ↦ s
        ])
    found none = h
    found (some p) =
        delete-IsSound app.name
          (record s { contexts = write s.contexts p (fallback (s.contexts p)) })
          (write-IsSound s p (fallback (s.contexts p)) refl h)

start-name : (env : Env) (b : BuildContext) → (start env b).name ≡ b.name
unfolding start
start-name env b = ground arith

pub run_out-IsSound : (env : Env) (p : ℕ) (s : Store) → IsSound s → IsSound (run_out env p s)
unfolding run_out
run_out-IsSound env p s h =
    ground (arith, write-IsSound s p (start env (s.contexts p)) (start-name env (s.contexts p)) h)

pub run_builds-IsSound : (es : List Event) (s : Store) → IsSound s → IsSound (run_builds es s).store
unfolding run_builds
run_builds-IsSound [] s h = h
run_builds-IsSound (polls app ∷ es) s h =
    run_builds-IsSound es (poll app s).1 (poll-IsSound app s h)
run_builds-IsSound (drops app ∷ es) s h = run_builds-IsSound es (drop app s) (drop-IsSound app s h)
run_builds-IsSound (runs_out env p ∷ es) s h =
    run_builds-IsSound es (run_out env p s) (run_out-IsSound env p s h)
