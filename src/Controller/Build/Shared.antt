-- ===== src/Controller/Build/Shared.antt =====
-- The contexts of builds as the objects that they are (controllers/cliapp_build.go): the table of a
-- builder that is configured and the goroutines of the builds share them. A pointer is a number.
pub mod Sound
pub mod Views
pub mod Overtaken
pub mod Finished
use cliapp.Base.{
  ℕ, suc, eqb, ltb, ◌&&◌, not, Bool, true, false, Option, none, some, List, [], ◌∷◌, map, String,
  lookup, insert, delete, if◌then◌else◌,
}
use cliapp.Api.{CliApp}
use cliapp.Controller.State.{BuildContext, Env, Answer}
use cliapp.Controller.Build.{start, fallback, new_context, answer_of}

-- `contexts` has an object for each pointer below `next`.
pub record Store : Type 0 where
  pub contexts : ℕ → BuildContext
  pub next : ℕ
  pub table : List (String × ℕ)

abbrev pub write : (ℕ → BuildContext) → ℕ → BuildContext → ℕ → BuildContext
write contexts p b q = if eqb p q then b else contexts q

-- A new context, and its goroutine with it.
abbrev pub launched : CliApp → Store → Answer String × Store
launched app s =
    let b = new_context app in
    (
      answer_of b,
      record {
        contexts = write s.contexts s.next b;
        next = suc s.next;
        table = insert app.name s.next s.table;
      },
    )

-- testImage
unfoldable pub poll : CliApp → Store → Answer String × Store
poll app s = elim (lookup app.name s.table) [
  | some p ↦ (if (s.contexts p).done then (answer_of (s.contexts p), s) else launched app s)
  | none ↦ launched app s
]

-- cancel
unfoldable pub drop : CliApp → Store → Store
drop app s = elim (lookup app.name s.table) [
  | some p ↦ record s {
    contexts = write s.contexts p (fallback (s.contexts p));
    table = delete app.name s.table;
  }
  | none ↦ s
]

-- The goroutine of the build at `p` comes to its end, which it does once.
unfoldable pub run_out : Env → ℕ → Store → Store
run_out env p s =
    if ltb p s.next && not (s.contexts p).done
    then record s { contexts = write s.contexts p (start env (s.contexts p)) }
    else s

-- What happens to the builds, in order.
pub data Event : Type 0 where
  polls : CliApp → Event
  drops : CliApp → Event
  runs_out : Env → ℕ → Event

pub record Ran : Type 0 where
  pub answers : List (Answer String)
  pub store : Store

abbrev pub answered : Answer String → Ran → Ran
answered a r = record r { answers = a ∷ r.answers }

-- The answers of the polls, and the store at the end.
unfoldable pub run_builds : List Event → Store → Ran
run_builds [] s = record { answers = []; store = s }
run_builds (polls app ∷ es) s = answered (poll app s).0 (run_builds es (poll app s).1)
run_builds (drops app ∷ es) s = run_builds es (drop app s)
run_builds (runs_out env p ∷ es) s = run_builds es (run_out env p s)

-- The table as a pass of the reconciler sees it.
abbrev pub view_entries : (ℕ → BuildContext) → List (String × ℕ) → List (String × BuildContext)
view_entries contexts [] = []
view_entries contexts ((name, p) ∷ others) = (name, contexts p) ∷ view_entries contexts others

abbrev pub view : Store → List (String × BuildContext)
view s = view_entries s.contexts s.table
