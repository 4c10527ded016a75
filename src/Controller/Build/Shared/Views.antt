-- ===== src/Controller/Build/Shared/Views.antt =====
-- The shared contexts against the table of values that Controller.Build works on.
use cliapp.Base.{
  ℕ, ◌<◌, ◌≡◌, ◌≢◌, ◌⊎◌, refl, sym, ap, ◌∙◌, eqb, false, not, ◌&&◌, ltb, Option, none, some, List,
  [], String, All, All-mono, lookup, insert, delete, Bool-cases, Option-cases, inl, inr, arith,
}
use cliapp.Controller.State.{BuildContext, Env, State, returns, start_build, cancel_build}
use cliapp.Controller.Build.{start, fallback, new_context, entries, test_image, cancel}
use cliapp.Controller.Calls.{logged}
use cliapp.Controller.Build.Shared.{
  Store, write, poll, drop, run_out, Event, run_builds, view_entries, view,
}
use cliapp.Controller.Build.Shared.Sound.{
  All-delete, IsEntryOf, IsSound, delete-view, launched-view, lookup-IsBelow, lookup-view,
  run_builds-IsSound, view-write,
}

module _ (s : Store) (h : IsSound s) (st : State) (m : st.app_map ≡ some (view s)) where
  started : State
  started =
      logged (start_build (new_context st.app))
        (record st { app_map = some (insert st.app.name (new_context st.app) (view s)) })

  seen :
      lookup st.app.name (entries st.app_map)
      ≡ elim (lookup st.app.name s.table) [ none ↦ none | some p ↦ some (s.contexts p) ]
  seen = ap (λ o. lookup st.app.name (entries o)) m ∙ lookup-view s.contexts st.app.name s.table

  abbrev Polled : Type 0
  Polled =
      (u : State) × (test_image st ≡ returns (poll st.app s).0 u)
      × (u.app_map ≡ some (view (poll st.app s).1))
      × (u.app ≡ st.app)

  poll-test_image : Polled
  unfolding poll test_image started
  poll-test_image = elim (Option-cases (lookup st.app.name s.table)) [
    | inl e ↦ (started, ground (arith, seen), ground (arith, launched-view st.app s h), refl)
    | inr (p, e) ↦ elim (Bool-cases (s.contexts p).done) [
      | inl b ↦ (st, ground (arith, seen), ground arith, refl)
      | inr b ↦ (started, ground (arith, seen), ground (arith, launched-view st.app s h), refl)
    ]
  ]

  abbrev Dropped : Type 0
  Dropped =
      (u : State) × (cancel st ≡ returns tt u)
      × (u.app_map ≡ some (view (drop st.app s)))
      × (u.app ≡ st.app)

  -- No other entry points to the context of an app.
  alone :
      (p : ℕ)
      → lookup st.app.name s.table ≡ some p
      → All (λ e. e.1 ≢ p) (delete st.app.name s.table)
  alone p e =
      All-mono (λ (x : String × ℕ) (k : IsEntryOf s x × (x.0 ≢ st.app.name)). apart x.0 x.1 k)
        (delete st.app.name s.table) (All-delete (IsEntryOf s) st.app.name s.table h)
    where
      apart :
          (name : String) (q : ℕ)
          → ((q < s.next) × ((s.contexts q).name ≡ name)) × (name ≢ st.app.name)
          → q ≢ p
      apart name q k x = k.1 (
          sym k.0.1
          ∙ ap (λ y. (s.contexts y).name) x
          ∙ (lookup-IsBelow s st.app.name p s.table h e).1)

  drop-cancel : Dropped
  unfolding drop cancel
  drop-cancel = elim (Option-cases (lookup st.app.name s.table)) [
    | inl e ↦ (st, ground (arith, seen), ground arith, refl)
    | inr (p, e) ↦ (
      logged (cancel_build (fallback (s.contexts p)))
          (record st { app_map = some (delete st.app.name (view s)) }),
      ground (arith, seen),
      ground (
        arith,
        view-write s.contexts p (fallback (s.contexts p)) (delete st.app.name s.table) (alone p e),
        delete-view s.contexts st.app.name s.table,
      ),
      refl,
    )
  ]

-- The entry of each name stays, or was unfinished and is now what its build comes to.
abbrev Finishes : Env → Option BuildContext → Option BuildContext → Type 0
Finishes env before after =
    (after ≡ before)
    ⊎ ((b : BuildContext) × (before ≡ some b) × (b.done ≡ false) × (after ≡ some (start env b)))

write-Finishes :
    (env : Env) (p : ℕ) (s : Store) (name : String)
    → (s.contexts p).done ≡ false
    → Finishes env
        (lookup name (view s))
        (lookup name (view_entries (write s.contexts p (start env (s.contexts p))) s.table))
write-Finishes env p s name d = elim (Option-cases (lookup name s.table)) [
  | inl e ↦ inl (
      lookup-view (write s.contexts p (start env (s.contexts p))) name s.table
      ∙ ground arith
      ∙ sym (lookup-view s.contexts name s.table))
  | inr (q, e) ↦ elim (Bool-cases (eqb p q)) [
    | inl b ↦ inr (
      s.contexts p,
      ground (arith, lookup-view s.contexts name s.table),
      d,
      ground (arith, lookup-view (write s.contexts p (start env (s.contexts p))) name s.table),
    )
    | inr b ↦ inl (
        ground (
          arith,
          lookup-view s.contexts name s.table,
          lookup-view (write s.contexts p (start env (s.contexts p))) name s.table,
        ))
  ]
]

run_out-Finishes :
    (env : Env) (p : ℕ) (s : Store) (name : String)
    → Finishes env (lookup name (view s)) (lookup name (view (run_out env p s)))
unfolding run_out
run_out-Finishes env p s name = elim (Bool-cases (ltb p s.next && not (s.contexts p).done)) [
  | inl b ↦ rw b (write-Finishes env p s name (ground arith))
  | inr b ↦ rw b (inl refl)
]

abbrev no_builds : (ℕ → BuildContext) → Store
no_builds contexts = record { contexts = contexts; next = 0; table = [] }

-- What a pass makes of the builds, by testImage and by cancel, and what the end of a build makes of them
abbrev Refines : Store → State → Type 0
Refines s st =
    ((u : State) × (test_image st ≡ returns (poll st.app s).0 u)
      × (u.app_map ≡ some (view (poll st.app s).1))
      × (u.app ≡ st.app))
    × ((u : State) × (cancel st ≡ returns tt u)
        × (u.app_map ≡ some (view (drop st.app s)))
        × (u.app ≡ st.app))
    × ((env : Env) (p : ℕ) (name : String)
        → Finishes env (lookup name (view s)) (lookup name (view (run_out env p s))))

-- The contexts that the table shares with the goroutines of the builds behave as the table of values of
-- a pass: after any polls, cancellations and ends of builds, testImage and cancel on the values that
-- the table shows answer what they do on the shared contexts and leave the values that these show
-- then; the end of a build changes no entry but that of an unfinished build, which becomes what
-- the build comes to.
run_builds-Refines :
    (contexts : ℕ → BuildContext) (es : List Event) (st : State)
    → st.app_map ≡ some (view (run_builds es (no_builds contexts)).store)
    → Refines (run_builds es (no_builds contexts)).store st
run_builds-Refines contexts es st m =
    let s = (run_builds es (no_builds contexts)).store in
    let h = run_builds-IsSound es (no_builds contexts) tt in
    (poll-test_image s h st m, drop-cancel s h st m, λ env p name. run_out-Finishes env p s name)
