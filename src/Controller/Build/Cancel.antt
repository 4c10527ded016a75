-- ===== src/Controller/Build/Cancel.antt =====
-- cancel (controllers/cliapp_build.go).
use cliapp.Base.{
  ◌≡◌, refl, ◌≢◌, none, some, ◌∷◌, String, lookup, delete, lookup-delete, arith, eq_iff,
  Option-cases, inl, inr,
}
use cliapp.Controller.State.{BuildContext, State, returns, cancel_build}
use cliapp.Controller.Calls.{logged}
use cliapp.Controller.Build.{fallback, entries, cancel}

-- It always returns, holding the same app.
pub cancel-returns : (s : State) → (t : State) × (cancel s ≡ returns tt t) × (t.app ≡ s.app)
unfolding cancel
cancel-returns s = elim (Option-cases (lookup s.app.name (entries s.app_map))) [
  | inl e ↦ (s, ground arith, refl)
  | inr (b, e) ↦ (
    logged (cancel_build (fallback b))
        (record s { app_map = some (delete s.app.name (entries s.app_map)) }),
    ground arith,
    refl,
  )
]

-- A build of the app is cancelled, and that is the only call made; the map has no entry of the app
-- then, and the others as before.
cancel_found :
    (s : State) (b : BuildContext)
    → lookup s.app.name (entries s.app_map) ≡ some b
    → (t : State) × (cancel s ≡ returns tt t)
      × (t.log ≡ cancel_build (fallback b) ∷ s.log)
      × (lookup s.app.name (entries t.app_map) ≡ none)
      × ((k : String)
          → k ≢ s.app.name
          → lookup k (entries t.app_map) ≡ lookup k (entries s.app_map))
unfolding cancel
cancel_found s b e = (
  logged (cancel_build (fallback b))
      (record s { app_map = some (delete s.app.name (entries s.app_map)) }),
  ground arith,
  refl,
  ground (
    arith,
    lookup-delete s.app.name s.app.name (entries s.app_map),
    eq_iff s.app.name s.app.name,
  ),
  λ k ne. ground (arith, lookup-delete s.app.name k (entries s.app_map), eq_iff s.app.name k),
)
