-- ===== src/Controller/Build/Shared/Finished.antt =====
-- What testImage (controllers/cliapp_build.go) answers behind the end of a build.
use cliapp.Base.{
  ℕ, ◌≡◌, ◌≢◌, refl, sym, ap, ◌∙◌, true, ◌==◌, some, List, [], ◌∷◌, String, lookup, lookup-insert,
  lookup-delete, Bool-cases, Option-cases, inl, inr, arith, eq_iff,
}
use cliapp.Api.{CliApp}
use cliapp.Controller.State.{BuildContext, Env}
use cliapp.Controller.Build.{answer_of}
use cliapp.Controller.Build.Shared.{
  Store, launched, poll, drop, run_out, Event, polls, drops, runs_out, run_builds,
}
use cliapp.Controller.Build.Shared.Sound.{
  IsSound, lookup-IsBelow, launched-IsSound, drop-IsSound, run_out-IsSound,
}

-- Nobody cancels a build of the name.
abbrev pub IsKept : String → List Event → Type 0
IsKept name [] = Unit
IsKept name (drops app ∷ es) = (app.name ≢ name) × IsKept name es
IsKept name (_ ∷ es) = IsKept name es

-- The build of the name is the one at `p`, which has ended with what `b` holds.
record IsFinished (name : String) (p : ℕ) (b : BuildContext) (s : Store) : Type 0 where
  pub sound : IsSound s
  pub entry : lookup name s.table ≡ some p
  pub kept : s.contexts p ≡ b

module _ (name : String) (p : ℕ) (b : BuildContext) (d : b.done ≡ true) where
  poll-finished :
      (app : CliApp) (s : Store)
      → IsFinished name p b s
      → app.name ≡ name
      → poll app s ≡ (answer_of b, s)
  unfolding poll
  poll-finished app s h n = ground (arith, n, h.entry, h.kept, d)

  launched-IsFinished :
      (app : CliApp) (s : Store)
      → IsFinished name p b s
      → app.name ≢ name
      → IsFinished name p b (launched app s).1
  launched-IsFinished app s h n =
      let (below, named) = lookup-IsBelow s name p s.table h.sound h.entry in
      record {
        sound = launched-IsSound app s h.sound;
        entry =
            ground
              (arith, h.entry, lookup-insert app.name name s.next s.table, eq_iff app.name name);
        kept = ground (arith, h.kept, below);
      }

  poll-IsFinished :
      (app : CliApp) (s : Store) → IsFinished name p b s → IsFinished name p b (poll app s).1
  unfolding poll
  poll-IsFinished app s h = elim (Bool-cases (app.name == name)) [
    | inl e ↦ ground (arith, h, h.entry, h.kept, d, eq_iff app.name name)
    | inr e ↦ ground (arith, h, launched-IsFinished app s h, eq_iff app.name name)
  ]

  drop-IsFinished :
      (app : CliApp) (s : Store)
      → IsFinished name p b s
      → app.name ≢ name
      → IsFinished name p b (drop app s)
  unfolding drop
  drop-IsFinished app s h n = elim (Option-cases (lookup app.name s.table)) [
    | inl e ↦ ground (arith, h)
    | inr (q, e) ↦
        let (below, named) = lookup-IsBelow s name p s.table h.sound h.entry in
        let (under, other) = lookup-IsBelow s app.name q s.table h.sound e in
        let apart : q ≢ p = λ x. n (sym other ∙ ap (λ y. (s.contexts y).name) x ∙ named) in
        record {
          sound = drop-IsSound app s h.sound;
          entry =
              ground (arith, h.entry, lookup-delete app.name name s.table, eq_iff app.name name);
          kept = ground (arith, h.kept, apart);
        }
  ]

  run_out-IsFinished :
      (env : Env) (q : ℕ) (s : Store)
      → IsFinished name p b s
      → IsFinished name p b (run_out env q s)
  unfolding run_out
  run_out-IsFinished env q s h = record {
    sound = run_out-IsSound env q s h.sound;
    entry = ground (arith, h.entry);
    kept = ground (arith, h.kept, d);
  }

  run_builds-IsFinished :
      (es : List Event) (s : Store)
      → IsKept name es
      → IsFinished name p b s
      → IsFinished name p b (run_builds es s).store
  unfolding run_builds
  run_builds-IsFinished [] s k h = h
  run_builds-IsFinished (polls app ∷ es) s k h =
      run_builds-IsFinished es (poll app s).1 k (poll-IsFinished app s h)
  run_builds-IsFinished (drops app ∷ es) s (n, k) h =
      run_builds-IsFinished es (drop app s) k (drop-IsFinished app s h n)
  run_builds-IsFinished (runs_out env q ∷ es) s k h =
      run_builds-IsFinished es (run_out env q s) k (run_out-IsFinished env q s h)

-- Where each entry of the table points to a context of its own name, and a build of a name has ended:
-- behind any polls, ends of builds, and cancellations of builds of other names, a poll for any app of
-- that name, whatever its namespace and Dockerfile, answers the image or the error of that build, and
-- starts nothing.
pub finished-answers :
    (name : String) (p : ℕ) (s : Store) (es : List Event) (app : CliApp)
    → IsSound s
    → lookup name s.table ≡ some p
    → (s.contexts p).done ≡ true
    → IsKept name es
    → app.name ≡ name
    → poll app (run_builds es s).store ≡ (answer_of (s.contexts p), (run_builds es s).store)
finished-answers name p s es app h e d k n =
    poll-finished name p (s.contexts p) d app (run_builds es s).store
      (run_builds-IsFinished name p (s.contexts p) d es s k
        (record { sound = h; entry = e; kept = refl }))
      n
