-- ===== src/Gate/Io/Channels/Along.antt =====
-- What each turn of the goroutines of clientReader (pkg/gate/io.go) leaves true stays true along their
-- turns.
use cliapp.Base.{List, [], ◌∷◌, All}
use cliapp.Gate.Io.Channels.{Trace, Run, runs, crashes, Event, step, run_reader}

-- A run ends in a state with the property, or it crashes where `C` allows it.
abbrev pub Within : (C : Type 0) → (Trace → Type 0) → Run → Type 0
Within C P (runs t) = P t
Within C P crashes = C

abbrev pub IfRuns : (Trace → Type 0) → Run → Type 0
IfRuns P r = Within Unit P r

module _ (C : Type 0) (P : Trace → Type 0) where
  run-Within :
      (r : Run) (f : Trace → Run)
      → Within C P r
      → ((u : Trace) → P u → Within C P (f u))
      → Within C P (elim r [ runs u ↦ f u | crashes ↦ crashes ])
  run-Within (runs u) f h k = k u h
  run-Within crashes f h k = h

  pub run_reader-Within :
      (Q : Event → Type 0)
      → ((e : Event) (t : Trace) → Q e → P t → Within C P (step e t))
      → (es : List Event) (t : Trace) → All Q es
      → P t
      → Within C P (run_reader es t)
  unfolding run_reader
  run_reader-Within Q k [] t q h = h
  run_reader-Within Q k (e ∷ es) t (q, qs) h =
      run-Within (step e t) (run_reader es) (k e t q h) (λ u p. run_reader-Within Q k es u qs p)

-- Where nothing is asked of the turns.
pub any_turns : (es : List Event) → All (λ e. Unit {0}) es
any_turns [] = tt
any_turns (e ∷ es) = (tt, any_turns es)
