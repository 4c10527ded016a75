-- ===== src/System/Course.antt =====
-- An app as its users see it: what is asked for, and how far it is.
use cliapp.Api.{Phase, rest, live, CliApp}
use cliapp.Controller.Phases.{Edge}

pub record Course : Type 0 where
  pub target : Phase
  pub phase : Phase

abbrev pub course : CliApp → Course
course app = record { target = app.spec.target_phase; phase = app.status.phase }

-- A turn asks for Live or for Rest and leaves the phase, or goes along one edge towards the target.
pub data Turn : Course → Course → Type 0 where
  ask_live : {c : Course} → Turn c (record c { target = live })
  ask_rest : {c : Course} → Turn c (record c { target = rest })
  go : {c : Course} {p : Phase} → Edge c.target c.phase p → Turn c (record c { phase = p })

pub data Turns : Course → Course → Type 0 where
  stay : {c : Course} → Turns c c
  turn : {a b c : Course} → Turn a b → Turns b c → Turns a c
