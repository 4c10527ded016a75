-- ===== src/Gate/Clients.antt =====
-- Any number of clients of one app and the goroutines of their changes, whose steps fall between each
-- other in any order (open, close and commitChanges of pkg/gate/session.go with OpenShell of
-- pkg/gate/gate.go). A step is an atomic operation, a read of the app, or what the mutex holds together.
pub mod Counts
pub mod Crashes
use cliapp.Base.{
  ℕ, zero, suc, ◌+◌, ltb, eqb, Bool, true, false, ◌||◌, Option, none, some, List, [], ◌∷◌, ◌++◌,
  String, get_elem?, set, if◌then◌else◌,
}
use cliapp.Api.{CliApp}
use cliapp.Gate.Session.{
  AppSession, Attempt, done, crash, new_session, Opening, shared, asks, opening, begin_open,
  Closing, stays, last, begin_close, remote_open, remote_close, apply_open, finish_changes,
}

-- Where a client is in OpenShell: before open; behind the count, with its result; on the way to
-- remoteOpen; waiting on the channel of a change; in the shell, or on its way out with an error; on
-- the way to remoteClose; waiting for the close; out.
pub data Stage : Type 0 where
  outside : Stage
  counted : ℕ → Stage
  asking : Stage
  waits : ℕ → Stage
  inside : Stage
  closing : Stage
  drains : ℕ → Stage
  gone : Stage

-- Where commitChanges is: before the end of ApplyChanges, before its deferred function, at its end.
pub data Progress : Type 0 where
  opens closes finishes over : Progress

pub record Change : Type 0 where
  pub id : ℕ
  pub progress : Progress

-- `answered` has the changes whose channel gives something: an error, or nil once it is closed.
pub record House : Type 0 where
  pub session : AppSession
  pub clients : List Stage
  pub changes : List Change
  pub answered : List ℕ

pub data Next : Type 0 where
  goes : House → Next
  crashes : String → Next

pub contains : ℕ → List ℕ → Bool
contains id [] = false
contains id (x ∷ xs) = eqb x id || contains id xs

abbrev moves_to : ℕ → Stage → AppSession → House → House
moves_to i c t h = record h { session = t; clients = set h.clients i c }

-- `go t.commitChanges(…)`, where the session has made a new change
abbrev spawned : AppSession → AppSession → ℕ → Progress → List Change → List Change
spawned t u id p changes =
    if ltb t.next u.next then changes ++ record { id = id; progress = p } ∷ [] else changes

abbrev asked : ℕ → House → Attempt ℕ → Next
asked i h (crash w) = crashes w
asked i h (done id u) =
    goes (record (moves_to i (waits id) u h) { changes = spawned h.session u id opens h.changes })

abbrev leaves : ℕ → House → Attempt Closing → Next
leaves i h (crash w) = crashes w
leaves i h (done stays u) = goes (moves_to i gone u h)
leaves i h (done last u) = goes (moves_to i closing u h)

abbrev closed : ℕ → House → Attempt ℕ → Next
closed i h (crash w) = crashes w
closed i h (done id u) =
    goes (record (moves_to i (drains id) u h) { changes = spawned h.session u id closes h.changes })

abbrev chosen : Opening → Stage
chosen (shared app) = inside
chosen asks = asking

-- A step of client `i`, who is at a stage, as far as open and close go. One that waits for an answer that
-- is not there stays. A client whose open has come back goes on to close, whatever open answered: what
-- attach does in between, a crash on a nil app included, is Gate.Shell's and Gate.Waiting's. The two
-- reads of `t.app` in open are one: between them the session does not depend on what is read.
client_step : ℕ → Stage → House → Next
unfolding contains
client_step i outside h =
    goes (moves_to i (counted (h.session.active_count + 1)) (begin_open h.session).1 h)
client_step i (counted active) h =
    goes (moves_to i (chosen (opening active h.session.app)) h.session h)
client_step i asking h = asked i h (remote_open h.session)
client_step i (waits id) h =
    goes (if contains id h.answered then moves_to i inside h.session h else h)
client_step i inside h = leaves i h (begin_close h.session)
client_step i closing h = closed i h (remote_close h.session)
client_step i (drains id) h =
    goes (if contains id h.answered then moves_to i gone h.session h else h)
client_step i gone h = goes h

abbrev advances : ℕ → ℕ → Progress → House → House
advances k id p h = record h { changes = set h.changes k (record { id = id; progress = p }) }

abbrev told : ℕ → House → House
told id h = record h { answered = id ∷ h.answered }

abbrev came_up : ℕ → ℕ → House → Attempt (Unit {0}) → Next
came_up k id h (crash w) = crashes w
came_up k id h (done _ u) = goes (advances k id finishes (record h { session = u }))

-- A step of the goroutine of change `k`: startApp or closeApp comes back, with an app or with an error
-- (`none`), which it sends; the deferred function runs, and the channel is closed. An error is
-- taken to find a receiver at once.
change_step : ℕ → Option CliApp → ℕ → Progress → House → Next
change_step k (some app) id opens h = came_up k id h (apply_open (some app) h.session)
change_step k (some app) id closes h = goes (advances k id finishes h)
change_step k none id opens h = goes (told id (advances k id finishes h))
change_step k none id closes h = goes (told id (advances k id finishes h))
change_step k o id finishes h =
    goes (told id (advances k id over (record h { session = finish_changes id h.session })))
change_step k o id over h = goes h

-- Who runs next. The answer of startApp or closeApp matters only where it comes back.
pub data Turn : Type 0 where
  client : ℕ → Turn
  change : ℕ → Option CliApp → Turn

take_turn : Turn → House → Next
unfolding client_step change_step
take_turn (client i) h = elim (get_elem? h.clients i) [ none ↦ goes h | some c ↦ client_step i c h ]
take_turn (change k o) h = elim (get_elem? h.changes k) [
  | none ↦ goes h
  | some c ↦ change_step k o c.id c.progress h
]

pub run_house : List Turn → House → Next
unfolding take_turn
run_house [] h = goes h
run_house (turn ∷ turns) h = elim (take_turn turn h) [
  | crashes w ↦ crashes w
  | goes u ↦ run_house turns u
]

abbrev pub outsiders : ℕ → List Stage
outsiders zero = []
outsiders (suc n) = outside ∷ outsiders n

-- A session that OpenShell has just made, and `n` clients on their way to it.
pub new_house : ℕ → House
unfolding new_session
new_house n = record { session = new_session; clients = outsiders n; changes = []; answered = [] }
