-- ===== src/Gate/Waiting.antt =====
-- The channel of a change (pkg/gate/session.go) and the clients that wait on it: commitChanges sends an
-- error once, and closes the channel. Each client reads the app that the session has when the change ends.
pub mod Laws
use cliapp.Base.{ℕ, zero, suc, Option, none, some, List, [], ◌∷◌, map}
use cliapp.Api.{CliApp}
use cliapp.Controller.Error.{Error}
use cliapp.Controller.State.{Answer, ok, err}
use cliapp.Gate.Session.{AppSession, Attempt, done, crash, apply_open}

-- What `n` clients receive, in the order in which they do. A closed channel gives nil.
pub received : Option Error → (n : ℕ) → List (Option Error)
received x zero = []
received x (suc n) = x ∷ received none n

-- The end of open: the error, if any, and the app of the session then.
abbrev pub answer_of : Option CliApp → Option Error → Answer (Option CliApp)
answer_of app none = ok app
answer_of app (some e) = err e

pub answers : Option Error → ℕ → AppSession → List (Answer (Option CliApp))
unfolding received
answers x n t = map (answer_of t.app) (received x n)

-- commitChanges of an opening up to its deferred function, with what startApp answers and the number of clients that wait.
pub commit_open : Answer CliApp → ℕ → AppSession → Attempt (List (Answer (Option CliApp)))
unfolding answers
commit_open (err e) n t = done (answers (some e) n t) t
commit_open (ok app) n t = elim (apply_open (some app) t) [
  | done _ u ↦ done (answers none n u) u
  | crash why ↦ crash why
]
