-- ===== src/Gate/Races.antt =====
-- Clients that come and go at the same time: the count is changed outside the mutex, so another
-- client's steps can fall between the count and the remote part of open and close (pkg/gate/session.go).
use cliapp.Base.{ℕ, ◌≡◌, ◌≢◌, none, some, List, [], ◌∷◌, arith}
use cliapp.Api.{CliApp}
use cliapp.Gate.Session.{
  AppSession, Attempt, done, crash, asks, begin_open, begin_close, remote_open, remote_close,
  apply_open, finish_changes,
}

-- The steps of the goroutines of clients and changes, in the order in which they run.
pub data Move : Type 0 where
  counts_in counts_out asks_open asks_close : Move
  ends : ℕ → Move
  comes_up : CliApp → Move

abbrev settled : {A : Type 0} → Attempt A → Attempt (Unit {0})
settled (done a t) = done tt t
settled (crash w) = crash w

move : Move → AppSession → Attempt (Unit {0})
move counts_in t = done tt (begin_open t).1
move counts_out t = settled (begin_close t)
move asks_open t = settled (remote_open t)
move asks_close t = settled (remote_close t)
move (ends id) t = done tt (finish_changes id t)
move (comes_up app) t = apply_open (some app) t

pub interleave : List Move → AppSession → Attempt (Unit {0})
unfolding move
interleave [] t = done tt t
interleave (m ∷ ms) t = elim (move m t) [ crash w ↦ crash w | done _ u ↦ interleave ms u ]

-- One client is there, the app is live and nothing is outgoing.
pub record IsQuiet (t : AppSession) : Type 0 where
  pub alone : t.active_count ≡ 1
  pub up : t.app ≢ none
  pub no_open : t.outgoing_open_session ≡ none
  pub no_close : t.outgoing_close_session ≡ none
  pub no_cancel : t.ctx_cancel ≡ none

-- The client leaves, and before its close reaches the mutex another client comes. The close then
-- cancels the opening of the newcomer. When the newcomer leaves with that error, while the close is
-- still outgoing, the gate crashes.
abbrev pub overtaken : ℕ → List Move
overtaken id =
    counts_out ∷ counts_in ∷ asks_open ∷ asks_close ∷ ends id ∷ counts_out ∷ asks_close ∷ []

-- From every quiet session the run in which a newcomer is overtaken by the close of the last client
-- ends in the crash "try to close an app more than once".
pub overtaken_crash :
    (t : AppSession)
    → IsQuiet t
    → interleave (overtaken t.next) t ≡ crash "try to close an app more than once"
unfolding interleave begin_open begin_close remote_open remote_close finish_changes
overtaken_crash t q = ground arith

-- From every quiet session the run in which the newcomer's opening comes through before the close of
-- the last client reaches the mutex ends in the crash "t.app != nil".
too_early_crash :
    (t : AppSession) (app : CliApp)
    → IsQuiet t
    → interleave (counts_out ∷ counts_in ∷ asks_open ∷ comes_up app ∷ []) t ≡ crash "t.app != nil"
unfolding interleave begin_open begin_close remote_open apply_open
too_early_crash t app q = ground arith

-- Nobody is there, and nothing is outgoing.
pub record IsIdle (t : AppSession) : Type 0 where
  pub unused : t.active_count ≡ 0
  pub down : t.app ≡ none
  pub no_open : t.outgoing_open_session ≡ none
  pub no_close : t.outgoing_close_session ≡ none

-- Two clients come and look for the app before it is there. The first one's opening comes through and
-- ends before the second one reaches the mutex, and the opening that this one then starts comes
-- through too.
abbrev pub late : ℕ → CliApp → CliApp → List Move
late id app again =
    counts_in ∷ counts_in ∷ asks_open ∷ comes_up app ∷ ends id ∷ asks_open ∷ comes_up again ∷ []

-- In every idle session open sends each of two clients that come one after the other on to remoteOpen,
-- and the run in which the second one reaches it only behind the end of the first one's opening ends in
-- the crash "t.app != nil", whatever apps startApp comes back with.
pub late_crash :
    (t : AppSession) (app again : CliApp)
    → IsIdle t
    → ((begin_open t).0 ≡ asks)
      × ((begin_open (begin_open t).1).0 ≡ asks)
      × (interleave (late t.next app again) t ≡ crash "t.app != nil")
unfolding interleave begin_open remote_open apply_open finish_changes
late_crash t app again q = ground arith
