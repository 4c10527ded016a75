-- ===== src/Gate/Session.antt =====
-- appSession (pkg/gate/session.go) under its mutex. A pointer to a RemoteChanges is its number; the
-- list `cancelled` records whose contexts were cancelled.
pub mod Outgoing
use cliapp.Base.{
  ℕ, zero, suc, ◌+◌, ltb, ◌-◌, Bool, true, false, ◌&&◌, ◌||◌, not, Option, none, some, List, [],
  ◌∷◌, String, is_none, if◌then◌else◌, ◌==◌, eqb,
}
use cliapp.Api.{CliApp}
use cliapp.Controller.Error.{Error}

-- `ctx_cancel` is the number of the changes whose context it cancels.
pub record AppSession : Type 0 where
  pub active_count : ℕ
  pub app : Option CliApp
  pub outgoing_open_session : Option ℕ
  pub outgoing_close_session : Option ℕ
  pub ctx_cancel : Option ℕ
  pub next : ℕ
  pub cancelled : List ℕ

pub data Attempt (A : Type 0) : Type 0 where
  done : A → AppSession → Attempt A
  crash : String → Attempt A

unfoldable pub new_session : AppSession
new_session = record {
  active_count = 0;
  app = none;
  outgoing_open_session = none;
  outgoing_close_session = none;
  ctx_cancel = none;
  next = 0;
  cancelled = [];
}

-- How open goes on behind the count: with the app that is there, or by a remote change.
pub data Opening : Type 0 where
  shared : CliApp → Opening
  asks : Opening

abbrev pub opening : ℕ → Option CliApp → Opening
opening active (some app) = if ltb 1 active then shared app else asks
opening active none = asks

-- open up to remoteOpen. The count is 32 bits wide, which is never reached: it counts the clients.
unfoldable pub begin_open : AppSession → Opening × AppSession
begin_open t =
    let active = t.active_count + 1 in (opening active t.app, record t { active_count = active })

-- `t.ctxCancel()`: a call of a nil function is a crash.
cancel_outgoing : AppSession → (AppSession → Attempt ℕ) → Attempt ℕ
cancel_outgoing t k = elim t.ctx_cancel [
  | none ↦ crash "call of a nil function"
  | some id ↦ k (record t { cancelled = id ∷ t.cancelled; ctx_cancel = none })
]

-- A new RemoteChanges with a context of its own; its number stands for its channel too.
abbrev start_open : AppSession → Attempt ℕ
start_open t =
    done t.next (record t {
      outgoing_open_session = some t.next;
      ctx_cancel = some t.next;
      next = suc t.next;
    })

abbrev start_close : AppSession → Attempt ℕ
start_close t = done t.next (record t {
  app = none;
  outgoing_close_session = some t.next;
  ctx_cancel = some t.next;
  next = suc t.next;
})

-- remoteOpen: the change whose channel the caller waits on.
unfoldable pub remote_open : AppSession → Attempt ℕ
unfolding cancel_outgoing
remote_open t = elim t.outgoing_open_session [
  | some id ↦
      if is_none t.outgoing_close_session then done id t else crash "t.outgoingCloseSession != nil"
  | none ↦
      if is_none t.outgoing_close_session
      then start_open t
      else cancel_outgoing t λ u. start_open (record u { outgoing_close_session = none })
]

-- remoteClose
unfoldable pub remote_close : AppSession → Attempt ℕ
unfolding cancel_outgoing
remote_close t =
    if not (is_none t.outgoing_close_session)
    then crash "try to close an app more than once"
    else if is_none t.outgoing_open_session
    then start_close t
    else cancel_outgoing t λ u. start_close (record u { outgoing_open_session = none })

-- How close goes on behind the count: others are still there, or the app is closed.
pub data Closing : Type 0 where
  stays last : Closing

-- close up to remoteClose; the count below zero is a crash.
unfoldable pub begin_close : AppSession → Attempt Closing
begin_close t =
    if ltb 0 t.active_count
    then done (if ltb 1 t.active_count then stays else last)
        (record t { active_count = t.active_count - 1 })
    else crash "t.app.Name"

-- The end of the ApplyChanges of an opening, with what startApp answers.
unfoldable pub apply_open : Option CliApp → AppSession → Attempt (Unit {0})
apply_open none t = done tt t
apply_open (some app) t =
    if is_none t.app then done tt (record t { app = some app }) else crash "t.app != nil"

abbrev pub is_id : ℕ → Option ℕ → Bool
is_id id none = false
is_id id (some n) = eqb n id

-- The deferred function of commitChanges: the context is cancelled, and the session forgets the
-- change if it is the present one.
unfoldable pub finish_changes : ℕ → AppSession → AppSession
finish_changes id t =
    let u = record t { cancelled = id ∷ t.cancelled } in
    if is_id id t.outgoing_open_session || is_id id t.outgoing_close_session
    then record u { outgoing_open_session = none; outgoing_close_session = none; ctx_cancel = none }
    else u
