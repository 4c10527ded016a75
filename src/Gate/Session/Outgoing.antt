-- ===== src/Gate/Session/Outgoing.antt =====
-- The fields of appSession (pkg/gate/session.go) that the mutex guards.
use cliapp.Base.{ℕ, ◌<◌, ◌≡◌, ◌≢◌, ◌⊎◌, Option, none, some, String, arith}
use cliapp.Gate.Session.{
  AppSession, Attempt, done, crash, new_session, remote_open, remote_close, finish_changes,
}

abbrev IsBelow : Option ℕ → ℕ → Type 0
IsBelow none n = Unit
IsBelow (some id) n = id < n

-- At most one change is outgoing, and the cancel function is that of its context, or there is none.
pub record IsTidy (t : AppSession) : Type 0 where
  pub one_outgoing : (t.outgoing_open_session ≡ none) ⊎ (t.outgoing_close_session ≡ none)
  pub open_cancel : t.outgoing_open_session ≢ none → t.ctx_cancel ≡ t.outgoing_open_session
  pub close_cancel : t.outgoing_close_session ≢ none → t.ctx_cancel ≡ t.outgoing_close_session
  pub open_below : IsBelow t.outgoing_open_session t.next
  pub close_below : IsBelow t.outgoing_close_session t.next

-- The attempt does not crash, and its answer and its session have the property.
abbrev pub Does : {A : Type 0} → Attempt A → (A → AppSession → Type 0) → Type 0
Does (done a t) P = P a t
Does (crash w) P = ⊥

-- The attempt crashes for the reason, or its answer and its session have the property.
abbrev pub DoesUnless : {A : Type 0} → String → Attempt A → (A → AppSession → Type 0) → Type 0
DoesUnless why (done a t) P = P a t
DoesUnless why (crash w) P = w ≡ why

pub new_session-IsTidy : IsTidy new_session
unfolding new_session
new_session-IsTidy = ground arith

-- remoteOpen does not crash in a tidy session: its test for an outgoing close never fires and the
-- cancel function is there. It leaves a tidy session whose one outgoing change is an opening, the
-- one whose channel is returned, and keeps the count and the app.
pub remote_open-IsTidy :
    (t : AppSession)
    → IsTidy t
    → Does (remote_open t) λ id u.
      IsTidy u
      × (u.outgoing_open_session ≡ some id)
      × (u.outgoing_close_session ≡ none)
      × (u.active_count ≡ t.active_count)
      × (u.app ≡ t.app)
unfolding remote_open
remote_open-IsTidy t h = ground arith

-- remoteClose crashes in a tidy session only where a close is outgoing. Else it leaves a tidy session
-- without the app, whose one outgoing change is the close.
pub remote_close-IsTidy :
    (t : AppSession)
    → IsTidy t
    → t.outgoing_close_session ≡ none
    → Does (remote_close t) λ id u.
      IsTidy u
      × (u.outgoing_open_session ≡ none)
      × (u.outgoing_close_session ≡ some id)
      × (u.active_count ≡ t.active_count)
      × (u.app ≡ none)
unfolding remote_close
remote_close-IsTidy t h c = ground arith

pub finish_changes-IsTidy : (id : ℕ) (t : AppSession) → IsTidy t → IsTidy (finish_changes id t)
unfolding finish_changes
finish_changes-IsTidy id t h = ground arith
