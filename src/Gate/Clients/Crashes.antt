-- ===== src/Gate/Clients/Crashes.antt =====
-- Where a session (pkg/gate/session.go) can crash when its clients' steps fall between each other.
use cliapp.Base.{
  ℕ, zero, suc, ◌+◌, ◌≡◌, refl, sym, ◌∙◌, inl, inr, Option, none, some, List, [], ◌∷◌, arith,
  get_elem?, set, Bool-cases,
}
use cliapp.Api.{CliApp}
use cliapp.Gate.Session.{
  AppSession, new_session, Opening, opening, begin_open, begin_close, remote_open, remote_close,
  apply_open, finish_changes,
}
use cliapp.Gate.Session.Outgoing.{IsTidy, new_session-IsTidy, finish_changes-IsTidy}
use cliapp.Gate.Clients.{
  Stage, outside, counted, asking, waits, inside, closing, drains, gone, Progress, opens, closes,
  finishes, over, Change, House, Next, goes, crashes, contains, chosen, client_step, change_step,
  came_up, Turn, client, change, take_turn, run_house, outsiders, new_house,
}
use cliapp.Gate.Clients.Counts.{
  IsSound, IsSoundAfter, asked-IsSoundAfter, at_stage, begin_close-LeavesTidily,
  closed-IsSoundAfter, leaves-IsSoundAfter, present, present-pos, remote_close-ClosesTidily,
  remote_open-keeps,
}

begin_open-IsTidy :
    (t : AppSession)
    → IsTidy t
    → IsTidy (begin_open t).1 × ((begin_open t).1.active_count ≡ t.active_count + 1)
unfolding begin_open
begin_open-IsTidy t h = ground arith

chosen-IsSoundAfter :
    (h : House) (i active : ℕ) (o : Opening)
    → get_elem? h.clients i ≡ some (counted active)
    → IsSound h
    → IsSound (record h { clients = set h.clients i (chosen o) })
chosen-IsSoundAfter h i active (Opening.shared app) e s =
    at_stage h i (counted active) inside h.session h.changes e s s.tidy refl
chosen-IsSoundAfter h i active Opening.asks e s =
    at_stage h i (counted active) asking h.session h.changes e s s.tidy refl

client_step-IsSoundAfter :
    (i : ℕ) (c : Stage) (h : House)
    → get_elem? h.clients i ≡ some c
    → IsSound h
    → IsSoundAfter (client_step i c h)
unfolding client_step
client_step-IsSoundAfter i outside h e s =
    let (tidy, n) = begin_open-IsTidy h.session s.tidy in
    at_stage h i outside (counted (h.session.active_count + 1)) (begin_open h.session).1 h.changes e
      s tidy (omega (arith, n))
client_step-IsSoundAfter i (counted active) h e s =
    chosen-IsSoundAfter h i active (opening active h.session.app) e s
client_step-IsSoundAfter i asking h e s =
    asked-IsSoundAfter h i (remote_open h.session) e s (remote_open-keeps h.session s.tidy)
client_step-IsSoundAfter i (waits id) h e s =
    let moved = at_stage h i (waits id) inside h.session h.changes e s s.tidy refl in
    elim (Bool-cases (contains id h.answered)) [ inl b ↦ rw b moved | inr b ↦ rw b s ]
client_step-IsSoundAfter i inside h e s =
    leaves-IsSoundAfter h i (begin_close h.session) e s (
      begin_close-LeavesTidily h.session s.tidy
        (omega (arith, s.counts, present-pos h.clients i e)))
client_step-IsSoundAfter i closing h e s =
    closed-IsSoundAfter h i (remote_close h.session) e s
      (remote_close-ClosesTidily h.session s.tidy)
client_step-IsSoundAfter i (drains id) h e s =
    let moved = at_stage h i (drains id) gone h.session h.changes e s s.tidy refl in
    elim (Bool-cases (contains id h.answered)) [ inl b ↦ rw b moved | inr b ↦ rw b s ]
client_step-IsSoundAfter i gone h e s = s

came_up-IsSoundAfter :
    (k id : ℕ) (app : CliApp) (h : House)
    → IsSound h
    → IsSoundAfter (came_up k id h (apply_open (some app) h.session))
unfolding apply_open
came_up-IsSoundAfter k id app h s = ground arith

finish_changes-count :
    (id : ℕ) (t : AppSession) → (finish_changes id t).active_count ≡ t.active_count
unfolding finish_changes
finish_changes-count id t = ground arith

change_step-IsSoundAfter :
    (k : ℕ) (o : Option CliApp) (id : ℕ) (p : Progress) (h : House)
    → IsSound h
    → IsSoundAfter (change_step k o id p h)
unfolding change_step
change_step-IsSoundAfter k (some app) id opens h s = came_up-IsSoundAfter k id app h s
change_step-IsSoundAfter k (some app) id closes h s = record { tidy = s.tidy; counts = s.counts }
change_step-IsSoundAfter k none id opens h s = record { tidy = s.tidy; counts = s.counts }
change_step-IsSoundAfter k none id closes h s = record { tidy = s.tidy; counts = s.counts }
change_step-IsSoundAfter k o id finishes h s = record {
  tidy = finish_changes-IsTidy id h.session s.tidy;
  counts = finish_changes-count id h.session ∙ s.counts;
}
change_step-IsSoundAfter k o id over h s = s

take_turn-IsSoundAfter : (turn : Turn) (h : House) → IsSound h → IsSoundAfter (take_turn turn h)
unfolding take_turn
take_turn-IsSoundAfter (client i) h s = at (get_elem? h.clients i) refl
  where
    at :
        (c : Option Stage)
        → get_elem? h.clients i ≡ c
        → IsSoundAfter (elim c [ none ↦ goes h | some c ↦ client_step i c h ])
    at none e = s
    at (some c) e = client_step-IsSoundAfter i c h e s
take_turn-IsSoundAfter (change k o) h s = at (get_elem? h.changes k)
  where
    at :
        (c : Option Change)
        → IsSoundAfter (elim c [ none ↦ goes h | some c ↦ change_step k o c.id c.progress h ])
    at none = s
    at (some c) = change_step-IsSoundAfter k o c.id c.progress h s

run_house-IsSoundAfter :
    (turns : List Turn) (h : House) → IsSound h → IsSoundAfter (run_house turns h)
unfolding run_house
run_house-IsSoundAfter [] h s = s
run_house-IsSoundAfter (turn ∷ turns) h s =
    onward (take_turn turn h) (take_turn-IsSoundAfter turn h s) λ u. run_house-IsSoundAfter turns u
  where
    onward :
        (n : Next)
        → IsSoundAfter n
        → ((u : House) → IsSound u → IsSoundAfter (run_house turns u))
        → IsSoundAfter (elim n [ crashes w ↦ crashes w | goes u ↦ run_house turns u ])
    onward (crashes w) a ih = a
    onward (goes u) a ih = ih u a

present-outsiders : (n : ℕ) → present (outsiders n) ≡ 0
present-outsiders zero = refl
present-outsiders (suc n) = omega (arith, present-outsiders n)

-- However many clients of an app open and close it, in whatever order their steps and those of their
-- changes fall between each other, and whatever startApp and closeApp answer: a session crashes
-- only because a close is outgoing where another client closes, or because an opening comes
-- through where the app is there already. Without a crash at most one change is outgoing, a cancel
-- function is there for it, and the count is the number of the clients between open and close.
pub run_house-new : (turns : List Turn) (n : ℕ) → IsSoundAfter (run_house turns (new_house n))
unfolding new_house new_session
run_house-new turns n =
    run_house-IsSoundAfter turns (new_house n)
      (record { tidy = new_session-IsTidy; counts = sym (present-outsiders n) })
