-- ===== src/Controller/Phases.antt =====
-- The phases of an app as a graph: the transitions that controllers/ makes, by the target phase.
use cliapp.Base.{ℕ, ◌<◌, ◌≡◌, refl, ◌⊎◌, ◌≢◌, String, arith}
use cliapp.Api.{Phase, rest, recovering, building, live, waiting_for_sessions, shutting_down, other}

pub data Edge : Phase → Phase → Phase → Type 0 where
  idle : Edge rest live waiting_for_sessions
  uninstall : Edge rest live shutting_down
  expire : Edge rest waiting_for_sessions shutting_down
  abort : Edge rest recovering shutting_down
  discard : Edge rest Phase.unset shutting_down
  stop_build : Edge rest building shutting_down
  settle : Edge rest shutting_down rest
  build : {p : Phase} → p ≢ building → Edge live p building
  begin : Edge live Phase.unset recovering
  wake : Edge live rest recovering
  resume : Edge live waiting_for_sessions recovering
  revive : Edge live shutting_down recovering
  lose : Edge live live recovering
  come_up : Edge live recovering live
  install : Edge live building recovering

-- At most one transition.
abbrev pub Moves : Phase → Phase → Phase → Type 0
Moves target p q = (q ≡ p) ⊎ Edge target p q

-- Any number of them, towards one target.
pub data PathTo (target : Phase) : Phase → Phase → Type 0 where
  here : {p : Phase} → PathTo target p p
  via : {p q u : Phase} → Edge target p q → PathTo target q u → PathTo target p u

ruleset down = (here, via, idle, uninstall, expire, abort, discard, stop_build, settle)

-- no state is a dead end while the target is Rest
pub to_rest : (p : Phase) → ((s : _) → p ≢ other s) → PathTo rest p rest
to_rest (other s) h = absurd (h s refl)
to_rest rest _ = here
to_rest _ _ = search down

-- How many transitions a phase is away from Rest, at most.
abbrev pub height : Phase → ℕ
height rest = 0
height shutting_down = 1
height live = 3
height (other text) = 0
height p = 2

pub Edge-height : {p q : Phase} → Edge rest p q → height q < height p
Edge-height idle = omega arith
Edge-height uninstall = omega arith
Edge-height expire = omega arith
Edge-height abort = omega arith
Edge-height discard = omega arith
Edge-height stop_build = omega arith
Edge-height settle = omega arith

pub Edge-known : {p q : Phase} → Edge rest p q → (text : String) → q ≢ other text
Edge-known idle text = cc
Edge-known uninstall text = cc
Edge-known expire text = cc
Edge-known abort text = cc
Edge-known discard text = cc
Edge-known stop_build text = cc
Edge-known settle text = cc

-- Rest is entered from ShuttingDown only, with the target Rest.
pub Edge-rest :
    {target p q : Phase} → Edge target p q → q ≡ rest → (target ≡ rest) × (p ≡ shutting_down)
Edge-rest settle e = (refl, refl)
Edge-rest _ e = cc

-- No edge has the target Building.
pub Edge-building : {target p q : Phase} → Edge target p q → target ≢ building
Edge-building settle e = cc
Edge-building _ e = cc

-- WaitingForSessions is not entered from ShuttingDown.
pub Edge-waiting :
    {target p q : Phase} → Edge target p q → q ≡ waiting_for_sessions → p ≢ shutting_down
Edge-waiting idle e = cc
Edge-waiting _ e = cc
