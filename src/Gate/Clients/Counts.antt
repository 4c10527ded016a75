-- ===== src/Gate/Clients/Counts.antt =====
-- The clients of a session (pkg/gate/session.go) and their count, when an attempt of one of them ends.
use cliapp.Base.{ℕ, zero, suc, ◌+◌, ◌<◌, ◌≡◌, ◌⊎◌, inl, some, List, [], ◌∷◌, arith, get_elem?, set}
use cliapp.Gate.Session.{
  AppSession, Attempt, done, crash, Closing, stays, last, begin_close, remote_open, remote_close,
}
use cliapp.Gate.Session.Outgoing.{IsTidy, Does}
use cliapp.Gate.Clients.{
  Stage, outside, asking, waits, inside, closing, drains, gone, Change, House, Next, goes, crashes,
  asked, leaves, closed,
}

-- A client counts from its first step in open to its first step in close.
abbrev weight : Stage → ℕ
weight outside = 0
weight closing = 0
weight (drains id) = 0
weight gone = 0
weight stage = 1

abbrev pub present : List Stage → ℕ
present [] = 0
present (c ∷ cs) = weight c + present cs

present-set :
    (cs : List Stage) (i : ℕ) (c d : Stage)
    → get_elem? cs i ≡ some c
    → present (set cs i d) + weight c ≡ present cs + weight d
present-set [] i c d h = ground arith
present-set (x ∷ xs) zero c d h = ground arith
present-set (x ∷ xs) (suc i) c d h = omega (arith, present-set xs i c d h)

-- The session is tidy, and its count is that of the clients.
pub record IsSound (h : House) : Type 0 where
  pub tidy : IsTidy h.session
  pub counts : h.session.active_count ≡ present h.clients

-- Without a crash the house stays sound; a crash has one of two reasons.
abbrev pub IsSoundAfter : Next → Type 0
IsSoundAfter (goes h) = IsSound h
IsSoundAfter (crashes w) = (w ≡ "try to close an app more than once") ⊎ (w ≡ "t.app != nil")

-- Client `i` goes from a stage to another of the same weight, and the count is kept.
pub at_stage :
    (h : House) (i : ℕ) (c d : Stage) (t : AppSession) (changes : List Change)
    → get_elem? h.clients i ≡ some c
    → IsSound h
    → IsTidy t
    → t.active_count + weight c ≡ h.session.active_count + weight d
    → IsSound (record h { session = t; clients = set h.clients i d; changes = changes })
at_stage h i c d t changes e s tidy n = record {
  tidy = tidy;
  counts = omega (arith, present-set h.clients i c d e, s.counts);
}

pub asked-IsSoundAfter :
    (h : House) (i : ℕ) (a : Attempt ℕ)
    → get_elem? h.clients i ≡ some asking
    → IsSound h
    → Does a (λ id u. IsTidy u × (u.active_count ≡ h.session.active_count))
    → IsSoundAfter (asked i h a)
asked-IsSoundAfter h i (crash w) e s d = absurd d
asked-IsSoundAfter h i (done id u) e s (tidy, n) =
    at_stage h i asking (waits id) u _ e s tidy (omega (arith, n))

pub remote_open-keeps :
    (t : AppSession)
    → IsTidy t
    → Does (remote_open t) (λ id u. IsTidy u × (u.active_count ≡ t.active_count))
unfolding remote_open
remote_open-keeps t h = ground arith

-- remoteClose in a tidy session
abbrev ClosesTidily : AppSession → Attempt ℕ → Type 0
ClosesTidily t (done id u) = IsTidy u × (u.active_count ≡ t.active_count)
ClosesTidily t (crash w) = w ≡ "try to close an app more than once"

pub remote_close-ClosesTidily : (t : AppSession) → IsTidy t → ClosesTidily t (remote_close t)
unfolding remote_close
remote_close-ClosesTidily t h = ground arith

pub closed-IsSoundAfter :
    (h : House) (i : ℕ) (a : Attempt ℕ)
    → get_elem? h.clients i ≡ some closing
    → IsSound h
    → ClosesTidily h.session a
    → IsSoundAfter (closed i h a)
closed-IsSoundAfter h i (crash w) e s d = inl d
closed-IsSoundAfter h i (done id u) e s (tidy, n) =
    at_stage h i closing (drains id) u _ e s tidy (omega (arith, n))

pub present-pos : (cs : List Stage) (i : ℕ) → get_elem? cs i ≡ some inside → 0 < present cs
present-pos [] i h = ground arith
present-pos (x ∷ xs) zero h = ground arith
present-pos (x ∷ xs) (suc i) h = omega (arith, present-pos xs i h)

-- close up to remoteClose, of a client that is there
abbrev LeavesTidily : AppSession → Attempt Closing → Type 0
LeavesTidily t (done c u) = IsTidy u × (u.active_count + 1 ≡ t.active_count)
LeavesTidily t (crash w) = ⊥

pub begin_close-LeavesTidily :
    (t : AppSession) → IsTidy t → 0 < t.active_count → LeavesTidily t (begin_close t)
unfolding begin_close
begin_close-LeavesTidily t h p = ground arith

pub leaves-IsSoundAfter :
    (h : House) (i : ℕ) (a : Attempt Closing)
    → get_elem? h.clients i ≡ some inside
    → IsSound h
    → LeavesTidily h.session a
    → IsSoundAfter (leaves i h a)
leaves-IsSoundAfter h i (crash w) e s d = absurd d
leaves-IsSoundAfter h i (done stays u) e s (tidy, n) =
    at_stage h i inside gone u h.changes e s tidy (omega (arith, n))
leaves-IsSoundAfter h i (done last u) e s (tidy, n) =
    at_stage h i inside closing u h.changes e s tidy (omega (arith, n))
