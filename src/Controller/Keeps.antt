-- ===== src/Controller/Keeps.antt =====
-- Steps that leave the app as it is, here and on the API server, and steps that only read.
use cliapp.Base.{◌≡◌, ◌∙◌, ◌∷◌, All, arith}
use cliapp.Controller.State.{
  Call, update_status, update_app, create_pod, delete_pod, delete_app, History, State, M, ◌>>=◌,
  after, after-bind, Outcome, returns, panics, Answer, ok, err,
}

-- A call that does not update the app.
abbrev pub IsQuiet : Call → Type 0
IsQuiet (update_status app) = ⊥
IsQuiet (update_app app) = ⊥
IsQuiet call = Unit

-- A call that changes neither the app nor a Pod.
abbrev pub IsReading : Call → Type 0
IsReading (update_status app) = ⊥
IsReading (update_app app) = ⊥
IsReading (delete_app app) = ⊥
IsReading (create_pod pod) = ⊥
IsReading (delete_pod namespace name) = ⊥
IsReading call = Unit

-- Calls of a kind on top of a log
pub data Onto (Q : Call → Type 0) (log : History) : History → Type 0 where
  same : Onto Q log log
  more : {call : Call} {h : History} → Q call → Onto Q log h → Onto Q log (call ∷ h)

pub Onto-trans : {Q : Call → Type 0} {f g h : History} → Onto Q f g → Onto Q g h → Onto Q f h
Onto-trans a same = a
Onto-trans a (more q b) = more q (Onto-trans a b)

-- What holds of the calls and of a log holds of the calls on top of it.
pub Onto-All :
    {P Q : Call → Type 0} {log h : History}
    → ((call : Call) → Q call → P call)
    → Onto Q log h
    → All P log
    → All P h
Onto-All k same a = a
Onto-All k (more {call = call} q b) a = (k call q, Onto-All k b a)

pub Onto-mono :
    {P Q : Call → Type 0} {log h : History}
    → ((call : Call) → Q call → P call)
    → Onto Q log h
    → Onto P log h
Onto-mono k same = same
Onto-mono k (more {call = call} q b) = more (k call q) (Onto-mono k b)

abbrev pub KeepsTo : (Call → Type 0) → State → State → Type 0
KeepsTo Q s t = (t.app ≡ s.app) × Onto Q s.log t.log

abbrev pub KeepsBy : {A : Type 0} → (Call → Type 0) → M A → Type 0
KeepsBy Q m = (s : State) → KeepsTo Q s (after (m s))

abbrev pub Keeps : {A : Type 0} → M A → Type 0
Keeps m = KeepsBy IsQuiet m

abbrev pub Reads : {A : Type 0} → M A → Type 0
Reads m = KeepsBy IsReading m

pub Keeps-bind :
    {Q : Call → Type 0} {A B : Type 0} (m : M A) (f : A → M B)
    → KeepsBy Q m
    → ((a : A) → KeepsBy Q (f a))
    → KeepsBy Q (m >>= f)
Keeps-bind {Q} m f h k s =
    after-bind (KeepsTo Q s) m f s (h s) (λ a t e. ((k a t).0 ∙ e.0, Onto-trans e.1 (k a t).1))

-- A call, and the calls on top of it
pub Onto-behind :
    {Q : Call → Type 0} {call : Call} {log h : History}
    → Q call
    → Onto Q (call ∷ log) h
    → Onto Q log h
Onto-behind q o = Onto-trans (more q same) o

pub Reads-Keeps : {A : Type 0} (m : M A) → Reads m → Keeps m
Reads-Keeps m k s = ((k s).0, Onto-mono quiet (k s).1)
  where
    quiet : (call : Call) → IsReading call → IsQuiet call
    quiet call q = ground arith

-- Where the outcome is a result, it has the property.
abbrev pub Yields : {A : Type 0} → (A → Type 0) → Outcome A → Type 0
Yields P (returns a t) = P a
Yields P (panics w t) = Unit

abbrev pub IfOk : {A : Type 0} → (A → Type 0) → Answer A → Type 0
IfOk P (ok a) = P a
IfOk P (err e) = Unit

pub Yields-bind :
    {A B : Type 0} (P : B → Type 0) (m : M A) (f : A → M B) (s : State)
    → ((a : A) (t : State) → Yields P (f a t))
    → Yields P ((m >>= f) s)
Yields-bind P m f s k = at (m s)
  where
    at : (o : Outcome _) → Yields P (elim o [ returns a t ↦ f a t | panics w t ↦ panics w t ])
    at (returns a t) = k a t
    at (panics w t) = tt

-- A step that only reads and whose result has a property, and a step behind it
pub Onto-bind :
    {Q : Call → Type 0} {A B : Type 0} (P : A → Type 0) (m : M A) (f : A → M B) (s : State)
    → ((call : Call) → IsReading call → Q call)
    → Yields P (m s)
    → KeepsTo IsReading s (after (m s))
    → ((a : A) (t : State) → P a → t.app ≡ s.app → Onto Q t.log (after (f a t)).log)
    → Onto Q s.log (after ((m >>= f) s)).log
Onto-bind {Q} P m f s q y k n = at (m s) y k
  where
    at :
        (o : Outcome _)
        → Yields P o
        → KeepsTo IsReading s (after o)
        → Onto Q s.log (after (elim o [ returns a t ↦ f a t | panics w t ↦ panics w t ])).log
    at (returns a t) p (e, o) = Onto-trans (Onto-mono q o) (n a t p e)
    at (panics w t) p (e, o) = Onto-mono q o
