-- ===== src/Gate/Io/Channels/Stuck.antt =====
-- Where clientReader (pkg/gate/io.go) waits for ever.
use cliapp.Base.{ℕ, ◌≡◌, refl, true, Option, List, [], ◌∷◌, String, All, arith}
use cliapp.Gate.Io.Channels.Along.{Within, IfRuns, run_reader-Within, any_turns}
use cliapp.Gate.Io.Channels.{
  offering, Trace, new_reader, advance, finish, take_answer, receive_request, send_size,
  close_reader, begin_next, end_next, try_read, Event, advances, closes, begins_next, ends_next,
  receives, sends, reads_up_to, step, run_reader,
}

-- A turn that is not one of Read.
abbrev pub IsNotRead : Event → Type 0
IsNotRead (reads_up_to size) = ⊥
IsNotRead e = Unit

abbrev pub IsOffering : String → Trace → Type 0
IsOffering text t = t.reader.stage ≡ offering text

step-IsOffering :
    (text : String) (e : Event) (t : Trace)
    → IsNotRead e
    → IsOffering text t
    → Within ⊥ (IsOffering text) (step e t)
unfolding step advance finish receive_request take_answer send_size close_reader begin_next end_next
    try_read
step-IsOffering text advances t c h = ground (arith, h)
step-IsOffering text closes t c h = h
step-IsOffering text begins_next t c h = ground (arith, h)
step-IsOffering text ends_next t c h = ground (arith, h)
step-IsOffering text (receives a) t c h = ground (arith, h)
step-IsOffering text (sends n) t c h = ground (arith, h)
step-IsOffering text (reads_up_to size) t c h = ground (arith, h)

-- A loop that offers a text which nobody reads any more never ends, neither by Close nor by the end of
-- the client's stream.
run_reader-IsOffering :
    (text : String) (es : List Event) (t : Trace)
    → All IsNotRead es
    → t.reader.stage ≡ offering text
    → Within ⊥ (IsOffering text) (run_reader es t)
run_reader-IsOffering text es t c h =
    run_reader-Within ⊥ (IsOffering text) IsNotRead (step-IsOffering text) es t c h

-- Read has taken the channel before it was made, and nothing was received.
abbrev pub IsStuck : Trace → Type 0
IsStuck t = (t.reader.stuck ≡ true) × (t.reads ≡ [])

step-IsStuck : (e : Event) (t : Trace) → Unit {0} → IsStuck t → IfRuns IsStuck (step e t)
unfolding step advance finish receive_request take_answer send_size close_reader begin_next end_next
    try_read
step-IsStuck advances t c h = ground (arith, h.0, h.1)
step-IsStuck closes t c h = h
step-IsStuck begins_next t c h = ground (arith, h.0, h.1)
step-IsStuck ends_next t c h = ground (arith, h.0, h.1)
step-IsStuck (receives a) t c h = ground (arith, h.0, h.1)
step-IsStuck (sends n) t c h = ground (arith, h.0, h.1)
step-IsStuck (reads_up_to size) t c h = ground (arith, h.0, h.1)

-- If the first Read of the container's input comes before the loop has made its channel, then no Read
-- ever receives anything, whatever the client sends and whatever the order of the turns behind it.
early_read :
    (init : Option (ℕ × ℕ)) (size : ℕ) (es : List Event)
    → IfRuns IsStuck (run_reader (reads_up_to size ∷ es) (new_reader init))
unfolding run_reader step try_read new_reader
early_read init size es =
    run_reader-Within Unit IsStuck (λ e. Unit {0}) step-IsStuck es _ (any_turns es) (refl, refl)
