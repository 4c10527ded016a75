-- ===== src/Gate/Io/Channels/Crashes.antt =====
-- The end of clientReader (pkg/gate/io.go) while sizes are still to be sent.
use cliapp.Base.{ℕ, ◌≡◌, refl, Option, none, some, List, [], ◌∷◌, All, arith}
use cliapp.Controller.Error.{Error}
use cliapp.Controller.State.{ok, err}
use cliapp.Gate.Shell.{StdIn}
use cliapp.Gate.Io.Channels.Along.{Within, run_reader-Within}
use cliapp.Gate.Io.Channels.{
  Trace, crashes, new_reader, advance, finish, take_answer, receive_request, send_size,
  close_reader, begin_next, end_next, try_read, Event, advances, closes, begins_next, ends_next,
  receives, sends, reads_up_to, step, run_reader,
}

-- A client that sends a new size and then goes away, with no text in between: if the goroutine of the
-- size comes to its send behind the end of the loop, it sends on a closed channel, which ends the
-- process with the sessions of all clients.
pub resize_crashes :
    (init : Option (ℕ × ℕ)) (req : StdIn) (size : ℕ × ℕ) (e : Error) (es : List Event)
    → req.input ≡ []
    → req.terminal_size ≡ some size
    → run_reader
        (advances ∷ advances ∷ receives (ok req) ∷ advances ∷ receives (err e) ∷ sends 0 ∷ es)
        (new_reader init)
      ≡ crashes
unfolding run_reader step new_reader advance receive_request take_answer finish send_size
resize_crashes init req size e es i z = ground (arith, i, z)

-- An event that brings no new size.
abbrev pub IsCalm : Event → Type 0
IsCalm (receives (ok req)) = req.terminal_size ≡ none
IsCalm e = Unit

calm_step :
    (e : Event) (t : Trace)
    → IsCalm e
    → t.reader.senders ≡ []
    → Within ⊥ (λ u. u.reader.senders ≡ []) (step e t)
unfolding step advance finish receive_request take_answer send_size close_reader begin_next end_next
    try_read
calm_step advances t c h = ground (arith, h)
calm_step closes t c h = h
calm_step begins_next t c h = ground (arith, h)
calm_step ends_next t c h = ground (arith, h)
calm_step (receives (err e)) t c h = ground (arith, h)
calm_step (receives (ok req)) t c h = ground (arith, h, c)
calm_step (sends n) t c h = ground (arith, h)
calm_step (reads_up_to size) t c h = ground (arith, h)

-- As long as no request brings a size, nothing crashes, whatever the order of the turns.
pub run_reader-calm :
    (init : Option (ℕ × ℕ)) (es : List Event)
    → All IsCalm es
    → Within ⊥ (λ u. u.reader.senders ≡ []) (run_reader es (new_reader init))
unfolding new_reader
run_reader-calm init es c =
    run_reader-Within ⊥ (λ u. u.reader.senders ≡ []) IsCalm calm_step es (new_reader init) c refl
