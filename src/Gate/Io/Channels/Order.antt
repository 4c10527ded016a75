-- ===== src/Gate/Io/Channels/Order.antt =====
-- The order of the sizes that go through clientReader (pkg/gate/io.go).
use cliapp.Base.{ℕ, ◌≡◌, refl, none, some, List, [], ◌∷◌}
use cliapp.Controller.State.{ok}
use cliapp.Gate.Shell.{StdIn}
use cliapp.Gate.Io.{terminal_size}
use cliapp.Gate.Io.Channels.{
  new_reader, Event, advances, receives, sends, begins_next, ends_next, step, run_reader, advance,
  receive_request, take_answer, send_size, begin_next, end_next,
}
use cliapp.Gate.Io.Channels.Along.{Within}

abbrev pub resized : ℕ × ℕ → StdIn
resized size = record { app = none; input = []; terminal_size = some size }

-- The goroutine of the second size sends first.
abbrev pub overtaking : (size later : ℕ × ℕ) → List Event
overtaking size later =
    advances
    ∷ advances
    ∷ receives (ok (resized size))
    ∷ advances
    ∷ receives (ok (resized later))
    ∷ sends 0
    ∷ begins_next
    ∷ ends_next
    ∷ sends 0
    ∷ begins_next
    ∷ ends_next
    ∷ []

-- Of two sizes that a client sends one after the other, the older one can be the last that Next returns:
-- the terminal keeps it then. Each size has a goroutine of its own, and nothing orders the two.
run_reader-overtaking :
    (size later : ℕ × ℕ)
    → Within ⊥
        (λ t. t.sizes ≡ some (terminal_size size) ∷ some (terminal_size later) ∷ [])
        (run_reader (overtaking size later) (new_reader none))
unfolding run_reader step new_reader advance receive_request take_answer send_size begin_next
    end_next
run_reader-overtaking size later = refl
