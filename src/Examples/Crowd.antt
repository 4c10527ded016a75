-- ===== src/Examples/Crowd.antt =====
-- Clients of one app at the same time, and the goroutines of the reader of a client's messages.
use cliapp.Base.{◌≡◌, refl, none, some, List, [], ◌∷◌}
use cliapp.Api.{live}
use cliapp.Controller.Error.{external}
use cliapp.Controller.State.{ok, err}
use cliapp.Gate.Clients.{Turn, client, change, run_house, new_house}
use cliapp.Gate.Clients.Counts.{IsSoundAfter}
use cliapp.Gate.Clients.Crashes.{run_house-new}
use cliapp.Gate.Shell.{StdIn}
use cliapp.Gate.Io.Channels.{
  Event, advances, closes, begins_next, ends_next, receives, sends, reads_up_to, run_reader,
  new_reader, crashes as crashed,
}
use cliapp.Gate.Io.Channels.Along.{Within, IfRuns}
use cliapp.Gate.Io.Channels.Sound.{IsFaithful, run_reader-new_reader}
use cliapp.Gate.Io.Channels.Crashes.{resize_crashes, run_reader-calm}
use cliapp.Examples.Cluster.{ctr}

-- Two clients come; the first opens the app, the second shares it, and both leave.
abbrev two_visits : List Turn
two_visits =
    client 0
    ∷ client 0
    ∷ client 0
    ∷ change 0 (some (ctr live live))
    ∷ client 1
    ∷ client 1
    ∷ change 0 none
    ∷ client 0
    ∷ client 0
    ∷ client 1
    ∷ client 1
    ∷ change 1 (some (ctr live live))
    ∷ change 1 none
    ∷ client 1
    ∷ []

run_house-new_example : IsSoundAfter (run_house two_visits (new_house 2))
run_house-new_example = run_house-new two_visits 2

abbrev typed : StdIn
typed = record { app = none; input = "ls" ∷ []; terminal_size = none }

abbrev resized : StdIn
resized = record { app = none; input = []; terminal_size = some (80, 24) }

-- The client sends a text, which is read, and a size, which Next returns.
abbrev text_and_size : List Event
text_and_size =
    advances
    ∷ advances
    ∷ receives (ok typed)
    ∷ begins_next
    ∷ ends_next
    ∷ reads_up_to 1024
    ∷ advances
    ∷ receives (ok resized)
    ∷ sends 0
    ∷ begins_next
    ∷ ends_next
    ∷ closes
    ∷ advances
    ∷ []

run_reader-new_reader_example :
    IfRuns (IsFaithful (some (100, 40))) (run_reader text_and_size (new_reader (some (100, 40))))
run_reader-new_reader_example = run_reader-new_reader (some (100, 40)) text_and_size

resize_crashes_example :
    run_reader
      (advances
        ∷ advances
        ∷ receives (ok resized)
        ∷ advances
        ∷ receives (err (external "EOF"))
        ∷ sends 0
        ∷ [])
      (new_reader none)
    ≡ crashed
resize_crashes_example = resize_crashes none resized (80, 24) (external "EOF") [] refl refl

abbrev calm_turns : List Event
calm_turns = advances ∷ advances ∷ receives (ok typed) ∷ closes ∷ reads_up_to 10 ∷ advances ∷ []

run_reader-calm_example :
    Within ⊥ (λ u. u.reader.senders ≡ []) (run_reader calm_turns (new_reader none))
run_reader-calm_example = run_reader-calm none calm_turns (tt, (tt, (refl, (tt, (tt, (tt, tt))))))
