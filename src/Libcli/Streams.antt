-- ===== src/Libcli/Streams.antt =====
-- The goroutines of ExecCliApp (pkg/libcli/api.go) that read the input and the answers of the gate, and
-- getSize.
pub mod Output
pub mod Input
use cliapp.Base.{
  ℕ, Bool, true, false, Option, none, some, List, [], ◌∷◌, String, is_blank, if◌then◌else◌,
}
use cliapp.Controller.Error.{Error}
use cliapp.Controller.State.{Answer, ok, err}
use cliapp.Gate.Output.{StdOut}
use cliapp.Libcli.Exec.{Ended, failed, behind, RecvError, recv_ended, Event, ends, input}

-- The buffer of the reads
abbrev pub buffer_size : ℕ
buffer_size = 1024

pub data InputEnd : Type 0 where
  end_of_input : InputEnd
  fails : Error → InputEnd

-- What a read of the input gives: a text of at most the buffer's size, and an error.
pub record Chunk : Type 0 where
  pub text : String
  pub error : Option InputEnd

-- The goroutine that reads the input, as what the loop sees of it. A text that comes along with an error is dropped; the
-- channel that is closed behind the last text is always ready.
unfoldable pub read_stdin : List Chunk → List Event
read_stdin [] = []
read_stdin (c ∷ cs) =
    let others = read_stdin cs in
    elim c.error [
      | none ↦ input (some c.text) ∷ others
      | some end_of_input ↦ input none ∷ []
      | some (fails e) ↦ ends (failed (behind "can't read the input:" e)) ∷ input none ∷ []
    ]

pub data RecvAnswer : Type 0 where
  message : StdOut → RecvAnswer
  stops : RecvError → RecvAnswer

-- What goes to the loop, what is printed at once, and what the goroutine ends with.
pub record Arrived : Type 0 where
  pub raw : List String
  pub printed : List String
  pub ended : Option Ended

-- One message, with what arrives behind it.
arrive : StdOut → Arrived → Arrived
arrive m a =
    if is_blank m.output
    then a
    else if m.raw
    then record a { raw = m.output ∷ a.raw }
    else record a { printed = m.output ∷ a.printed }

-- The goroutine that receives.
pub receive : List RecvAnswer → Arrived
unfolding arrive
receive [] = record { raw = []; printed = []; ended = none }
receive (message m ∷ answers) = arrive m (receive answers)
receive (stops e ∷ answers) = record { raw = []; printed = []; ended = some (recv_ended e) }

-- getSize, with what the terminal answers.
pub get_size : Answer (ℕ × ℕ) → Option (ℕ × ℕ)
get_size (ok size) = some size
get_size (err e) = none
