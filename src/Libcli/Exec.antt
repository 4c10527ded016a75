-- ===== src/Libcli/Exec.antt =====
-- ExecCliApp (pkg/libcli/api.go): the connection to the gate, what its answers mean, and the loop that
-- carries input, output and sizes of the terminal. The loop's channels are the sequence of events
-- that `select` picks.
pub mod Laws
pub mod Loop
use cliapp.Base.{
  ℕ, suc, Bool, true, false, not, ◌&&◌, Option, none, some, List, [], ◌∷◌, ◌++◌, String, is_nil,
  is_none, if◌then◌else◌,
}
use Prim.Native.String
use cliapp.Base.Text.Decimal.{atoi}
use cliapp.Controller.Error.{Error, external, message}
use cliapp.Gate.Shell.{Code, unavailable, invalid_argument, aborted, App, StdIn}

-- What ExecCliApp returns. `exit_code` is exec.CodeExitError.
pub data Ended : Type 0 where
  fine : Ended
  exit_code : ℕ → Ended
  failed : Error → Ended

pub data Dialled (A : Type 0) : Type 0 where
  connected : A → Dialled A
  nobody : Dialled A
  bad_endpoint : String → Dialled A

-- The loop over the endpoints: `parse` gives the host of a URL, and `dial` the connection. An endpoint
-- that is no URL is a panic.
pub dial_first :
    {A : Type 0} → (String → Option String) → (String → Option A) → List String → Dialled A
dial_first parse dial [] = nobody
dial_first parse dial (ep ∷ eps) =
    let others = dial_first parse dial eps in
    elim (parse ep) [
      | none ↦ bad_endpoint ep
      | some host ↦ elim (dial host) [ some cc ↦ connected cc | none ↦ others ]
    ]

-- What ends Recv: the end of the stream, a status, or another error.
pub data RecvError : Type 0 where
  eof : RecvError
  status_of : Code → String → Error → RecvError
  other : Error → RecvError

-- xerrors.Errorf with `%s` behind a text
abbrev pub behind : String → Error → Error
behind text e = external (String.◌++◌ text (message e))

-- The goroutine that receives: what its error becomes.
pub recv_ended : RecvError → Ended
recv_ended eof = fine
recv_ended (other e) = failed (behind "can't read the remote response:" e)
recv_ended (status_of aborted text e) = elim (atoi text) [
  | some code ↦ exit_code code
  | none ↦ failed (behind "can't read the remote response:" e)
]
recv_ended (status_of code text e) = failed (behind "can't read the remote response:" e)

pub data Event : Type 0 where
  ends : Ended → Event
  winch : Event
  context_done : Event
  input : Option String → Event
  output : Option String → Event

-- The terminal and the connection: `size` is what getSize finds at an event, `send_error` what Send
-- answers to a message, `make_raw` what MakeRaw answers.
pub record Terminal : Type 0 where
  pub stdin_is_terminal : Bool
  pub stdout_is_terminal : Bool
  pub size : ℕ → Option (ℕ × ℕ)
  pub send_error : List StdIn → StdIn → Option Error
  pub make_raw : Option Error

-- The states of a terminal
pub data TermState : Type 0 where
  as_found raw_mode : TermState

-- `mode` is the terminal's state now, `saved` the state that MakeRaw found (originalStdinState).
pub record Client : Type 0 where
  pub mode : TermState
  pub saved : Option TermState
  pub sent : List StdIn
  pub printed : List String

pub record Session : Type 0 where
  pub client : Client
  pub ended : Option Ended

abbrev pub going : Client → Session
going c = record { client = c; ended = none }

abbrev restored : Option TermState → TermState → TermState
restored none mode = mode
restored (some old) mode = old

-- A return, with the deferred function that restores the terminal.
abbrev returns : Ended → Client → Session
returns e c = record { client = record c { mode = restored c.saved c.mode }; ended = some e }

abbrev pub send : Terminal → StdIn → Client → Session
send t m c = elim (t.send_error c.sent m) [
  | some e ↦ returns (failed e) c
  | none ↦ going (record c { sent = c.sent ++ m ∷ [] })
]

abbrev pub print : String → Client → Client
print out c = record c { printed = c.printed ++ out ∷ [] }

-- Output makes the terminal raw where no state of it is saved.
abbrev show : Terminal → String → Client → Session
show t out c =
    if t.stdin_is_terminal && is_none c.saved
    then elim t.make_raw [
      | some e ↦ returns (failed (behind "can't initialize terminal: " e)) c
      | none ↦ going (print out (record c { mode = raw_mode; saved = some c.mode }))
    ]
    else going (print out c)

-- One turn of the loop; `n` counts the turns.
unfoldable pub turn : Terminal → ℕ → Event → Client → Session
turn t n (ends e) c = returns e c
turn t n winch c =
    if t.stdout_is_terminal
    then send t (record { app = none; input = []; terminal_size = t.size n }) c
    else going c
turn t n context_done c = returns fine c
turn t n (input none) c = going c
turn t n (input (some text)) c =
    send t (record { app = none; input = text ∷ []; terminal_size = none }) c
turn t n (output none) c = going c
turn t n (output (some out)) c = show t out c

unfoldable pub exchange : Terminal → ℕ → List Event → Client → Session
unfolding turn
exchange t n [] c = going c
exchange t n (e ∷ es) c =
    let s = turn t n e c in
    let further = exchange t (suc n) es s.client in if is_none s.ended then further else s

abbrev pub new_client : List StdIn → Client
new_client sent = record { mode = as_found; saved = none; sent = sent; printed = [] }

abbrev pub opened : Terminal → StdIn → List Event → Option Error → Session
opened t first es (some e) = returns (failed (behind "unable to open app: " e)) (new_client [])
opened t first es none = exchange t 1 es (new_client (first ∷ []))

abbrev pub first_message : Terminal → String → String → List String → StdIn
first_message t name namespace args = record {
  app = some (record { name = name; namespace = namespace });
  input = args;
  terminal_size = if t.stdout_is_terminal then t.size 0 else none;
}

-- The first message, then the loop.
pub exec_cli_app : Terminal → String → String → List String → List Event → Session
unfolding exchange
exec_cli_app t name namespace args es =
    let first = first_message t name namespace args in opened t first es (t.send_error [] first)
