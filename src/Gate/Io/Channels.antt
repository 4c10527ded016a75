-- ===== src/Gate/Io/Channels.antt =====
-- clientReader (pkg/gate/io.go) as the goroutines that share it: its loop, one goroutine for each size
-- that a request brings, the reader of the container's input, and the reader of sizes. The input's
-- channel holds nothing, that of the sizes holds one size.
pub mod Along
pub mod Sound
pub mod Crashes
pub mod Stuck
pub mod Order
use cliapp.Base.{
  ℕ, suc, zero, Bool, true, false, Option, none, some, List, [], ◌∷◌, String, get_elem?,
  if◌then◌else◌, map,
}
use cliapp.Controller.State.{Answer, ok, err}
use cliapp.Gate.Shell.{StdIn}
use cliapp.Gate.Io.{TerminalSize, terminal_size, ReadResult, read}

-- Where the loop is: before the channel of the input is made, at the head of `for`, in Recv, at the
-- send of a text, and behind the deferred calls that close the channels.
pub data Stage : Type 0 where
  starting looping receiving ended : Stage
  offering : String → Stage

-- `sender` lists the goroutines that have a size to send, `buffer` is what the channel of the sizes
-- holds. `in_next` is set while Next is behind its test of the flag. `stuck` is set when Read has taken
-- the channel of the input before it was made: a receive from a nil channel never returns.
pub record Reader : Type 0 where
  pub closed : Bool
  pub stage : Stage
  pub buffer : Option TerminalSize
  pub senders : List TerminalSize
  pub in_next : Bool
  pub stuck : Bool

-- With what went through it, the last first: the requests, what each Read with a buffer of so many
-- bytes received, and what each Next returned.
pub record Trace : Type 0 where
  pub reader : Reader
  pub requests : List StdIn
  pub reads : List (ℕ × Option String)
  pub sizes : List (Option TerminalSize)

-- What the calls of Read return.
abbrev pub read_results : Trace → List ReadResult
unfolding read
read_results t = map (λ r. read r.0 r.1) t.reads

-- A send on a closed channel panics, which ends the process.
pub data Run : Type 0 where
  runs : Trace → Run
  crashes : Run

abbrev first_size : Option (ℕ × ℕ) → Option TerminalSize
first_size none = none
first_size (some size) = some (terminal_size size)

-- genClientIOStreams
unfoldable pub new_reader : Option (ℕ × ℕ) → Trace
new_reader init_size = record {
  reader = record {
    closed = false;
    stage = starting;
    buffer = first_size init_size;
    senders = [];
    in_next = false;
    stuck = false;
  };
  requests = [];
  reads = [];
  sizes = [];
}

abbrev at_stage : Stage → Reader → Reader
at_stage stage r = record r { stage = stage }

-- The deferred function of loop.
unfoldable finish : Reader → Reader
finish r = record r { closed = true; stage = ended }

-- The test of the flag, and the making of the channel before it.
unfoldable pub advance : Reader → Reader
unfolding finish
advance r = elim r.stage [
  | starting ↦ at_stage looping r
  | looping ↦ (if r.closed then finish r else at_stage receiving r)
  | receiving ↦ r
  | ended ↦ r
  | offering text ↦ r
]

abbrev with_sender : Option (ℕ × ℕ) → Reader → Reader
with_sender none r = r
with_sender (some size) r = record r { senders = terminal_size size ∷ r.senders }

abbrev with_texts : List String → Reader → Reader
unfolding finish
with_texts [] r = at_stage looping r
with_texts (text ∷ []) r = at_stage (offering text) r
with_texts (text ∷ t ∷ ts) r = finish r

-- What Recv answers, and the rest of the loop's round.
unfoldable pub take_answer : Answer StdIn → Trace → Trace
unfolding finish
take_answer (err e) t = record t { reader = finish t.reader }
take_answer (ok req) t = record t {
  reader = with_texts req.input (with_sender req.terminal_size t.reader);
  requests = req ∷ t.requests;
}

unfoldable pub receive_request : Answer StdIn → Trace → Trace
unfolding take_answer
receive_request a t = elim t.reader.stage [
  | receiving ↦ take_answer a t
  | starting ↦ t
  | looping ↦ t
  | ended ↦ t
  | offering text ↦ t
]

-- The list without the element at an index.
abbrev pub without : {A : Type 0} → ℕ → List A → List A
without n [] = []
without zero (x ∷ xs) = xs
without (suc n) (x ∷ xs) = x ∷ without n xs

-- The size of a goroutine goes into the buffer if there is room.
abbrev put_size : ℕ → TerminalSize → Reader → Reader
put_size n size r = elim r.buffer [
  | none ↦ record r { buffer = some size; senders = without n r.senders }
  | some other ↦ r
]

abbrev pub is_ended : Stage → Bool
is_ended ended = true
is_ended stage = false

-- The goroutine at an index of `senders` tries to send.
unfoldable pub send_size : ℕ → Trace → Run
send_size n t = elim (get_elem? t.reader.senders n) [
  | none ↦ runs t
  | some size ↦
      (if is_ended t.reader.stage
        then crashes
        else runs (record t { reader = put_size n size t.reader }))
]

-- Close
unfoldable pub close_reader : Trace → Trace
close_reader t = record t { reader = record t.reader { closed = true } }

-- Next up to its receive.
unfoldable pub begin_next : Trace → Trace
begin_next t =
    if t.reader.in_next
    then t
    else if t.reader.closed
    then record t { sizes = none ∷ t.sizes }
    else record t { reader = record t.reader { in_next = true } }

-- The receive of Next, which waits for a size or for the end.
abbrev receive_size : Option TerminalSize → Trace → Trace
receive_size (some size) t = record t {
  reader = record t.reader { buffer = none; in_next = false };
  sizes = some size ∷ t.sizes;
}
receive_size none t =
    if is_ended t.reader.stage
    then record t { reader = record t.reader { in_next = false }; sizes = none ∷ t.sizes }
    else t

unfoldable pub end_next : Trace → Trace
end_next t = if t.reader.in_next then receive_size t.reader.buffer t else t

-- Read, which waits for a text or for the end.
abbrev receive_text : ℕ → Stage → Trace → Trace
receive_text size starting t = record t { reader = record t.reader { stuck = true } }
receive_text size ended t = record t { reads = (size, none) ∷ t.reads }
receive_text size (offering text) t = record t {
  reader = at_stage looping t.reader;
  reads = (size, some text) ∷ t.reads;
}
receive_text size stage t = t

unfoldable pub try_read : ℕ → Trace → Trace
try_read size t = if t.reader.stuck then t else receive_text size t.reader.stage t

-- Whose turn it is
pub data Event : Type 0 where
  advances closes begins_next ends_next : Event
  receives : Answer StdIn → Event
  sends reads_up_to : ℕ → Event

unfoldable pub step : Event → Trace → Run
unfolding advance receive_request send_size close_reader begin_next end_next try_read
step advances t = runs (record t { reader = advance t.reader })
step closes t = runs (close_reader t)
step begins_next t = runs (begin_next t)
step ends_next t = runs (end_next t)
step (receives a) t = runs (receive_request a t)
step (sends n) t = send_size n t
step (reads_up_to size) t = runs (try_read size t)

unfoldable pub run_reader : List Event → Trace → Run
unfolding step
run_reader [] t = runs t
run_reader (e ∷ es) t = elim (step e t) [ runs u ↦ run_reader es u | crashes ↦ crashes ]
