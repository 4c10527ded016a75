-- ===== src/Gate/Io.antt =====
-- clientReader (pkg/gate/io.go): what comes from a client becomes the input of the container. What
-- each channel carries is the list of the values sent; lengths are in bytes.
pub mod Laws
pub mod Channels
use Prim.Native.String.{len}
use cliapp.Base.{
  ℕ, suc, ◌+◌, ◌%◌, ltb, Bool, true, false, Option, none, some, List, [], ◌∷◌, String,
  if◌then◌else◌,
}
use cliapp.Controller.State.{Answer, ok, err}
use cliapp.Gate.Shell.{StdIn}

-- remotecommand.TerminalSize
pub record TerminalSize : Type 0 where
  pub width : ℕ
  pub height : ℕ

-- The conversions to uint16.
abbrev pub terminal_size : ℕ × ℕ → TerminalSize
terminal_size (w, h) = record { width = w % 65536; height = h % 65536 }

-- What the loop sends on its channels; `ended` when it has closed them, else it waits for the client.
pub record Received : Type 0 where
  pub stdin : List String
  pub sizes : List TerminalSize
  pub ended : Bool

abbrev pub with_size : Option (ℕ × ℕ) → Received → Received
with_size none r = r
with_size (some size) r = record r { sizes = terminal_size size ∷ r.sizes }

abbrev pub stopped : Received
stopped = record { stdin = []; sizes = []; ended = true }

-- The text of a request, with what is received behind it; more than one text ends the loop.
abbrev pub with_input : List String → Received → Received
with_input [] r = r
with_input (text ∷ []) r = record r { stdin = text ∷ r.stdin }
with_input (text ∷ t ∷ ts) r = stopped

-- One request and what is received behind it: its size goes out before its text is looked at.
loop_request : StdIn → Received → Received
loop_request req r = with_size req.terminal_size (with_input req.input r)

-- loop, with what Recv answers. `closed n` is the flag before request `n`: Close may set it any time.
pub loop : (ℕ → Bool) → ℕ → List (Answer StdIn) → Received
unfolding loop_request
loop closed n [] = record { stdin = []; sizes = []; ended = closed n }
loop closed n (err e ∷ answers) = stopped
loop closed n (ok req ∷ answers) =
    let r = loop_request req (loop closed (suc n) answers) in if closed n then stopped else r

-- genClientIOStreams: the size of the first request goes ahead.
pub gen_client_io_streams : Option (ℕ × ℕ) → (ℕ → Bool) → List (Answer StdIn) → Received
unfolding loop
gen_client_io_streams init_size closed answers = with_size init_size (loop closed 0 answers)

pub data ReadResult : Type 0 where
  copied : String → ReadResult
  short_buffer : ReadResult
  eof : ReadResult

-- Read, with a buffer of `size` bytes. A text that does not fit is gone.
pub read : ℕ → Option String → ReadResult
read size none = eof
read size (some text) = if ltb size (len text) then short_buffer else copied text

-- The reads one after the other. Behind the last text a read ends with the input where the loop has
-- closed the channel; else it brings nothing and goes on waiting.
pub read_all : ℕ → (ended : Bool) → List String → List ReadResult
unfolding read
read_all size ended [] = if ended then read size none ∷ [] else []
read_all size ended (text ∷ texts) = read size (some text) ∷ read_all size ended texts
