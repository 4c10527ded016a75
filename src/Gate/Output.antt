-- ===== src/Gate/Output.antt =====
-- What the gate sends to a client: stdoutWriter (pkg/gate/io.go), the sizes that the container asks for
-- there, and progressWriter (pkg/gate/session.go). The stream to the client is the parameter
-- `send_error`: what Send answers to a message behind those sent.
use Prim.Native.String
use Prim.Native.String.{len}
use cliapp.Base.{
  ℕ, Bool, true, false, Option, none, some, List, [], ◌∷◌, ◌++◌, String, if◌then◌else◌,
}
use cliapp.Controller.Error.{Error}
use cliapp.Gate.Io.{TerminalSize}

-- StdOut: `raw` is set for the output of the container.
pub record StdOut : Type 0 where
  pub output : String
  pub raw : Bool

-- What Write returns, and what has been sent.
pub record Written : Type 0 where
  pub n : ℕ
  pub error : Option Error
  pub sent : List StdOut

-- Write
unfoldable pub write : (List StdOut → StdOut → Option Error) → List StdOut → String → Written
write send_error sent p =
    let m : StdOut = record { output = p; raw = true } in
    elim (send_error sent m) [
      | some e ↦ record { n = 0; error = some e; sent = sent }
      | none ↦ record { n = len p; error = none; sent = sent ++ m ∷ [] }
    ]

-- A line of progress; `paint` is the colour.
abbrev pub progress_text : (String → String) → String → String
progress_text paint a = paint (String.◌++◌ "❯❯ " (String.◌++◌ a "\n"))

-- WriteLn: an error is only logged.
unfoldable pub write_ln :
    (String → String) → (List StdOut → StdOut → Option Error) → List StdOut → String → List StdOut
write_ln paint send_error sent a =
    let m : StdOut = record { output = progress_text paint a; raw = false } in
    elim (send_error sent m) [ some e ↦ sent | none ↦ sent ++ m ∷ [] ]

-- Next, with the flag and what comes out of the channel of sizes; a closed one gives nothing.
pub next : Bool → Option TerminalSize → Option TerminalSize
next closed size = if closed then none else size

-- What a session writes to its client: lines of progress, and the output of the container.
pub data Output : Type 0 where
  notes : String → Output
  writes : String → Output

unfoldable pub write_all :
    (String → String)
    → (List StdOut → StdOut → Option Error)
    → List Output
    → List StdOut
    → List StdOut
unfolding write write_ln
write_all paint send_error [] sent = sent
write_all paint send_error (notes a ∷ os) sent =
    write_all paint send_error os (write_ln paint send_error sent a)
write_all paint send_error (writes p ∷ os) sent =
    write_all paint send_error os (write send_error sent p).sent
