-- ===== src/Libcli/Streams/Input.antt =====
-- The way of the input from the client's reads (pkg/libcli/api.go) to the gate's (pkg/gate/io.go).
use Prim.Native.String.{len}
use cliapp.Base.{
  ℕ, ◌≤◌, ◌≡◌, refl, sym, ap, subst, ◌∙◌, Option, none, some, List, [], ◌∷◌, map, String, arith,
  All,
}
use cliapp.Controller.State.{ok}
use cliapp.Gate.Shell.{StdIn}
use cliapp.Gate.Io.{gen_client_io_streams, copied}
use cliapp.Gate.Io.Laws.{never, reads_of}
use cliapp.Libcli.Exec.{
  Event, ends, winch, context_done, input, output, Terminal, exec_cli_app, first_message,
}
use cliapp.Libcli.Exec.Loop.{typed, IsGoing, Works, exec_cli_app-reads_of}
use cliapp.Libcli.Streams.{Chunk, InputEnd, end_of_input, fails, read_stdin, buffer_size}

-- What is read before the input ends
abbrev pub texts_read : List Chunk → List String
texts_read [] = []
texts_read (c ∷ cs) =
    let others = texts_read cs in elim c.error [ none ↦ c.text ∷ others | some e ↦ [] ]

-- A read that keeps to its buffer and does not fail
abbrev pub IsChunk : Chunk → Type 0
IsChunk c = (len c.text ≤ buffer_size) × ((e : _) → c.error ≡ some (fails e) → ⊥)

-- What the loop sees of the input
abbrev pub inputs : List Event → List Event
inputs [] = []
inputs (input t ∷ es) = input t ∷ inputs es
inputs (_ ∷ es) = inputs es

-- Nothing ends the loop.
abbrev pub IsOpen : List Event → Type 0
IsOpen [] = Unit
IsOpen (ends x ∷ es) = ⊥
IsOpen (context_done ∷ es) = ⊥
IsOpen (_ ∷ es) = IsOpen es

typed-inputs : (es : List Event) → typed (inputs es) ≡ typed es
typed-inputs [] = refl
typed-inputs (ends x ∷ es) = typed-inputs es
typed-inputs (winch ∷ es) = typed-inputs es
typed-inputs (context_done ∷ es) = typed-inputs es
typed-inputs (input none ∷ es) = typed-inputs es
typed-inputs (input (some text) ∷ es) = ap (λ ts. text ∷ ts) (typed-inputs es)
typed-inputs (output o ∷ es) = typed-inputs es

inputs-IsGoing :
    (size : ℕ) (es : List Event) → IsOpen es → IsGoing size (inputs es) → IsGoing size es
inputs-IsGoing size [] o g = tt
inputs-IsGoing size (ends x ∷ es) o g = o
inputs-IsGoing size (winch ∷ es) o g = inputs-IsGoing size es o g
inputs-IsGoing size (context_done ∷ es) o g = o
inputs-IsGoing size (input none ∷ es) o g = inputs-IsGoing size es o g
inputs-IsGoing size (input (some text) ∷ es) o (g, gs) = (g, inputs-IsGoing size es o gs)
inputs-IsGoing size (output x ∷ es) o g = inputs-IsGoing size es o g

read_stdin-typed : (cs : List Chunk) → All IsChunk cs → typed (read_stdin cs) ≡ texts_read cs
unfolding read_stdin
read_stdin-typed [] h = refl
read_stdin-typed (c ∷ cs) (h, hs) = told c.error refl (read_stdin-typed cs hs)
  where
    told :
        (x : Option InputEnd)
        → c.error ≡ x
        → typed (read_stdin cs) ≡ texts_read cs
        → typed (read_stdin (c ∷ cs)) ≡ texts_read (c ∷ cs)
    told none e ih = ground arith
    told (some end_of_input) e ih = ground arith
    told (some (fails x)) e ih = absurd (h.1 x e)

read_stdin-IsGoing :
    (size : ℕ)
    → buffer_size ≤ size
    → (cs : List Chunk) → All IsChunk cs
    → IsGoing size (read_stdin cs)
unfolding read_stdin
read_stdin-IsGoing size b [] h = tt
read_stdin-IsGoing size b (c ∷ cs) (h, hs) = told c.error refl (read_stdin-IsGoing size b cs hs)
  where
    told :
        (x : Option InputEnd)
        → c.error ≡ x
        → IsGoing size (read_stdin cs)
        → IsGoing size (read_stdin (c ∷ cs))
    told none e ih = ground arith
    told (some end_of_input) e ih = ground arith
    told (some (fails x)) e ih = absurd (h.1 x e)

-- Where the connection takes every message, the terminal can be made raw, nothing ends the loop, and
-- the reads of the input keep to the client's buffer and do not fail: reads of the gate with a buffer of at least the client's size never
-- fall short, whatever sizes and outputs come in between. They bring exactly the texts read before the
-- input ended, in order and whole, and no end of the input, of which the client tells the gate nothing.
pub read_stdin-reads_of :
    (size : ℕ) (t : Terminal) (name namespace : String) (args : List String) (cs : List Chunk)
    (es : List Event)
    → buffer_size ≤ size
    → Works t
    → All IsChunk cs
    → IsOpen es
    → inputs es ≡ read_stdin cs
    → (ms : List StdIn) × ((exec_cli_app t name namespace args es).client.sent
        ≡ first_message t name namespace args ∷ ms)
      × (reads_of size (
            gen_client_io_streams
              (first_message t name namespace args).terminal_size
              never
              (map ok ms))
          ≡ map copied (texts_read cs))
read_stdin-reads_of size t name namespace args cs es b w h o q =
    let going = subst (IsGoing size) (sym q) (read_stdin-IsGoing size b cs h) in
    let (ms, sent, reads) =
      exec_cli_app-reads_of size t name namespace args es w (inputs-IsGoing size es o going) in
    let texts : typed es ≡ texts_read cs =
      sym (typed-inputs es) ∙ ap typed q ∙ read_stdin-typed cs h in
    (ms, sent, reads ∙ ap (map copied) texts)
