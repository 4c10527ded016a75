-- ===== src/Libcli/Streams/Output.antt =====
-- The way of the container's output (pkg/gate/io.go) and of the progress (pkg/gate/session.go) to the
-- client (pkg/libcli/api.go).
use mathlib.Core.List.{append_assoc, append-nil}
use cliapp.Base.{
  ℕ, suc, Bool, true, false, not, ◌&&◌, ◌≡◌, refl, sym, ap, ◌∙◌, inl, inr, Option, none, some, List,
  [], ◌∷◌, ◌++◌, map, keep, String, arith, is_blank, is_none, Bool-cases,
}
use cliapp.Controller.Error.{Error}
use cliapp.Gate.Output.{StdOut, Output, notes, writes, progress_text, write, write_ln, write_all}
use cliapp.Libcli.Exec.{
  Event, ends, output, Terminal, Client, raw_mode, going, print, turn, exchange, RecvError,
  recv_ended, Ended,
}
use cliapp.Libcli.Exec.Loop.{exchange-going}
use cliapp.Libcli.Streams.{message, stops, Arrived, arrive, receive}

abbrev pub message_of : (String → String) → Output → StdOut
message_of paint (notes a) = record { output = progress_text paint a; raw = false }
message_of paint (writes p) = record { output = p; raw = true }

-- What the container writes, and the lines of progress, without the empty texts.
abbrev pub texts_written : List Output → List String
texts_written [] = []
texts_written (notes a ∷ os) = texts_written os
texts_written (writes p ∷ os) = p ∷ texts_written os

abbrev pub texts_noted : (String → String) → List Output → List String
texts_noted paint [] = []
texts_noted paint (notes a ∷ os) = progress_text paint a ∷ texts_noted paint os
texts_noted paint (writes p ∷ os) = texts_noted paint os

abbrev pub is_text : String → Bool
is_text s = not (is_blank s)

write_all-sent :
    (paint : String → String) (send_error : List StdOut → StdOut → Option Error) (os : List Output)
    (sent : List StdOut)
    → ((before : List StdOut) (m : StdOut) → send_error before m ≡ none)
    → write_all paint send_error os sent ≡ sent ++ map (message_of paint) os
unfolding write_all write write_ln
write_all-sent paint send_error [] sent h = sym (append-nil sent)
write_all-sent paint send_error (notes a ∷ os) sent h =
    let m = message_of paint (notes a) in
    ap (λ x. write_all paint send_error os (elim x [ some e ↦ sent | none ↦ sent ++ m ∷ [] ]))
      (h sent m)
    ∙ write_all-sent paint send_error os (sent ++ m ∷ []) h
    ∙ append_assoc sent (m ∷ []) (map (message_of paint) os)
write_all-sent paint send_error (writes p ∷ os) sent h =
    let m = message_of paint (writes p) in
    ap (write_all paint send_error os) (ground (arith, h sent m))
    ∙ write_all-sent paint send_error os (sent ++ m ∷ []) h
    ∙ append_assoc sent (m ∷ []) (map (message_of paint) os)

receive-messages :
    (paint : String → String) (os : List Output) (e : RecvError)
    → receive (map message (map (message_of paint) os) ++ stops e ∷ []) ≡ record {
      raw = keep is_text (texts_written os);
      printed = keep is_text (texts_noted paint os);
      ended = some (recv_ended e);
    }
unfolding receive arrive
receive-messages paint [] e = refl
receive-messages paint (notes a ∷ os) e =
    ap (arrive (message_of paint (notes a))) (receive-messages paint os e) ∙ ground arith
receive-messages paint (writes p ∷ os) e =
    ap (arrive (message_of paint (writes p))) (receive-messages paint os e) ∙ ground arith

abbrev pub shown : String → Event
shown text = output (some text)

turn-shown :
    (t : Terminal) (n : ℕ) (text : String) (c : Client)
    → t.make_raw ≡ none
    → (d : Client) × (turn t n (shown text) c ≡ going d) × (d.printed ≡ c.printed ++ text ∷ [])
unfolding turn
turn-shown t n text c w = elim (Bool-cases (t.stdin_is_terminal && is_none c.saved)) [
  | inl b ↦ (print text (record c { mode = raw_mode; saved = some c.mode }), ground arith, refl)
  | inr b ↦ (print text c, ground arith, refl)
]

-- The loop prints what arrives, in order, and ends as it is told.
exchange-shown :
    (t : Terminal) (n : ℕ) (texts : List String) (x : Ended) (c : Client)
    → t.make_raw ≡ none
    → ((exchange t n (map shown texts ++ ends x ∷ []) c).client.printed ≡ c.printed ++ texts)
      × ((exchange t n (map shown texts ++ ends x ∷ []) c).ended ≡ some x)
unfolding exchange turn
exchange-shown t n [] x c w = (sym (append-nil c.printed), refl)
exchange-shown t n (text ∷ texts) x c w =
    let (d, e, f) = turn-shown t n text c w in
    let others = map shown texts ++ ends x ∷ [] in
    let step = exchange-going t n (shown text) others c d e in
    let further = exchange-shown t (suc n) texts x d w in
    (
      ap (λ s. s.client.printed) step
          ∙ further.0
          ∙ ap (λ l. l ++ texts) f
          ∙ append_assoc c.printed (text ∷ []) texts,
      ap (λ s. s.ended) step ∙ further.1,
    )

-- Where every Send succeeds, the terminal can be made raw and the loop picks nothing but the output
-- and then the end: the client prints what the container writes, whole and in order, and ends with
-- the result that the gate's last answer stands for; the lines of progress are printed too, in
-- order and apart from the output. Empty texts print nothing.
pub write_all-exchange :
    (paint : String → String) (send_error : List StdOut → StdOut → Option Error) (os : List Output)
    (t : Terminal) (e : RecvError) (c : Client)
    → ((before : List StdOut) (m : StdOut) → send_error before m ≡ none)
    → t.make_raw ≡ none
    → let a = receive (map message (write_all paint send_error os []) ++ stops e ∷ []) in
      let s = exchange t 1 (map shown a.raw ++ ends (recv_ended e) ∷ []) c in
      (s.client.printed ≡ c.printed ++ keep is_text (texts_written os))
      × (s.ended ≡ some (recv_ended e))
      × (a.printed ≡ keep is_text (texts_noted paint os))
      × (a.ended ≡ some (recv_ended e))
write_all-exchange paint send_error os t e c h w =
    let arrived : receive (map message (write_all paint send_error os []) ++ stops e ∷ [])
        ≡ record {
          raw = keep is_text (texts_written os);
          printed = keep is_text (texts_noted paint os);
          ended = some (recv_ended e);
        } =
      ap (λ ms. receive (map message ms ++ stops e ∷ [])) (write_all-sent paint send_error os [] h)
      ∙ receive-messages paint os e in
    let shows = exchange-shown t 1 (keep is_text (texts_written os)) (recv_ended e) c w in
    let of_raw =
      ap (λ (a : Arrived). exchange t 1 (map shown a.raw ++ ends (recv_ended e) ∷ []) c) arrived in
    (
      ap (λ s. s.client.printed) of_raw ∙ shows.0,
      ap (λ s. s.ended) of_raw ∙ shows.1,
      ap (λ a. a.printed) arrived,
      ap (λ a. a.ended) arrived,
    )
