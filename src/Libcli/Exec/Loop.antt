-- ===== src/Libcli/Exec/Loop.antt =====
-- The loop of ExecCliApp (pkg/libcli/api.go) as a whole: the terminal, and what is typed.
use Prim.Native.String.{len}
use mathlib.Core.List.{append_assoc, append-nil}
use cliapp.Base.{
  ℕ, suc, ◌≡◌, ◌≤◌, refl, sym, ap, subst, ◌∙◌, ◌≢◌, inl, inr, true, ◌&&◌, Option, none, some, List,
  [], ◌∷◌, ◌++◌, String, arith, All, map, is_none, Bool-cases, Option-cases, ◌⊎◌, if◌then◌else◌,
}
use cliapp.Controller.Error.{Error}
use cliapp.Controller.State.{ok}
use cliapp.Gate.Shell.{StdIn}
use cliapp.Gate.Io.{gen_client_io_streams, copied}
use cliapp.Gate.Io.Laws.{texts_of, never, IsTyped, reads_of, reads_of-loop}
use cliapp.Libcli.Exec.{
  Ended, as_found, raw_mode, Event, ends, winch, context_done, input, output, Terminal, Client,
  Session, turn, exchange, going, send, print, exec_cli_app, opened, first_message, new_client,
}

-- What holds of the terminal. Once the client has returned it is as it was found. A state of it is
-- saved only if the input is a terminal; in that case, from the first output on, the saved state is the
-- one that was found, and the terminal is raw until the client returns.
pub record KeepsTerminal (t : Terminal) (s : Session) : Type 0 where
  pub as_it_was : s.ended ≢ none → s.client.mode ≡ as_found
  pub only_terminals : s.client.saved ≢ none → t.stdin_is_terminal ≡ true
  pub saves :
      t.stdin_is_terminal ≡ true
      → s.client.printed ≢ []
      → (s.client.saved ≡ some as_found) × (s.ended ≡ none → s.client.mode ≡ raw_mode)

exchange-goes_on :
    (t : Terminal) (n : ℕ) (e : Event) (es : List Event) (c : Client)
    → (turn t n e c).ended ≡ none
    → exchange t n (e ∷ es) c ≡ exchange t (suc n) es (turn t n e c).client
unfolding exchange
exchange-goes_on t n e es c b =
    ap (λ o. if is_none o then exchange t (suc n) es (turn t n e c).client else turn t n e c) b

exchange-stops :
    (t : Terminal) (n : ℕ) (e : Event) (es : List Event) (c : Client) (x : Ended)
    → (turn t n e c).ended ≡ some x
    → exchange t n (e ∷ es) c ≡ turn t n e c
unfolding exchange
exchange-stops t n e es c x b =
    ap (λ o. if is_none o then exchange t (suc n) es (turn t n e c).client else turn t n e c) b

-- Nothing is saved and nothing changed, or the terminal is raw and the state it had is saved.
abbrev IsSettled : Terminal → Client → Type 0
IsSettled t c =
    (((c.saved ≡ none) × (c.mode ≡ as_found))
      ⊎ ((t.stdin_is_terminal ≡ true) × (c.saved ≡ some as_found) × (c.mode ≡ raw_mode)))
    × (t.stdin_is_terminal ≡ true → c.printed ≢ [] → c.saved ≢ none)

turn-IsSettled :
    (t : Terminal) (n : ℕ) (e : Event) (c : Client)
    → IsSettled t c
    → (turn t n e c).ended ≡ none
    → IsSettled t (turn t n e c).client
unfolding turn
turn-IsSettled t n e c h k = ground arith

turn-KeepsTerminal :
    (t : Terminal) (n : ℕ) (e : Event) (c : Client) → IsSettled t c → KeepsTerminal t (turn t n e c)
unfolding turn
turn-KeepsTerminal t n e c h = ground arith

exchange-KeepsTerminal :
    (t : Terminal) (n : ℕ) (es : List Event) (c : Client)
    → IsSettled t c
    → KeepsTerminal t (exchange t n es c)
unfolding exchange
exchange-KeepsTerminal t n [] c h = ground arith
exchange-KeepsTerminal t n (e ∷ es) c h = elim (Option-cases (turn t n e c).ended) [
  | inl b ↦
      subst (KeepsTerminal t) (sym (exchange-goes_on t n e es c b))
        (exchange-KeepsTerminal t (suc n) es (turn t n e c).client (turn-IsSettled t n e c h b))
  | inr (x, b) ↦
      subst (KeepsTerminal t) (sym (exchange-stops t n e es c x b)) (turn-KeepsTerminal t n e c h)
]

opened-KeepsTerminal :
    (t : Terminal) (es : List Event) (first : StdIn) (o : Option Error)
    → KeepsTerminal t (opened t first es o)
opened-KeepsTerminal t es first (some e) = ground arith
opened-KeepsTerminal t es first none =
    exchange-KeepsTerminal t 1 es (new_client (first ∷ [])) (ground arith)

-- However ExecCliApp ends, it leaves the terminal in the state in which it found it. It makes it raw
-- only where the input is a terminal, and then before the first output is printed; what it saves is the
-- state that it found, and the terminal stays raw until it returns.
pub exec_cli_app-KeepsTerminal :
    (t : Terminal) (name namespace : String) (args : List String) (es : List Event)
    → KeepsTerminal t (exec_cli_app t name namespace args es)
unfolding exec_cli_app
exec_cli_app-KeepsTerminal t name namespace args es =
    opened-KeepsTerminal t es (first_message t name namespace args) _

-- The texts typed, in order
abbrev pub typed : List Event → List String
typed [] = []
typed (input (some text) ∷ es) = text ∷ typed es
typed (e ∷ es) = typed es

-- Nothing ends the loop, and each text typed fits the buffer.
abbrev pub IsGoing : ℕ → List Event → Type 0
IsGoing size [] = Unit
IsGoing size (ends e ∷ es) = ⊥
IsGoing size (context_done ∷ es) = ⊥
IsGoing size (input (some text) ∷ es) = (len text ≤ size) × IsGoing size es
IsGoing size (e ∷ es) = IsGoing size es

-- The connection takes every message, and the terminal can be made raw.
abbrev pub Works : Terminal → Type 0
Works t = ((sent : List StdIn) (m : StdIn) → t.send_error sent m ≡ none) × (t.make_raw ≡ none)

abbrev SendsTexts : ℕ → List StdIn → List String → List StdIn → Type 0
SendsTexts size before texts after =
    (ms : List StdIn) × (after ≡ before ++ ms)
    × (texts_of ms ≡ texts)
    × All (λ m. IsTyped size m.input) ms

SendsTexts-message :
    (size : ℕ) (before : List StdIn) (m : StdIn) (texts : List String) (after : List StdIn)
    → IsTyped size m.input
    → SendsTexts size (before ++ m ∷ []) texts after
    → SendsTexts size before (m.input ++ texts) after
SendsTexts-message size before m texts after h (ms, e, f, all) =
    (m ∷ ms, e ∙ append_assoc before (m ∷ []) ms, ap (λ r. m.input ++ r) f, (h, all))

pub exchange-going :
    (t : Terminal) (n : ℕ) (e : Event) (es : List Event) (c d : Client)
    → turn t n e c ≡ going d
    → exchange t n (e ∷ es) c ≡ exchange t (suc n) es d
unfolding exchange
exchange-going t n e es c d h =
    ap (λ s. if is_none s.ended then exchange t (suc n) es s.client else s) h

turn-output :
    (t : Terminal) (n : ℕ) (out : String) (c : Client)
    → Works t
    → (d : Client) × (turn t n (output (some out)) c ≡ going d) × (d.sent ≡ c.sent)
unfolding turn
turn-output t n out c w = elim (Bool-cases (t.stdin_is_terminal && is_none c.saved)) [
  | inl b ↦ (print out (record c { mode = raw_mode; saved = some c.mode }), ground arith, refl)
  | inr b ↦ (print out c, ground arith, refl)
]

turn-send :
    (t : Terminal) (m : StdIn) (c : Client)
    → Works t
    → send t m c ≡ going (record c { sent = c.sent ++ m ∷ [] })
turn-send t m c w = ground (arith, w.0 c.sent m)

exchange-sent :
    (size : ℕ) (t : Terminal) (n : ℕ) (es : List Event) (c : Client)
    → Works t
    → IsGoing size es
    → SendsTexts size c.sent (typed es) (exchange t n es c).client.sent
unfolding exchange turn
exchange-sent size t n [] c w g = ([], sym (append-nil c.sent), refl, tt)
exchange-sent size t n (ends e ∷ es) c w g = absurd g
exchange-sent size t n (context_done ∷ es) c w g = absurd g
exchange-sent size t n (winch ∷ es) c w g = elim (Bool-cases t.stdout_is_terminal) [
  | inl b ↦
      let m : StdIn = record { app = none; input = []; terminal_size = t.size n } in
      let e : turn t n winch c ≡ going (record c { sent = c.sent ++ m ∷ [] }) =
        ground (arith, turn-send t m c w) in
      subst (λ s. SendsTexts size c.sent (typed es) s.client.sent)
        (sym (exchange-going t n winch es c _ e))
        (SendsTexts-message size c.sent m (typed es) _ tt
          (exchange-sent size t (suc n) es (record c { sent = c.sent ++ m ∷ [] }) w g))
  | inr b ↦
      let e : turn t n winch c ≡ going c = ground arith in
      subst (λ s. SendsTexts size c.sent (typed es) s.client.sent)
        (sym (exchange-going t n winch es c c e)) (exchange-sent size t (suc n) es c w g)
]
exchange-sent size t n (input none ∷ es) c w g = exchange-sent size t (suc n) es c w g
exchange-sent size t n (input (some text) ∷ es) c w (g, gs) =
    let m : StdIn = record { app = none; input = text ∷ []; terminal_size = none } in
    subst (λ s. SendsTexts size c.sent (text ∷ typed es) s.client.sent)
      (sym (exchange-going t n (input (some text)) es c _ (turn-send t m c w)))
      (SendsTexts-message size c.sent m (typed es) _ g
        (exchange-sent size t (suc n) es (record c { sent = c.sent ++ m ∷ [] }) w gs))
exchange-sent size t n (output none ∷ es) c w g = exchange-sent size t (suc n) es c w g
exchange-sent size t n (output (some out) ∷ es) c w g =
    let (d, e, f) = turn-output t n out c w in
    subst (λ s. SendsTexts size c.sent (typed es) s.client.sent)
      (sym (exchange-going t n (output (some out)) es c d e))
      (subst (λ b. SendsTexts size b (typed es) (exchange t (suc n) es d).client.sent) f
        (exchange-sent size t (suc n) es d w g))

-- Where the connection takes every message, the terminal can be made raw, nothing ends the loop and
-- each text typed fits the buffer of the gate's reads, the client sends the first message and messages
-- behind it from which the gate's reader, which nobody closes, brings exactly the texts typed, in
-- order; sizes of the terminal in between change nothing.
pub exec_cli_app-reads_of :
    (size : ℕ) (t : Terminal) (name namespace : String) (args : List String) (es : List Event)
    → Works t
    → IsGoing size es
    → (ms : List StdIn) × ((exec_cli_app t name namespace args es).client.sent
        ≡ first_message t name namespace args ∷ ms)
      × (reads_of size (
            gen_client_io_streams
              (first_message t name namespace args).terminal_size
              never
              (map ok ms))
          ≡ map copied (typed es))
unfolding exec_cli_app
exec_cli_app-reads_of size t name namespace args es w g =
    let first = first_message t name namespace args in
    let (ms, e, f, all) = exchange-sent size t 1 es (new_client (first ∷ [])) w g in
    let begun = ap (λ o. (opened t first es o).client.sent) (w.0 [] first) in
    (ms, begun ∙ e, reads_of-loop size first.terminal_size ms all ∙ ap (map copied) f)
