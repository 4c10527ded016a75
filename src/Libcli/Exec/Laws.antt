-- ===== src/Libcli/Exec/Laws.antt =====
-- What the client's loop (ExecCliApp of pkg/libcli/api.go) keeps to.
use cliapp.Base.{
  ℕ, ◌≡◌, refl, ap, ◌∙◌, ◌≢◌, Option, none, some, List, [], ◌∷◌, ◌++◌, String, arith, All,
}
use cliapp.Base.Text.Decimal.{atoi}
use cliapp.Api.{CliApp}
use cliapp.Controller.Error.{Error}
use cliapp.Controller.State.{Answer, ok}
use cliapp.Gate.Shell.{
  App, StdIn, Code, aborted, Exec, Streamed, exited, Reply, status_error, open_shell, exec_of,
}
use cliapp.Gate.Shell.Laws.{open_shell-exited}
use cliapp.Libcli.Exec.{
  exit_code, Dialled, connected, nobody, bad_endpoint, dial_first, RecvError, status_of, recv_ended,
}

-- grpc hands a status that the handler returns over to the client's Recv.
abbrev pub Delivers : (Reply → RecvError) → Type 0
Delivers deliver =
    (code : Code) (text : String)
    → (e : Error) × (deliver (status_error code text) ≡ status_of code text e)

recv_ended-aborted :
    (text : String) (e : Error) (n : ℕ)
    → atoi text ≡ some n
    → recv_ended (status_of aborted text e) ≡ exit_code n
unfolding recv_ended
recv_ended-aborted text e n h = ground arith

-- The code of the program in the Pod reaches the user: where a request names an app whose session
-- answers it, the program there ends with a code, and grpc delivers the gate's status, ExecCliApp's
-- receiver ends with that very exit code.
pub recv_ended-open_shell :
    (deliver : Reply → RecvError) (answer : String → String → Answer (Option CliApp))
    (stream : Exec → Streamed) (req : StdIn) (key : App) (app : CliApp) (n : ℕ)
    → Delivers deliver
    → req.app ≡ some key
    → key.name ≢ ""
    → key.namespace ≢ ""
    → answer key.namespace key.name ≡ ok (some app)
    → stream (exec_of app req.input) ≡ exited n
    → recv_ended (deliver (open_shell answer stream (ok req)).reply) ≡ exit_code n
recv_ended-open_shell deliver answer stream req key app n d r h k a x =
    let (text, reply, read) = open_shell-exited answer stream req key app n r h k a x in
    let (e, delivered) = d aborted text in
    ap (λ p. recv_ended (deliver p)) reply
    ∙ ap recv_ended delivered
    ∙ recv_ended-aborted text e n read

-- An endpoint is a URL at which nobody answers.
abbrev pub IsDown : {A : Type 0} → (String → Option String) → (String → Option A) → String → Type 0
IsDown parse dial ep = (host : String) × (parse ep ≡ some host) × (dial host ≡ none)

-- Why the loop over the endpoints came to its result.
abbrev pub Explains :
    {A : Type 0} → (String → Option String) → (String → Option A) → List String → Dialled A → Type 0
Explains parse dial eps nobody = All (IsDown parse dial) eps
Explains parse dial eps (bad_endpoint ep) =
    (before : List String) × (after : List String) × (eps ≡ before ++ ep ∷ after)
    × All (IsDown parse dial) before
    × (parse ep ≡ none)
Explains parse dial eps (connected cc) =
    (before : List String) × (ep : String) × (after : List String) × (host : String) × (eps
      ≡ before ++ ep ∷ after)
    × All (IsDown parse dial) before
    × (parse ep ≡ some host)
    × (dial host ≡ some cc)

Explains-down :
    {A : Type 0} (parse : String → Option String) (dial : String → Option A) (ep : String)
    (eps : List String) (d : Dialled A)
    → IsDown parse dial ep
    → Explains parse dial eps d
    → Explains parse dial (ep ∷ eps) d
Explains-down parse dial ep eps nobody h k = (h, k)
Explains-down parse dial ep eps (bad_endpoint bad) h (before, after, e, downs, p) =
    (ep ∷ before, after, ap (λ r. ep ∷ r) e, (h, downs), p)
Explains-down parse dial ep eps (connected cc) h (before, found, after, host, e, downs, p, q) =
    (ep ∷ before, found, after, host, ap (λ r. ep ∷ r) e, (h, downs), p, q)

-- The client connects to the first endpoint that answers: before it stand only endpoints at which
-- nobody answers. With nobody as the result, nobody answers at any, and a panic is about an endpoint
-- that is no URL, behind endpoints at which nobody answers.
dial_first-Explains :
    {A : Type 0} (parse : String → Option String) (dial : String → Option A) (eps : List String)
    → Explains parse dial eps (dial_first parse dial eps)
unfolding dial_first
dial_first-Explains parse dial [] = tt
dial_first-Explains parse dial (ep ∷ eps) =
    parsed (parse ep) refl (dial_first-Explains parse dial eps)
  where
    dialled :
        (host : String) (o : Option _)
        → parse ep ≡ some host
        → dial host ≡ o
        → Explains parse dial eps (dial_first parse dial eps)
        → Explains parse dial
            (ep ∷ eps)
            (elim o [ some cc ↦ connected cc | none ↦ dial_first parse dial eps ])
    dialled host none p q ih =
        Explains-down parse dial ep eps (dial_first parse dial eps) (host, p, q) ih
    dialled host (some cc) p q ih = ([], ep, eps, host, refl, tt, p, q)

    parsed :
        (o : Option String)
        → parse ep ≡ o
        → Explains parse dial eps (dial_first parse dial eps)
        → Explains parse dial (ep ∷ eps) (elim o [
          | none ↦ bad_endpoint ep
          | some host ↦ elim (dial host) [
            | some cc ↦ connected cc
            | none ↦ dial_first parse dial eps
          ]
        ])
    parsed none p ih = ([], eps, refl, tt, p)
    parsed (some host) p ih = dialled host (dial host) p refl ih
