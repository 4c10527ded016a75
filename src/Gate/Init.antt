-- ===== src/Gate/Init.antt =====
-- The start of the gate: PrepareGate and init (pkg/gate/gate.go) and main (cmd/session-gate/session-gate.go). What the
-- cluster and the machine answer is the parameter `Host`.
pub mod Laws
use cliapp.Base.{Option, none, some, List, [], String}
use cliapp.Controller.Error.{Error, message}
use cliapp.Controller.State.{Answer, ok, err}
use cliapp.Gate.Start.{AppClient}
use cliapp.Gate.Table.{SessionMap}

pub record Host : Type 0 where
  pub scheme_error : Option Error
  pub config_error : Option Error
  pub clientset_error : Option Error
  pub app_client : Answer AppClient
  pub list_error : Option Error
  pub listen_error : Option Error
  pub serve_error : Option Error

-- terminalGate; `app_client` is a pointer.
pub record TerminalGate : Type 0 where
  pub app_client : Option AppClient
  pub session_map : SessionMap

pub data Started (A : Type 0) : Type 0 where
  panics : String → Started A
  ready : A → Started A

abbrev pub unless_failed : {A : Type 0} → Option Error → Started A → Started A
unless_failed none next = next
unless_failed (some e) next = panics (message e)

-- init: a client that cannot be made is left nil, without a panic.
pub init : Host → Started (Option AppClient)
init host = unless_failed host.scheme_error (
    unless_failed host.config_error (
      unless_failed host.clientset_error (elim host.app_client [
        | err e ↦ ready none
        | ok c ↦ unless_failed host.list_error (ready (some c))
      ])))

abbrev pub new_gate : Started (Option AppClient) → Started TerminalGate
new_gate (panics why) = panics why
new_gate (ready c) = ready (record { app_client = c; session_map = [] })

pub prepare_gate : Host → Started TerminalGate
unfolding init
prepare_gate host = new_gate (init host)

-- main: the gate that serves until Serve returns. An error of Serve is a panic at the end.
pub main : Host → Started TerminalGate
unfolding prepare_gate
main host = elim (prepare_gate host) [
  | panics why ↦ panics why
  | ready gate ↦ unless_failed host.listen_error (ready gate)
]

-- The end of main, once Serve has returned.
pub end_of_main : Host → TerminalGate → Started TerminalGate
end_of_main host gate = unless_failed host.serve_error (ready gate)
