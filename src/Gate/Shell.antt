-- ===== src/Gate/Shell.antt =====
-- OpenShell and attach (pkg/gate/gate.go). The stream to the container is the parameter `stream`: the
-- code that the program there ends with, or an error. Where a session's answer comes from is
-- modelled in Gate.Session.
pub mod Laws
use cliapp.Base.{
  ℕ, Bool, true, false, Option, none, some, List, [], ◌∷◌, ◌++◌, String, is_blank, is_nil,
  if◌then◌else◌,
}
use cliapp.Base.Text.Decimal.{itoa}
use cliapp.Api.{CliApp}
use cliapp.Controller.Error.{Error, message}
use cliapp.Controller.State.{Answer, ok, err}

-- grpc's codes that the gate answers with
pub data Code : Type 0 where
  unavailable invalid_argument aborted : Code

pub record App : Type 0 where
  pub name : String
  pub namespace : String

-- StdIn: a message that leaves `App` or `TerminalSize` out has a nil pointer there.
pub record StdIn : Type 0 where
  pub app : Option App
  pub input : List String
  pub terminal_size : Option (ℕ × ℕ)

-- PodExecOptions and where they are sent. The container is always "workspace", with a terminal.
pub record Exec : Type 0 where
  pub pod : String
  pub namespace : String
  pub container : String
  pub command : List String

pub data Streamed : Type 0 where
  ended : Streamed
  exited : ℕ → Streamed
  broke : Error → Streamed

-- The key of a session: namespace and name.
pub data Call : Type 0 where
  opens closes : String → String → Call
  runs : Exec → Call

-- What a client gets: nothing, where all went well, or a status. A crash is the gate's.
pub data Reply : Type 0 where
  fine : Reply
  status_error : Code → String → Reply
  crashes : String → Reply

pub record Served : Type 0 where
  pub reply : Reply
  pub calls : List Call

abbrev served : List Call → Reply → Served
served cs r = record { reply = r; calls = cs }

pub exec_command : CliApp → List String → List String
exec_command app cmd =
    if is_nil app.spec.command then cmd else "chroot" ∷ "/app-root" ∷ app.spec.command ++ cmd

pub exec_of : CliApp → List String → Exec
unfolding exec_command
exec_of app cmd = record {
  pod = app.status.pod_name;
  namespace = app.namespace;
  container = "workspace";
  command = exec_command app cmd;
}

-- The status for what attach returns
unfoldable pub attached : Streamed → Reply
attached ended = fine
attached (exited code) = status_error aborted (itoa code)
attached (broke e) = status_error unavailable (message e)

-- Behind the opening of the session; the deferred close runs on every way out. A session that
-- answers neither an app nor an error makes attach read through a nil pointer.
unfoldable pub shell_opened :
    (Exec → Streamed) → App → List String → Answer (Option CliApp) → Served
unfolding exec_of attached
shell_opened stream key cmd (err e) =
    served (opens key.namespace key.name ∷ closes key.namespace key.name ∷ [])
      (status_error unavailable (message e))
shell_opened stream key cmd (ok none) =
    served (opens key.namespace key.name ∷ closes key.namespace key.name ∷ []) (crashes "app.Spec")
shell_opened stream key cmd (ok (some app)) =
    served
      (opens key.namespace key.name ∷ runs (exec_of app cmd) ∷ closes key.namespace key.name ∷ [])
      (attached (stream (exec_of app cmd)))

unfoldable pub shell_requested :
    (String → String → Answer (Option CliApp))
    → (Exec → Streamed)
    → Option App
    → List String
    → Served
unfolding shell_opened
shell_requested answer stream none cmd = served [] (crashes "req.App.Name")
shell_requested answer stream (some key) cmd =
    if is_blank key.name
    then served [] (status_error invalid_argument "App.Name is required in the first request.")
    else if is_blank key.namespace
    then served [] (status_error invalid_argument "App.Namespace is required in the first request.")
    else shell_opened stream key cmd (answer key.namespace key.name)

-- `answer` is what the session of a namespace and a name answers.
unfoldable pub open_shell :
    (String → String → Answer (Option CliApp)) → (Exec → Streamed) → Answer StdIn → Served
unfolding shell_requested
open_shell answer stream (err e) = served [] (status_error unavailable (message e))
open_shell answer stream (ok req) = shell_requested answer stream req.app req.input
