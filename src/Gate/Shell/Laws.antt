-- ===== src/Gate/Shell/Laws.antt =====
-- What OpenShell (pkg/gate/gate.go) does on every way out.
use cliapp.Base.{
  ℕ, ap, ◌≡◌, refl, ◌≢◌, ◌⊎◌, Option, some, List, [], ◌∷◌, ◌++◌, String, arith, eq_iff, is_nil,
  if◌then◌else◌,
}
use cliapp.Base.Text.Decimal.{itoa, atoi}
use cliapp.Base.Text.Decimal.Laws.{atoi-itoa}
use cliapp.Api.{CliApp}
use cliapp.Controller.State.{Answer, ok}
use cliapp.Gate.Shell.{
  aborted, App, StdIn, Exec, Streamed, exited, Call, opens, closes, runs, status_error,
  exec_command, exec_of, attached, open_shell, shell_opened, shell_requested,
}

-- What runs for an app: in its Pod, in its namespace, in the container "workspace". The words are the
-- client's where the app has no command, else the app's in a change of root with the client's behind.
pub record IsExecOf (app : CliApp) (cmd : List String) (e : Exec) : Type 0 where
  pub pod : e.pod ≡ app.status.pod_name
  pub namespace : e.namespace ≡ app.namespace
  pub container : e.container ≡ "workspace"
  pub alone : app.spec.command ≡ [] → e.command ≡ cmd
  pub rooted : app.spec.command ≢ [] → e.command ≡ "chroot" ∷ "/app-root" ∷ app.spec.command ++ cmd

pub exec_of-IsExecOf : (app : CliApp) (cmd : List String) → IsExecOf app cmd (exec_of app cmd)
unfolding exec_of exec_command
exec_of-IsExecOf app cmd = record {
  pod = refl;
  namespace = refl;
  container = refl;
  alone = λ h. ap (λ own. if is_nil own then cmd else "chroot" ∷ "/app-root" ∷ own ++ cmd) h;
  rooted = λ h. of_command app.spec.command h;
}
  where
    of_command :
        (own : List String)
        → own ≢ []
        → (if is_nil own then cmd else "chroot" ∷ "/app-root" ∷ own ++ cmd)
          ≡ "chroot" ∷ "/app-root" ∷ own ++ cmd
    of_command [] h = absurd (h refl)
    of_command (w ∷ ws) h = refl

-- The calls for a request: none where its key is not whole. Else the session of that namespace and name
-- is opened and closed, and in between, if it answers an app, one command runs.
abbrev pub AreMeant :
    (String → String → Answer (Option CliApp)) → App → List String → List Call → Type 0
AreMeant answer key cmd calls =
    (((key.name ≡ "") ⊎ (key.namespace ≡ "")) × (calls ≡ []))
    ⊎ ((((app : CliApp) → answer key.namespace key.name ≢ ok (some app))
          × (calls ≡ opens key.namespace key.name ∷ closes key.namespace key.name ∷ []))
        ⊎ ((app : CliApp) × (e : Exec) × (answer key.namespace key.name ≡ ok (some app))
            × IsExecOf app cmd e
            × (calls ≡ opens key.namespace key.name ∷ runs e ∷ closes key.namespace key.name ∷ [])))

-- Where a request names an app whose session answers it, and the program in the Pod ends with a
-- code, the reply is the status Aborted, whose text is read as that code.
pub open_shell-exited :
    (answer : String → String → Answer (Option CliApp)) (stream : Exec → Streamed) (req : StdIn)
    (key : App) (app : CliApp) (n : ℕ)
    → req.app ≡ some key
    → key.name ≢ ""
    → key.namespace ≢ ""
    → answer key.namespace key.name ≡ ok (some app)
    → stream (exec_of app req.input) ≡ exited n
    → (text : String) × ((open_shell answer stream (ok req)).reply ≡ status_error aborted text)
      × (atoi text ≡ some n)
unfolding open_shell shell_requested shell_opened attached
open_shell-exited answer stream req key app n r h k a x =
    (itoa n, ground (arith, eq_iff key.name "", eq_iff key.namespace ""), atoi-itoa n)
