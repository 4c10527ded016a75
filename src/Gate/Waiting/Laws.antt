-- ===== src/Gate/Waiting/Laws.antt =====
-- What the clients of one opening (pkg/gate/session.go, pkg/gate/gate.go) come to.
use cliapp.Base.{
  ℕ, zero, suc, ◌≡◌, refl, is_blank, false, length, ap, ◌∙◌, Option, none, some, List, ◌∷◌, arith,
  All, map,
}
use cliapp.Api.{CliApp}
use cliapp.Controller.Error.{Error, message}
use cliapp.Controller.State.{Answer, ok, err}
use cliapp.Gate.Session.{AppSession, done}
use cliapp.Gate.Shell.{
  App, StdIn, Exec, Streamed, Reply, status_error, unavailable, crashes, open_shell,
  shell_requested, shell_opened, ended, exited, broke, fine, aborted,
}
use cliapp.Base.Text.Decimal.{itoa}
use cliapp.Gate.Waiting.{received, answer_of, answers, commit_open}

-- What the gate replies to a client whose session answers `a`.
abbrev pub reply_to : (Exec → Streamed) → StdIn → Answer (Option CliApp) → Reply
reply_to stream req a = (open_shell (λ ns name. a) stream (ok req)).reply

-- What a client gets for what the stream to the container comes to.
abbrev pub IsReplyTo : Streamed → Reply → Type 0
IsReplyTo ended r = r ≡ fine
IsReplyTo (exited n) r = r ≡ status_error aborted (itoa n)
IsReplyTo (broke e) r = r ≡ status_error unavailable (message e)

-- A request for the session of an app.
pub record IsNamed (req : StdIn) (key : App) : Type 0 where
  pub app : req.app ≡ some key
  pub name : is_blank key.name ≡ false
  pub namespace : is_blank key.namespace ≡ false

module _ (stream : Exec → Streamed) (req : StdIn) (key : App) (h : IsNamed req key) where
  reply_to-opened :
      (a : Answer (Option CliApp))
      → reply_to stream req a ≡ (shell_opened stream key req.input a).reply
  unfolding open_shell shell_requested
  reply_to-opened a =
      ap (λ o. (shell_requested (λ ns name. a) stream o req.input).reply) h.app
      ∙ ground (arith, h.name, h.namespace)

  received-closed :
      (P : Reply → Type 0) (app : Option CliApp) (n : ℕ)
      → P (reply_to stream req (ok app))
      → All (λ a. P (reply_to stream req a)) (map (answer_of app) (received none n))
  unfolding received
  received-closed P app zero e = tt
  received-closed P app (suc n) e = (e, received-closed P app n e)

received-length : (app : Option CliApp) (n : ℕ) → length (map (answer_of app) (received none n)) ≡ n
unfolding received
received-length app zero = refl
received-length app (suc n) = ap suc (received-length app n)

-- An opening that fails in a session without an app gives its error to one of the n + 1 clients
-- that wait on it with a request that names its app; for each of the n others the gate crashes.
pub commit_open-failed :
    (stream : Exec → Streamed) (req : StdIn) (key : App) (t : AppSession) (e : Error) (n : ℕ)
    → IsNamed req key
    → t.app ≡ none
    → (a : Answer (Option CliApp)) × (others : List (Answer (Option CliApp))) × (commit_open
          (err e)
          (suc n)
          t
        ≡ done (a ∷ others) t)
      × (length others ≡ n)
      × (reply_to stream req a ≡ status_error unavailable (message e))
      × All (λ a. reply_to stream req a ≡ crashes "app.Spec") others
unfolding commit_open answers received shell_opened
commit_open-failed stream req key t e n h q = (
  err e,
  map (answer_of none) (received none n),
  ground arith,
  received-length none n,
  reply_to-opened stream req key h (err e),
  received-closed stream req key h (λ r. r ≡ crashes "app.Spec") none n
      (reply_to-opened stream req key h (ok none)),
)
