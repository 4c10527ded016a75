-- ===== src/Gate/Start.antt =====
-- startApp and closeApp (pkg/gate/session.go): the gate asks for a target phase, and waits until the
-- app is Live. The API server is the parameter `AppClient`: an answer may differ at each attempt.
pub mod Laws
use cliapp.Base.{
  ℕ, zero, suc, Bool, true, false, not, ◌&&◌, ◌||◌, Option, none, some, List, [], ◌∷◌, ◌++◌, String,
  is_blank, if◌then◌else◌,
}
use cliapp.Api.{
  Phase, rest, recovering, building, live, waiting_for_sessions, CliApp, is_live, is_rest,
  with_target,
}
use cliapp.Controller.Error.{Error, external}
use cliapp.Controller.State.{Answer, ok, err}

-- What comes out of the select: an event of the watch, its end, or the end of the context.
pub data WatchEvent : Type 0 where
  added modified : CliApp → WatchEvent
  deleted : WatchEvent
  watch_error : String → WatchEvent
  unknown_type : String → WatchEvent
  closed : WatchEvent
  context_done : Error → WatchEvent

-- Attempts are numbered from 0. RetryOnConflict repeats the first one `repetitions` times, as what they
-- answer makes it.
pub record AppClient : Type 0 where
  pub get : ℕ → Answer CliApp
  pub update : ℕ → CliApp → Answer CliApp
  pub repetitions : ℕ
  pub watch : Answer (List WatchEvent)

-- The answer of an attempt, and the object that it sent, if any.
pub record Tried : Type 0 where
  pub answer : Answer CliApp
  pub sent : List CliApp

abbrev pub tried_with : List CliApp → Answer CliApp → Tried
tried_with apps a = record { answer = a; sent = apps }

-- The closure of startApp.
unfoldable pub try_start : AppClient → ℕ → Answer CliApp → Tried
try_start c n (err e) = tried_with [] (err e)
try_start c n (ok app) =
    let asked = with_target live app in
    if is_live app.status.phase || is_live app.spec.target_phase
    then tried_with [] (ok app)
    else tried_with (asked ∷ []) (c.update n asked)

-- The closure of closeApp. On success the app itself is not used.
unfoldable pub try_close : AppClient → ℕ → Answer CliApp → Tried
try_close c n (err e) = tried_with [] (err e)
try_close c n (ok app) =
    let asked = with_target rest app in
    if is_rest app.spec.target_phase
    then tried_with [] (ok app)
    else tried_with (asked ∷ []) (c.update n asked)

abbrev pub and_then : Tried → Tried → Tried
and_then a b = record { answer = b.answer; sent = a.sent ++ b.sent }

-- An attempt from number `n` on, repeated `left` times: only the last answer counts.
try_times : (ℕ → Tried) → (left n : ℕ) → Tried
try_times attempt zero n = attempt n
try_times attempt (suc left) n = and_then (attempt n) (try_times attempt left (suc n))

-- retry.RetryOnConflict around the closure of startApp
unfoldable pub request_start : AppClient → Tried
unfolding try_start try_times
request_start c = try_times (λ n. try_start c n (c.get n)) c.repetitions 0

pub close_app : AppClient → Tried
unfolding try_close try_times
close_app c = try_times (λ n. try_close c n (c.get n)) c.repetitions 0

-- What the wait comes to, with what was written to the client.
pub data Waited : Type 0 where
  started : CliApp → List String → Waited
  failed : Error → List String → Waited
  crashed : String → List String → Waited
  waiting : List String → Waited

abbrev after_line : List String → Waited → Waited
after_line ls (started app out) = started app (ls ++ out)
after_line ls (failed e out) = failed e (ls ++ out)
after_line ls (crashed w out) = crashed w (ls ++ out)
after_line ls (waiting out) = waiting (ls ++ out)

-- The lines of progress for a phase.
progress_lines : Phase → Bool → List String
progress_lines recovering true = "preparing Pods..." ∷ []
progress_lines recovering false = []
progress_lines waiting_for_sessions uninstall = []
progress_lines building uninstall = "building image..." ∷ []
progress_lines phase uninstall = "preparing Pods..." ∷ []

-- An event with the app: it is Live, has an error, or is not there yet.
on_app : CliApp → Waited → Waited
unfolding progress_lines
on_app app further =
    if is_live app.status.phase
    then started app []
    else if not (is_blank app.status.error)
    then failed (external app.status.error) []
    else after_line (progress_lines app.status.phase app.spec.uninstall_unless_live) further

unfoldable pub wait_live : List WatchEvent → Waited
unfolding on_app
wait_live [] = waiting []
wait_live (added app ∷ es) = on_app app (wait_live es)
wait_live (modified app ∷ es) = on_app app (wait_live es)
wait_live (deleted ∷ es) = failed (external "app is deleted") []
wait_live (watch_error text ∷ es) = failed (external text) []
wait_live (unknown_type type ∷ es) = crashed type []
wait_live (closed ∷ es) = failed (external "remote watch closed") []
wait_live (context_done e ∷ es) = failed e []

abbrev pub watched : Answer (List WatchEvent) → Waited
watched (err e) = failed e []
watched (ok es) = wait_live es

start_requested : AppClient → Answer CliApp → Waited
start_requested c (err e) = failed e []
start_requested c (ok app) = if is_live app.status.phase then started app [] else watched c.watch

unfoldable pub start_app : AppClient → Waited
unfolding request_start start_requested
start_app c = start_requested c (request_start c).answer
