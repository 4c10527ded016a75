-- ===== src/System.antt =====
-- The gate (pkg/gate/session.go) and the manager (controllers/) at work on one app. They share nothing
-- but the object at the API server: the gate changes its target, a pass of the reconciler its status.
-- An update of an object that has changed since it was read is refused there, so that an attempt of the
-- gate that writes reads what it writes to.
pub mod Course
pub mod Turns
pub mod Wakes
use cliapp.Base.{ℕ, ◌≡◌, List, [], ◌∷◌}
use cliapp.Api.{CliApp}
use cliapp.Controller.State.{Env, Answer, ok, CliAppReconciler}
use cliapp.Controller.Env.{Echoes}
use cliapp.Controller.Passes.{Stored, or_before, pass}
use cliapp.Gate.Start.{AppClient, Tried, try_start, try_close}

-- What the server holds behind the objects that an attempt sent.
kept : AppClient → ℕ → List CliApp → CliApp → CliApp
kept c n [] before = before
kept c n (app ∷ apps) before = kept c n apps (or_before (c.update n app) before)

-- Attempt `n` of startApp, on the object that the server holds.
unfoldable pub start_asked : AppClient → ℕ → Stored → Stored
unfolding try_start kept
start_asked c n s = record s { app = kept c n (try_start c n (ok s.app)).sent s.app }

-- Attempt `n` of closeApp.
unfoldable pub close_asked : AppClient → ℕ → Stored → Stored
unfolding try_close kept
close_asked c n s = record s { app = kept c n (try_close c n (ok s.app)).sent s.app }

-- An update that is accepted changes the spec as asked, and not the status.
abbrev pub IsEchoing : AppClient → Type 0
IsEchoing c =
    (n : ℕ) (a b : CliApp)
    → c.update n a ≡ ok b
    → (b.status.phase ≡ a.status.phase) × (b.spec ≡ a.spec)

pub data Actor : Type 0 where
  starter : Actor
  closer : Actor
  reconciler : Actor

pub data Step (r : CliAppReconciler) : Actor → Stored → Stored → Type 0 where
  starts :
      (c : AppClient) → IsEchoing c → (n : ℕ) (s : Stored) → Step r starter s (start_asked c n s)
  closes :
      (c : AppClient) → IsEchoing c → (n : ℕ) (s : Stored) → Step r closer s (close_asked c n s)
  reconciles : (env : Env) → Echoes env → (s : Stored) → Step r reconciler s (pass env r s)

-- Steps in order, with who takes each.
pub data Runs (r : CliAppReconciler) : List Actor → Stored → Stored → Type 0 where
  done : {s : Stored} → Runs r [] s s
  next :
      {who : Actor} {others : List Actor} {s t u : Stored}
      → Step r who s t
      → Runs r others t u
      → Runs r (who ∷ others) s u
