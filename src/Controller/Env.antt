-- ===== src/Controller/Env.antt =====
-- What the reconciler relies on of the services behind `Env`.
use cliapp.Base.{◌≡◌, ◌≢◌, String, List, All}
use cliapp.Api.{CliApp, core}
use cliapp.Kube.{Pod}
use cliapp.Controller.State.{Env, History, ok}

-- A successful update answers with the object that was stored. An update of the status stores the
-- status and leaves the spec, and an update of the object stores the spec and leaves the status,
-- whose phase the sender has read before: otherwise the update fails with a conflict. Neither changes
-- the name and the namespace.
pub record Echoes (env : Env) : Type 0 where
  pub status :
      (h : History) (a b : CliApp)
      → env.update_status_answer h a ≡ ok b
      → (b.status ≡ a.status) × (core b ≡ core a)
  pub app :
      (h : History) (a b : CliApp)
      → env.update_app_answer h a ≡ ok b
      → (b.status.phase ≡ a.status.phase) × (core b ≡ core a)

-- Pods have names.
pub record NamesPods (env : Env) : Type 0 where
  pub named :
      (h : History) (namespace name : String) (pods : List Pod)
      → env.list_pods_answer h namespace name ≡ ok pods
      → All (λ p. p.name ≢ "") pods
