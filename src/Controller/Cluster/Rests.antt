-- ===== src/Controller/Cluster/Rests.antt =====
-- From ShuttingDown to Rest in a cluster (controllers/).
use cliapp.Base.{◌≢◌, ◌≡◌, refl, ap, ◌∙◌, inl, inr, none, [], ◌∷◌, String, arith}
use cliapp.Api.{rest, shutting_down, waiting_for_sessions, CliApp}
use cliapp.Controller.Phases.{Edge-waiting}
use cliapp.Controller.State.{Env, History, ok, CliAppReconciler}
use cliapp.Controller.Env.{Echoes}
use cliapp.Controller.Pods.{group_pods}
use cliapp.Controller.Passes.{pass, passes}
use cliapp.Controller.Passes.Steps.{pass-Moves}
use cliapp.Controller.Passes.Settles.{IsResting, passes-rest}
use cliapp.Controller.Cluster.{pods_of, World, passed}
use cliapp.Controller.Cluster.Drained.{unmarked, passed-drained}

-- Two passes bring a valid app that shuts down to rest, and is not to be uninstalled, to Rest, though its
-- Pods still run: where the list call of the first pass answers the Pods that are there, none of them
-- terminating, and its deletions succeed; the Pods that it marked end between the passes; the list call
-- of the second pass answers the Pods that are left, and its updates of the status are saved. Updates that succeed are answered with what was sent.
pub drained-rest :
    (first second : Env) (r : CliAppReconciler) (w : World)
    → Echoes first
    → Echoes second
    → IsResting w.stored.app
    → w.stored.app.status.phase ≡ shutting_down
    → (let pods = pods_of w.stored.app.namespace w.stored.app.name w.pods in
        (first.list_cached_answer [] w.stored.app.namespace w.stored.app.name ≡ ok pods)
        × ((group_pods pods).terminating ≡ []))
    → ((h : History) (ns n : String) → first.delete_pod_answer h ns n ≡ none)
    → (let left = unmarked (passed first r w).pods in
        (namespace name : String)
        → second.list_cached_answer [] namespace name ≡ ok (pods_of namespace name left))
    → ((h : History) (a : CliApp) → second.update_status_answer h a ≡ ok a)
    → (passes (first ∷ second ∷ []) r w.stored).app.status.phase ≡ rest
drained-rest first second r w e f g p l k m saves =
    passes-rest r (first ∷ second ∷ []) w.stored 1 (e, (f, tt)) g
      (inr (
        inl (
          record { saves = saves; none_left = gone; late = λ q. absurd (not_waiting q) },
          (0, refl, refl),
        )))
      (ground (arith, p))
  where
    not_waiting : (pass first r w.stored).app.status.phase ≢ waiting_for_sessions
    not_waiting q = elim (pass-Moves e r w.stored).1 [ inl same ↦ cc | inr x ↦ Edge-waiting x q p ]

    gone :
        second.list_cached_answer []
          (pass first r w.stored).app.namespace
          (pass first r w.stored).app.name
        ≡ ok []
    gone =
        let named = (pass-Moves e r w.stored).0 in
        rw (named.1, named.2)
          (m w.stored.app.namespace w.stored.app.name
            ∙ ap ok (passed-drained first r w g.valid g.target p l k))
