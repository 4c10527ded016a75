-- ===== src/Controller/Cluster/Stale.antt =====
-- A pass whose cache is behind the cluster (r.List of controllers/cliapp_rest.go).
use cliapp.Base.{ℕ, ◌≡◌, ◌≢◌, refl, inl, [], ◌∷◌, List, String, map, length, All, arith}
use cliapp.Api.{rest, shutting_down, waiting_for_sessions, CliApp}
use cliapp.Kube.{Pod}
use cliapp.Controller.State.{Env, History, create_pod, delete_pod, ok, after, CliAppReconciler}
use cliapp.Controller.Env.{Echoes}
use cliapp.Controller.Rest.Calls.{IsStopping}
use cliapp.Controller.Reconcile.{reconcile_app}
use cliapp.Controller.Reconcile.Stops.{reconcile_app-OnlyStops}
use cliapp.Controller.Passes.{begin, passes}
use cliapp.Controller.Passes.Settles.{IsResting, AreHelped, passes-rest}
use cliapp.Controller.Cluster.{pods_of, marked, pods_after, World, passed}

module _ (namespace name : String) where
  abbrev how_many : List Pod → ℕ
  how_many pods = length (pods_of namespace name pods)

  map-marked-how_many :
      (now : _) (ns n : String) (pods : List Pod)
      → how_many (map (marked now ns n) pods) ≡ how_many pods
  map-marked-how_many now ns n [] = refl
  map-marked-how_many now ns n (pod ∷ pods) = ground (arith, map-marked-how_many now ns n pods)

  pods_after-how_many :
      (env : Env) (pods : List Pod) (h : History)
      → All IsStopping h
      → how_many (pods_after env pods h) ≡ how_many pods
  unfolding pods_after
  pods_after-how_many env pods [] s = refl
  pods_after-how_many env pods (create_pod pod ∷ h) (s, ss) = absurd s
  pods_after-how_many env pods (delete_pod ns n ∷ h) (s, ss) = ground (
    arith,
    pods_after-how_many env pods h ss,
    map-marked-how_many (env.now h) ns n (pods_after env pods h),
  )
  pods_after-how_many env pods (call ∷ h) (s, ss) = pods_after-how_many env pods h ss

-- A pass over a valid app that shuts down to rest, and is not to be uninstalled, whose list call is
-- answered from a cache with none of the app's Pods, and whose updates of the status are saved and
-- answered with what was sent, puts the app to Rest and leaves as many Pods of it in the cluster as
-- there were.
pub stale_cache-rest :
    (env : Env) (r : CliAppReconciler) (w : World)
    → Echoes env
    → IsResting w.stored.app
    → w.stored.app.status.phase ≡ shutting_down
    → env.list_cached_answer [] w.stored.app.namespace w.stored.app.name ≡ ok []
    → ((h : History) (a : CliApp) → env.update_status_answer h a ≡ ok a)
    → ((passed env r w).stored.app.status.phase ≡ rest)
      × (length (pods_of w.stored.app.namespace w.stored.app.name (passed env r w).pods)
          ≡ length (pods_of w.stored.app.namespace w.stored.app.name w.pods))
unfolding passes
stale_cache-rest env r w e g p l saves = (
  at_rest,
  pods_after-how_many w.stored.app.namespace w.stored.app.name env w.pods
      (after (reconcile_app env r (begin w.stored))).log
      (reconcile_app-OnlyStops env r (begin w.stored) (inl g.target) tt),
)
  where
    waits : w.stored.app.status.phase ≢ waiting_for_sessions
    waits q = ground arith

    helped : AreHelped r 1 (env ∷ []) w.stored
    helped =
        inl (record { saves = saves; none_left = l; late = λ q. absurd (waits q) }, (0, refl, refl))

    at_rest : (passed env r w).stored.app.status.phase ≡ rest
    at_rest = passes-rest r (env ∷ []) w.stored 1 (e, tt) g helped (ground (arith, p))
