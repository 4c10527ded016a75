-- ===== src/Controller/Cluster/Clean.antt =====
-- The Pods of an app at Rest (controllers/).
use cliapp.Base.{
  ◌≡◌, refl, sym, ◌∙◌, ◌≢◌, inl, inr, Bool, List, [], ◌∷◌, map, String, keep, All, arith,
}
use cliapp.Api.{rest, building, shutting_down}
use cliapp.Kube.{Pod}
use cliapp.Controller.State.{Env, History, create_pod, delete_pod, after, CliAppReconciler}
use cliapp.Controller.Env.{Echoes}
use cliapp.Controller.Phases.{Moves, Edge-rest, Edge-building}
use cliapp.Controller.Sends.{GoesOn}
use cliapp.Controller.Rest.Calls.{IsStopping}
use cliapp.Controller.Reconcile.{reconcile_app}
use cliapp.Controller.Reconcile.Stops.{StaysDown, reconcile_app-OnlyStops, reconcile_app-Waits}
use cliapp.Controller.Passes.{begin, pass}
use cliapp.Controller.Passes.Steps.{pass-Moves, pass-IsNext_sent}
use cliapp.Controller.Cluster.{
  pods_of, marked, pods_after, ShowsPods, World, passed, Step, passes, loses, asks, Reach, here,
  next, IsClean,
}

module _ (namespace name : String) where
  map-marked-none :
      (now : _) (ns n : String) (pods : List Pod)
      → pods_of namespace name pods ≡ []
      → pods_of namespace name (map (marked now ns n) pods) ≡ []
  map-marked-none now ns n [] h = refl
  map-marked-none now ns n (pod ∷ pods) h = ground (arith, map-marked-none now ns n pods)

  pub keep-none :
      (stays : Pod → Bool) (pods : List Pod)
      → pods_of namespace name pods ≡ []
      → pods_of namespace name (keep stays pods) ≡ []
  keep-none stays [] h = refl
  keep-none stays (pod ∷ pods) h = ground (arith, keep-none stays pods)

  -- Calls that create no Pod bring none.
  pub pods_after-none :
      (env : Env) (pods : List Pod) (h : History)
      → All IsStopping h
      → pods_of namespace name pods ≡ []
      → pods_of namespace name (pods_after env pods h) ≡ []
  unfolding pods_after
  pods_after-none env pods [] s k = k
  pods_after-none env pods (create_pod pod ∷ h) (s, ss) k = absurd s
  pods_after-none env pods (delete_pod ns n ∷ h) (s, ss) k = ground (
    arith,
    pods_after-none env pods h ss k,
    map-marked-none (env.now h) ns n (pods_after env pods h),
  )
  pods_after-none env pods (call ∷ h) (s, ss) k = pods_after-none env pods h ss k

module _ {env : Env} (e : Echoes env) (r : CliAppReconciler) (w : World)
    (lists : ShowsPods env w.pods) where
  -- What is stored behind a pass that does not learn that the Pods are gone is not at Rest.
  waits-not_at_rest :
      GoesOn (λ c. Unit) building shutting_down (after (reconcile_app env r (begin w.stored)))
      → w.stored.app.status.phase ≡ shutting_down
      → (pass env r w.stored).app.status.phase ≢ rest
  waits-not_at_rest g p q =
      apart (pass-IsNext_sent (λ c. Unit) building shutting_down e r w.stored (tt, inl p) g.sent).1
    where
      apart : Moves building shutting_down (pass env r w.stored).app.status.phase → ⊥
      apart (inl same) = cc
      apart (inr x) = Edge-building x refl

  none_before :
      (pass env r w.stored).app.status.phase ≡ rest
      → IsClean w
      → StaysDown w.stored.app × (pods_of w.stored.app.namespace w.stored.app.name w.pods ≡ [])
  unfolding pods_after
  none_before q c = elim (pass-Moves e r w.stored).1 [
    | inl same ↦ let p = sym same ∙ q in (inr p, c p)
    | inr x ↦
        let (t, p) = Edge-rest x q in
        (
          inl t,
          elim (reconcile_app-Waits e r (begin w.stored) t p tt) [
            | inl l ↦ lists w.stored.app.namespace w.stored.app.name l
            | inr g ↦ absurd (waits-not_at_rest g p q)
          ],
        )
  ]

  passed-IsClean : IsClean w → IsClean (passed env r w)
  passed-IsClean c q =
      let (named, m) = pass-Moves e r w.stored in
      let (down, none_left) = none_before q c in
      let s = reconcile_app-OnlyStops env r (begin w.stored) down tt in
      let h = (after (reconcile_app env r (begin w.stored))).log in
      rw (named.1, named.2)
        (pods_after-none w.stored.app.namespace w.stored.app.name env w.pods h s none_left)

Step-IsClean : {r : CliAppReconciler} {w v : World} → Step r w v → IsClean w → IsClean v
Step-IsClean {r} {w} (passes env e l) c q = passed-IsClean e r w l c q
Step-IsClean {r} {w} (loses stays) c q =
    keep-none w.stored.app.namespace w.stored.app.name stays w.pods (c q)
Step-IsClean (asks target) c q = c q

-- Where at the start of each pass the cache that it lists the Pods from shows none of an app's Pods only
-- if there are none, updates that succeed answer with what was sent, and an app at Rest has no Pods at
-- the start, an app at Rest has none in any state that is reached: however passes, Pods that end, and gates and users that ask for another target
-- take turns, and whichever calls of the passes fail.
pub Reach-IsClean : {r : CliAppReconciler} {w v : World} → Reach r w v → IsClean w → IsClean v
Reach-IsClean here c = c
Reach-IsClean (next x xs) c = Reach-IsClean xs (Step-IsClean x c)
