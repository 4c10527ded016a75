-- ===== src/Controller/Cluster/Drained.antt =====
-- The Pods of an app that shuts down (controllers/).
use mathlib.Core.Bool.{Bool-set}
use mathlib.Core.Logic.{∥∥₁_elim}
use mathlib.Core.List.{Memᴰ, Permᴰ}
use cliapp.Base.{
  ◌≡◌, refl, sym, ap, subst, ◌∙◌, inl, inr, Bool, true, false, not, ◌||◌, ◌&&◌, none, List, [], ◌∷◌,
  map, Perm, String, ◌==◌, is_none, keep, All, eq_iff, Bool-cases, arith,
}
use cliapp.Api.{rest, shutting_down, CliApp}
use cliapp.Controller.State.{ok, after, list_cached, CliAppReconciler}
use cliapp.Controller.Pods.{group_pods}
use cliapp.Controller.Validate.{IsAcceptable}
use cliapp.Controller.Rest.Drains.{make_app_rest-Drains}
use cliapp.Controller.Reconcile.{with_error, reconcile_app}
use cliapp.Controller.Reconcile.Behind.{reconcile_app-log}
use cliapp.Controller.Reconcile.Stops.{reconcile_app-OnlyStops}
use cliapp.Controller.Passes.{begin}
use cliapp.Controller.Cluster.{World, passed}
use cliapp.Controller.Cluster.Clean.{pods_after-none, keep-none}
use cliapp.Kube.{Pod}
use cliapp.Controller.State.{Env, History, delete_pod}
use cliapp.Controller.Rest.Drains.{deletions}
use cliapp.Controller.Cluster.{is_of, pods_of, marked, pods_after}

-- One of the Pods has the name and the namespace of this one.
abbrev named_in : List Pod → Pod → Bool
named_in [] pod = false
named_in (d ∷ ds) pod = (pod.namespace == d.namespace && pod.name == d.name) || named_in ds pod

named_in-swapped : (pod : Pod) {xs ys : List Pod} → Permᴰ xs ys → named_in xs pod ≡ named_in ys pod
named_in-swapped pod Permᴰ.nil = refl
named_in-swapped pod (Permᴰ.cons e p) = ground (arith, e, named_in-swapped pod p)
named_in-swapped pod (Permᴰ.swap e f) = ground (arith, e, f)
named_in-swapped pod (Permᴰ.trans p q) = named_in-swapped pod p ∙ named_in-swapped pod q

named_in-perm : (pod : Pod) {xs ys : List Pod} → Perm xs ys → named_in xs pod ≡ named_in ys pod
named_in-perm pod p = ∥∥₁_elim p (Bool-set _ _) (λ q. named_in-swapped pod q)

-- A Pod of the list has the name of one of the list.
keep-named_in :
    (is : Pod → Bool) (pod : Pod) (pods : List Pod)
    → (is pod ≡ true)
    → Memᴰ pod pods
    → named_in (keep is pods) pod ≡ true
keep-named_in is pod [] i m = elim m [ ]
keep-named_in is pod (x ∷ pods) i (Memᴰ.head e) =
    ground (arith, i, e, eq_iff pod.name pod.name, eq_iff pod.namespace pod.namespace)
keep-named_in is pod (x ∷ pods) i (Memᴰ.tail m) = ground (arith, keep-named_in is pod pods i m)

All-Memᴰ : (P : Pod → Type 0) (pods : List Pod) → ((pod : Pod) → Memᴰ pod pods → P pod) → All P pods
All-Memᴰ P [] k = tt
All-Memᴰ P (pod ∷ pods) k = (k pod (Memᴰ.head refl), All-Memᴰ P pods (λ p m. k p (Memᴰ.tail m)))

module _ (namespace name : String) where
  -- Another app's Pod, or one that is marked, or that is still to be.
  abbrev is_dealt_with : List Pod → Pod → Bool
  is_dealt_with ds pod =
      not (is_of namespace name pod) || (not (is_none pod.deletion_timestamp) || named_in ds pod)

  map-marked-All :
      (now : _) (d : Pod) (ds pods : List Pod)
      → All (λ p. is_dealt_with (d ∷ ds) p ≡ true) pods
      → All (λ p. is_dealt_with ds p ≡ true) (map (marked now d.namespace d.name) pods)
  map-marked-All now d ds [] h = tt
  map-marked-All now d ds (pod ∷ pods) (h, hs) =
      (ground (arith, h), map-marked-All now d ds pods hs)

  deletions-All :
      (env : Env) (pods ds : List Pod) (log : History)
      → ((h : History) (ns n : String) → env.delete_pod_answer h ns n ≡ none)
      → All (λ p. is_dealt_with ds p ≡ true) (pods_after env pods log)
      → All (λ p. is_dealt_with [] p ≡ true) (pods_after env pods (deletions ds log))
  unfolding pods_after
  deletions-All env pods [] log k h = h
  deletions-All env pods (d ∷ ds) log k h =
      deletions-All env pods ds (delete_pod d.namespace d.name ∷ log) k (
        ground (
          arith,
          k log d.namespace d.name,
          map-marked-All (env.now log) d ds (pods_after env pods log) h,
        ))

  dealt_with-none :
      (pods : List Pod)
      → All (λ p. is_dealt_with [] p ≡ true) pods
      → pods_of namespace name (keep (λ p. is_none p.deletion_timestamp) pods) ≡ []
  dealt_with-none [] h = refl
  dealt_with-none (pod ∷ pods) (h, hs) = ground (arith, h, dealt_with-none pods hs)

-- The Pods that are not marked: those that are left when the others have ended.
abbrev pub unmarked : List Pod → List Pod
unmarked pods = keep (λ p. is_none p.deletion_timestamp) pods

module _ (env : Env) (r : CliAppReconciler) (w : World) (a : IsAcceptable w.stored.app)
    (t : w.stored.app.spec.target_phase ≡ rest)
    (p : w.stored.app.status.phase ≡ shutting_down) where
  abbrev app : CliApp
  app = w.stored.app

  abbrev AllDone : History → Type 0
  AllDone h = All (λ q. is_dealt_with app.namespace app.name [] q ≡ true) (pods_after env w.pods h)

  -- Deletions that succeed of all Pods that the list call answered
  deleted-AllDone :
      (deleted : List Pod)
      → Perm (pods_of app.namespace app.name w.pods) deleted
      → ((h : History) (ns n : String) → env.delete_pod_answer h ns n ≡ none)
      → AllDone (deletions deleted (list_cached app.namespace app.name ∷ []))
  unfolding pods_after
  deleted-AllDone deleted m k =
      deletions-All app.namespace app.name env w.pods deleted
        (list_cached app.namespace app.name ∷ []) k
        (All-Memᴰ _ w.pods λ pod i. elim (Bool-cases (is_of app.namespace app.name pod)) [
          | inl c ↦
              let named = keep-named_in (is_of app.namespace app.name) pod w.pods c i in
              ground (arith, named_in-perm pod m, named)
          | inr c ↦ ground (arith, c)
        ])

  drained_of_pods :
      (pod : Pod) (pods : List Pod)
      → pods_of app.namespace app.name w.pods ≡ pod ∷ pods
      → env.list_cached_answer [] app.namespace app.name ≡ ok (pod ∷ pods)
      → (group_pods (pod ∷ pods)).terminating ≡ []
      → ((h : History) (ns n : String) → env.delete_pod_answer h ns n ≡ none)
      → AllDone (after (reconcile_app env r (begin w.stored))).log
  unfolding pods_after
  drained_of_pods pod pods e l g k =
      let cleared = record (begin w.stored) { app = with_error "" app } in
      let (x, log, o, d) = make_app_rest-Drains env r cleared pod pods t p l in
      reconcile_app-log AllDone (λ b h q. q) env r (begin w.stored) a t p
        (elim d [
          | inl q ↦ absurd (q.0 g)
          | inr (none_ends, (deleted, m, q)) ↦
              ground
                (arith, o, q, deleted-AllDone deleted (subst (λ ps. Perm ps deleted) (sym e) m) k)
        ])

-- A pass over a valid app that shuts down to rest leaves no Pod of it in the cluster but such as are
-- marked, which end: where the list call answers the Pods that are there, none of them is terminating
-- yet, and deletions succeed; whatever the other calls answer.
pub passed-drained :
    (env : Env) (r : CliAppReconciler) (w : World)
    → IsAcceptable w.stored.app
    → w.stored.app.spec.target_phase ≡ rest
    → w.stored.app.status.phase ≡ shutting_down
    → (let pods = pods_of w.stored.app.namespace w.stored.app.name w.pods in
        (env.list_cached_answer [] w.stored.app.namespace w.stored.app.name ≡ ok pods)
        × ((group_pods pods).terminating ≡ []))
    → ((h : History) (ns n : String) → env.delete_pod_answer h ns n ≡ none)
    → pods_of w.stored.app.namespace w.stored.app.name (unmarked (passed env r w).pods) ≡ []
passed-drained env r w a t p (l, g) k =
    by_pods (pods_of w.stored.app.namespace w.stored.app.name w.pods) refl
  where
    by_pods :
        (found : List Pod)
        → pods_of w.stored.app.namespace w.stored.app.name w.pods ≡ found
        → pods_of w.stored.app.namespace w.stored.app.name (unmarked (passed env r w).pods) ≡ []
    by_pods [] e =
        keep-none w.stored.app.namespace w.stored.app.name (λ q. is_none q.deletion_timestamp) _
          (pods_after-none w.stored.app.namespace w.stored.app.name env w.pods _
            (reconcile_app-OnlyStops env r (begin w.stored) (inl t) tt) e)
    by_pods (pod ∷ pods) e = dealt_with-none w.stored.app.namespace w.stored.app.name _ (
        drained_of_pods env r w a t p pod pods e (l ∙ ap ok e)
          (sym (ap (λ ps. (group_pods ps).terminating) e) ∙ g) k)
