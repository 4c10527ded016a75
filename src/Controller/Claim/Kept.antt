-- ===== src/Controller/Claim/Kept.antt =====
-- Whether the Pod that claimPods (controllers/cliapp_live.go) takes is left alone, and the calls that
-- it makes.
use mathlib.Core.List.{Memᴰ}
use mathlib.Core.List.Memᴰ
use cliapp.Base.{
  ◌≡◌, refl, sym, ap, subst, ◌≢◌, true, false, some, List, [], ◌∷◌, String, arith, keep, All,
  All-append, All-keep, Distinct, Distinct-keep, Bool-cases, inl, inr,
}
use cliapp.Kube.{Pod}
use cliapp.Controller.Error.{Error, cannot_fetch}
use cliapp.Controller.State.{Env, State, returns, History, delete_pod, list_pods, ok, err}
use cliapp.Controller.Calls.{logged}
use cliapp.Controller.Claim.{
  is_outdated, rest_of, first_of_list, to_recycle, claimed, recycle, claim_pods,
}
use cliapp.Controller.Claim.Recycling.{
  is_current, marks, all_marks, mem-all_marks, claimed-eq-first, to_recycle-eq,
}

module _ (dump hash : String) (pod : Pod) where
  ne_of_outdated : (x : Pod) → is_outdated hash pod ≡ false → is_outdated hash x ≡ true → pod ≢ x
  ne_of_outdated x h k e = cc (ap (is_outdated hash) e)

  ne_of_current : (x : Pod) → is_current dump pod ≡ true → is_current dump x ≡ false → pod ≢ x
  ne_of_current x h k e = cc (ap (is_current dump) e)

  marks_ne :
      (x : Pod)
      → is_current dump pod ≡ true
      → is_outdated hash pod ≡ false
      → All (λ y. pod ≢ y) (marks dump hash x)
  marks_ne x c o = ground (arith, ne_of_outdated x o, ne_of_current x c)

  all_marks_ne :
      (pods : List Pod)
      → is_current dump pod ≡ true
      → is_outdated hash pod ≡ false
      → All (λ y. pod ≢ y) (all_marks dump hash pods)
  all_marks_ne [] c o = tt
  all_marks_ne (x ∷ pods) c o =
      All-append (λ y. pod ≢ y) (marks dump hash x) _ (marks_ne x c o) (all_marks_ne pods c o)

  rest_ne :
      (pods : List Pod)
      → Distinct pods
      → first_of_list pods ≡ some pod
      → All (λ y. pod ≢ y) (rest_of pods)
  rest_ne [] d h = tt
  rest_ne (x ∷ pods) (d, ds) h =
      let e : x ≡ pod = ground arith in subst (λ z. All (λ y. z ≢ y) pods) e d

  first_passes :
      (pods : List Pod)
      → first_of_list (keep (is_current dump) pods) ≡ some pod
      → (is_current dump pod ≡ true) × Memᴰ pod pods
  first_passes [] h = cc
  first_passes (x ∷ pods) h = elim (Bool-cases (is_current dump x)) [
    | inl c ↦
        let e : x ≡ pod = ground arith in
        (subst (λ y. is_current dump y ≡ true) e c, Memᴰ.head (sym e))
    | inr o ↦ let (c, m) = first_passes pods (rw o at h) in (c, Memᴰ.tail m)
  ]

  -- If the Pods of the list are distinct and the one that is taken has the hash of the spec, it is
  -- not among those to be deleted.
  pub claimed_kept :
      (pods : List Pod)
      → Distinct pods
      → claimed dump hash pods ≡ some pod
      → is_outdated hash pod ≡ false
      → All (λ y. pod ≢ y) (to_recycle dump hash pods)
  claimed_kept pods d h o =
      let first = rw (claimed-eq-first dump hash pods) at h in
      rw (to_recycle-eq dump hash pods) (
        All-append (λ y. pod ≢ y) (all_marks dump hash pods) _
          (all_marks_ne pods (first_passes pods first).0 o)
          (rest_ne _ (Distinct-keep (is_current dump) pods d) first))

  -- A Pod that is taken and has another hash than the spec is among those to be deleted.
  pub claimed_recycled :
      (pods : List Pod)
      → claimed dump hash pods ≡ some pod
      → is_outdated hash pod ≡ true
      → Memᴰ pod (to_recycle dump hash pods)
  claimed_recycled pods h o =
      let first = rw (claimed-eq-first dump hash pods) at h in
      let (c, m) = first_passes pods first in
      let own : Memᴰ pod (pod ∷ []) = Memᴰ.head refl in
      rw (to_recycle-eq dump hash pods)
        (Memᴰ.append_left _ (mem-all_marks dump hash pod pods m (ground (arith, own))))

-- The calls of the deletions, in their order, on top of a log.
abbrev pub deletions : String → List Pod → History → History
deletions namespace [] log = log
deletions namespace (pod ∷ pods) log =
    deletions namespace pods (delete_pod namespace pod.name ∷ log)

recycle-eq :
    (env : Env) (namespace : String) (pods : List Pod) (s : State)
    → recycle env namespace pods s ≡ returns tt (record s { log = deletions namespace pods s.log })
unfolding recycle
recycle-eq env namespace [] s = refl
recycle-eq env namespace (pod ∷ pods) s =
    recycle-eq env namespace pods (logged (delete_pod namespace pod.name) s)

-- claimPods lists the Pods of the app, deletes those to recycle, each in the namespace of the app and
-- whatever the deletions answer, and returns the one to take.
pub claim_pods_listed :
    (env : Env) (dump hash : String) (s : State) (pods : List Pod)
    → env.list_pods_answer s.log s.app.namespace s.app.name ≡ ok pods
    → claim_pods env dump hash s
      ≡ returns (ok (claimed dump hash pods)) (record s {
        log =
            deletions s.app.namespace
              (to_recycle dump hash pods)
              (list_pods s.app.namespace s.app.name ∷ s.log);
      })
unfolding claim_pods
claim_pods_listed env dump hash s pods h = ground (
  arith,
  recycle-eq env s.app.namespace (to_recycle dump hash pods)
      (logged (list_pods s.app.namespace s.app.name) s),
)

-- The Pod that is taken is one of the list.
pub claimed-All :
    (P : Pod → Type 0) (dump hash : String) (pods : List Pod)
    → All P pods
    → (pod : Pod) → claimed dump hash pods ≡ some pod
    → P pod
claimed-All P dump hash pods h pod e =
    first_of_list-All (keep (is_current dump) pods) (All-keep P (is_current dump) pods h)
      (rw (claimed-eq-first dump hash pods) at e)
  where
    first_of_list-All : (ps : List Pod) → All P ps → first_of_list ps ≡ some pod → P pod
    first_of_list-All [] k f = cc
    first_of_list-All (x ∷ ps) (k, ks) f = let same : x ≡ pod = ground arith in subst P same k

-- Where the list call fails nothing is deleted.
pub claim_pods_failed :
    (env : Env) (dump hash : String) (s : State) (e : Error)
    → env.list_pods_answer s.log s.app.namespace s.app.name ≡ err e
    → claim_pods env dump hash s
      ≡ returns (err (cannot_fetch "pods" e)) (logged (list_pods s.app.namespace s.app.name) s)
unfolding claim_pods
claim_pods_failed env dump hash s e h = ground arith
