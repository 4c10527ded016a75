-- ===== src/Controller/Claim/Recycling.antt =====
-- Which Pod claimPods (controllers/cliapp_live.go) takes and which it deletes.
use mathlib.Core.List.{Memᴰ, append_assoc, append-nil}
use mathlib.Core.List.Memᴰ
use cliapp.Base.{
  ◌≡◌, refl, sym, ap, subst, ◌⊎◌, inl, inr, Bool, true, ◌&&◌, none, some, List, [], ◌∷◌, ◌++◌,
  String, ◌==◌, is_none, if◌then◌else◌, arith, keep, All, All-append, All-mono, All-keep_passes,
}
use cliapp.Kube.{Pod}
use cliapp.Controller.Start.{anno_key_spec_dump}
use cliapp.Controller.Claim.{
  annotation, is_outdated, Claims, sort_pod, sort_pods, no_claims, rest_of, first_of_list,
  to_recycle, claimed,
}

-- A Pod that is not being deleted and was made from the spec of the dump.
abbrev pub is_current : (dump : String) → Pod → Bool
is_current dump pod = is_none pod.deletion_timestamp && annotation anno_key_spec_dump pod == dump

-- The entries of one Pod in the list of old Pods: none, one or two.
abbrev pub marks : (dump hash : String) → Pod → List Pod
marks dump hash pod =
    if is_none pod.deletion_timestamp
    then (if is_outdated hash pod then pod ∷ [] else [])
      ++ (if annotation anno_key_spec_dump pod == dump then [] else pod ∷ [])
    else []

abbrev pub all_marks : (dump hash : String) → List Pod → List Pod
all_marks dump hash [] = []
all_marks dump hash (pod ∷ pods) = marks dump hash pod ++ all_marks dump hash pods

module _ (dump hash : String) where
  abbrev sorted : Claims → List Pod → Claims
  sorted c pods = record {
    old_pods = c.old_pods ++ all_marks dump hash pods;
    new_pods = c.new_pods ++ keep (is_current dump) pods;
  }

  sort_pod-eq :
      (pod : Pod) (c : Claims)
      → sort_pod dump hash pod c ≡ record {
        old_pods = c.old_pods ++ marks dump hash pod;
        new_pods = if is_current dump pod then c.new_pods ++ pod ∷ [] else c.new_pods;
      }
  unfolding sort_pod
  sort_pod-eq pod c =
      ground (arith, append-nil c.old_pods, append_assoc c.old_pods (pod ∷ []) (pod ∷ []))

  sort_pods-eq-sorted : (c : Claims) (pods : List Pod) → sort_pods dump hash c pods ≡ sorted c pods
  unfolding sort_pods
  sort_pods-eq-sorted c [] = simp append-nil
  sort_pods-eq-sorted c (pod ∷ pods) = ground (
    arith,
    sort_pod-eq pod c,
    sort_pods-eq-sorted (sort_pod dump hash pod c) pods,
    append_assoc c.old_pods (marks dump hash pod) (all_marks dump hash pods),
    append_assoc c.new_pods (pod ∷ []) (keep (is_current dump) pods),
  )

  -- The Pod that is taken is the first of the list that is not being deleted and has the dump of
  -- the spec.
  pub claimed-eq-first :
      (pods : List Pod) → claimed dump hash pods ≡ first_of_list (keep (is_current dump) pods)
  unfolding claimed
  claimed-eq-first pods = rw (sort_pods-eq-sorted no_claims pods)

  pub to_recycle-eq :
      (pods : List Pod)
      → to_recycle dump hash pods
        ≡ all_marks dump hash pods ++ rest_of (keep (is_current dump) pods)
  unfolding to_recycle
  to_recycle-eq pods = rw (sort_pods-eq-sorted no_claims pods)

  abbrev pub IsAlive : Pod → Type 0
  IsAlive pod = pod.deletion_timestamp ≡ none

  marks-IsAlive : (pod : Pod) → All IsAlive (marks dump hash pod)
  marks-IsAlive pod = ground arith

  all_marks-IsAlive : (pods : List Pod) → All IsAlive (all_marks dump hash pods)
  all_marks-IsAlive [] = tt
  all_marks-IsAlive (pod ∷ pods) =
      All-append IsAlive (marks dump hash pod) _ (marks-IsAlive pod) (all_marks-IsAlive pods)

  current-IsAlive : (pod : Pod) → is_current dump pod ≡ true → IsAlive pod
  current-IsAlive pod h = ground arith

  rest_of-All : (P : Pod → Type 0) (pods : List Pod) → All P pods → All P (rest_of pods)
  rest_of-All P [] h = tt
  rest_of-All P (pod ∷ pods) (h, hs) = hs

  -- A Pod that is being deleted already is not deleted again.
  to_recycle-IsAlive : (pods : List Pod) → All IsAlive (to_recycle dump hash pods)
  to_recycle-IsAlive pods = rw (to_recycle-eq pods) (
      All-append IsAlive (all_marks dump hash pods) _ (all_marks-IsAlive pods) (
        rest_of-All IsAlive (keep (is_current dump) pods) (
          All-mono current-IsAlive (keep (is_current dump) pods)
            (All-keep_passes (is_current dump) pods))))

  outdated_part : Pod → List Pod
  outdated_part pod = if is_outdated hash pod then pod ∷ [] else []

  marked_or_current :
      (pod : Pod) → IsAlive pod → Memᴰ pod (marks dump hash pod) ⊎ (is_current dump pod ≡ true)
  unfolding outdated_part
  marked_or_current pod h =
      let marked : Memᴰ pod (outdated_part pod ++ pod ∷ []) =
        Memᴰ.append_right (outdated_part pod) (Memᴰ.head refl) in
      ground (arith, marked)

  pub mem-all_marks :
      (pod : Pod) (pods : List Pod)
      → Memᴰ pod pods
      → Memᴰ pod (marks dump hash pod)
      → Memᴰ pod (all_marks dump hash pods)
  mem-all_marks pod [] h m = absurd (Memᴰ.not-nil h)
  mem-all_marks pod (x ∷ pods) (Memᴰ.head e) m =
      Memᴰ.append_left (all_marks dump hash pods) (subst (λ y. Memᴰ pod (marks dump hash y)) e m)
  mem-all_marks pod (x ∷ pods) (Memᴰ.tail h) m =
      Memᴰ.append_right (marks dump hash x) (mem-all_marks pod pods h m)

  mem-keep :
      (pod : Pod) (pods : List Pod)
      → Memᴰ pod pods
      → is_current dump pod ≡ true
      → Memᴰ pod (keep (is_current dump) pods)
  mem-keep pod [] h c = absurd (Memᴰ.not-nil h)
  mem-keep pod (x ∷ pods) (Memᴰ.head e) c =
      let here : Memᴰ pod (x ∷ keep (is_current dump) pods) = Memᴰ.head e in
      let same : is_current dump x ≡ true = subst (λ y. is_current dump y ≡ true) e c in
      rw same here
  mem-keep pod (x ∷ pods) (Memᴰ.tail h) c =
      let rest = mem-keep pod pods h c in
      let there : Memᴰ pod (x ∷ keep (is_current dump) pods) = Memᴰ.tail rest in
      ground (arith, rest, there)

  first_or_rest :
      (pod : Pod) (pods : List Pod)
      → Memᴰ pod pods
      → (first_of_list pods ≡ some pod) ⊎ Memᴰ pod (rest_of pods)
  first_or_rest pod [] h = absurd (Memᴰ.not-nil h)
  first_or_rest pod (x ∷ pods) (Memᴰ.head e) = inl (ap some (sym e))
  first_or_rest pod (x ∷ pods) (Memᴰ.tail h) = inr h

  -- Every Pod of the list that is not being deleted is deleted or taken.
  pub to_recycle-total :
      (pod : Pod) (pods : List Pod)
      → Memᴰ pod pods
      → IsAlive pod
      → (claimed dump hash pods ≡ some pod) ⊎ Memᴰ pod (to_recycle dump hash pods)
  to_recycle-total pod pods h alive =
      rw (to_recycle-eq pods, claimed-eq-first pods) (placed (marked_or_current pod alive))
    where
      placed :
          Memᴰ pod (marks dump hash pod) ⊎ (is_current dump pod ≡ true)
          → (first_of_list (keep (is_current dump) pods) ≡ some pod)
            ⊎ Memᴰ pod (all_marks dump hash pods ++ rest_of (keep (is_current dump) pods))
      placed (inl m) = inr (Memᴰ.append_left _ (mem-all_marks pod pods h m))
      placed (inr c) = elim (first_or_rest pod _ (mem-keep pod pods h c)) [
        | inl f ↦ inl f
        | inr m ↦ inr (Memᴰ.append_right (all_marks dump hash pods) m)
      ]
