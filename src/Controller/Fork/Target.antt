-- ===== src/Controller/Fork/Target.antt =====
-- The container of a fork that becomes the app's (fetchForkTargetPod of controllers/cliapp_fork.go).
use cliapp.Base.{
  ℕ, suc, ◌<◌, ◌≤◌, ◌≡◌, ◌≢◌, sym, subst, Bool-cases, ◌⊎◌, refl, inl, inr, Option, none, some, List,
  [], ◌∷◌, String, length, get_elem?, arith, All, eq_iff, ltb, ◌==◌, if◌then◌else◌,
}
use cliapp.Api.{ForkObject}
use cliapp.Kube.{Container}
use cliapp.Controller.State.{Answer, ok, err}
use cliapp.Controller.Fork.{index_of_container, choose_target, names}
use cliapp.Controller.Error.{container_not_found, many_containers}
use Prim.Native.String.{len}

abbrev IsIndexOf : String → List Container → Option ℕ → Type 0
IsIndexOf name ks none = All (λ k. k.name ≢ name) ks
IsIndexOf name ks (some i) = (k : Container) × (get_elem? ks i ≡ some k) × (k.name ≡ name)

index_of_container-IsIndexOf :
    (name : String) (ks : List Container) → IsIndexOf name ks (index_of_container name ks)
unfolding index_of_container
index_of_container-IsIndexOf name [] = tt
index_of_container-IsIndexOf name (k ∷ ks) =
    below (index_of_container name ks) (index_of_container-IsIndexOf name ks)
  where
    below :
        (o : Option ℕ)
        → IsIndexOf name ks o
        → IsIndexOf name
            (k ∷ ks)
            (if k.name == name then some 0 else elim o [ none ↦ none | some i ↦ some (suc i) ])
    below none h = elim (Bool-cases (k.name == name)) [
      | inl b ↦
          let named : k.name ≡ name = ground (arith, eq_iff k.name name) in
          subst (λ x. IsIndexOf name (k ∷ ks) (if x then some 0 else none)) (sym b) (k, refl, named)
      | inr b ↦
          let other : k.name ≢ name = ground (arith, eq_iff k.name name) in
          subst (λ x. IsIndexOf name (k ∷ ks) (if x then some 0 else none)) (sym b) (other, h)
    ]
    below (some i) h = elim (Bool-cases (k.name == name)) [
      | inl b ↦
          let named : k.name ≡ name = ground (arith, eq_iff k.name name) in
          subst (λ x. IsIndexOf name (k ∷ ks) (if x then some 0 else some (suc i))) (sym b)
            (k, refl, named)
      | inr b ↦ subst (λ x. IsIndexOf name (k ∷ ks) (if x then some 0 else some (suc i))) (sym b) h
    ]

-- What choose_target answers: the container that is named, or the only one.
abbrev pub IsTargetOf : ForkObject → List Container → Answer ℕ → Type 0
IsTargetOf fork ks (err e) =
    ((1 < len fork.container) × All (λ k. k.name ≢ fork.container) ks)
    ⊎ ((len fork.container ≤ 1) × (1 < length ks))
IsTargetOf fork ks (ok i) =
    ((1 < len fork.container)
      × ((k : Container) × (get_elem? ks i ≡ some k) × (k.name ≡ fork.container)))
    ⊎ ((len fork.container ≤ 1) × (i ≡ 0) × (length ks ≤ 1))

-- Where a fork's container has a name of more than one byte, the target is a container of that name,
-- and there is an error only if there is none of that name; else the target is the first container,
-- and there is an error only if there are several.
pub choose_target-IsTargetOf :
    (fork : ForkObject) (ks : List Container) → IsTargetOf fork ks (choose_target fork ks)
unfolding choose_target
choose_target-IsTargetOf fork ks =
    chosen (index_of_container fork.container ks) (index_of_container-IsIndexOf fork.container ks)
  where
    chosen :
        (o : Option ℕ)
        → IsIndexOf fork.container ks o
        → IsTargetOf fork ks (
            if ltb 1 (len fork.container)
            then elim o [
              | some i ↦ ok i
              | none ↦ err (container_not_found fork.container fork.object)
            ]
            else if ltb 1 (length ks)
            then err (many_containers fork.object (names ks))
            else ok 0)
    chosen none h = ground arith
    chosen (some i) h = ground arith
