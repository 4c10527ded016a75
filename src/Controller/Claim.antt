-- ===== src/Controller/Claim.antt =====
-- claimPods (controllers/cliapp_live.go).
pub mod Keeps
pub mod Recycling
pub mod Kept
pub mod Created
use cliapp.Base.{
  Bool, not, ◌||◌, Option, none, some, List, [], ◌∷◌, ◌++◌, String, ◌==◌, is_blank, is_none, is_nil,
  if◌then◌else◌, lookup,
}
use cliapp.Kube.{Pod}
use cliapp.Controller.Error.{cannot_fetch}
use cliapp.Controller.State.{Env, M, ◌>>=◌, ◌>>◌, pure, Answer, ok, err}
use cliapp.Controller.Calls.{fetch_pods, remove_pod}
use cliapp.Controller.Start.{anno_key_spec_hash, anno_key_spec_dump}

abbrev text_or_blank : Option String → String
text_or_blank none = ""
text_or_blank (some s) = s

-- `pod.Annotations[key]`
abbrev pub annotation : String → Pod → String
annotation key pod = text_or_blank (lookup key pod.annotations)

-- The first test of the loop: the Pod has no annotations, another hash, or no dump.
abbrev pub is_outdated : (hash : String) → Pod → Bool
is_outdated hash pod =
    is_nil pod.annotations
    || not (annotation anno_key_spec_hash pod == hash)
    || is_blank (annotation anno_key_spec_dump pod)

pub record Claims : Type 0 where
  pub old_pods : List Pod
  pub new_pods : List Pod

abbrev put_old : Pod → Claims → Claims
put_old pod c = record c { old_pods = c.old_pods ++ pod ∷ [] }

abbrev put_new : Pod → Claims → Claims
put_new pod c = record c { new_pods = c.new_pods ++ pod ∷ [] }

-- One round of the loop. The two tests follow one another: a Pod can be put in twice.
sort_pod : (dump hash : String) → Pod → Claims → Claims
sort_pod dump hash pod c =
    if not (is_none pod.deletion_timestamp)
    then c
    else let marked = (if is_outdated hash pod then put_old pod c else c) in
      if not (annotation anno_key_spec_dump pod == dump)
      then put_old pod marked
      else put_new pod marked

unfoldable pub sort_pods : (dump hash : String) → Claims → List Pod → Claims
unfolding sort_pod
sort_pods dump hash c [] = c
sort_pods dump hash c (pod ∷ pods) = sort_pods dump hash (sort_pod dump hash pod c) pods

abbrev no_claims : Claims
no_claims = record { old_pods = []; new_pods = [] }

abbrev pub rest_of : List Pod → List Pod
rest_of [] = []
rest_of (pod ∷ pods) = pods

-- The Pods to delete: the old ones, and the new ones behind the first.
unfoldable pub to_recycle : (dump hash : String) → List Pod → List Pod
unfolding sort_pods
to_recycle dump hash pods =
    let c = sort_pods dump hash no_claims pods in c.old_pods ++ rest_of c.new_pods

abbrev pub first_of_list : List Pod → Option Pod
first_of_list [] = none
first_of_list (pod ∷ pods) = some pod

unfoldable pub claimed : (dump hash : String) → List Pod → Option Pod
unfolding sort_pods
claimed dump hash pods = first_of_list (sort_pods dump hash no_claims pods).new_pods

-- Deletions in the app's namespace; a failure is only logged.
unfoldable pub recycle : Env → String → List Pod → M (Unit {0})
unfolding remove_pod
recycle env namespace [] s = pure tt s
recycle env namespace (pod ∷ pods) s =
    (remove_pod env namespace pod.name >>= λ _. recycle env namespace pods) s

claim_listed : Env → (dump hash : String) → Answer (List Pod) → M (Answer (Option Pod))
unfolding to_recycle claimed recycle
claim_listed env dump hash (err e) s = pure (err (cannot_fetch "pods" e)) s
claim_listed env dump hash (ok pods) s =
    (recycle env s.app.namespace (to_recycle dump hash pods) >> pure (ok (claimed dump hash pods)))
      s

unfoldable pub claim_pods : Env → (dump hash : String) → M (Answer (Option Pod))
unfolding claim_listed fetch_pods
claim_pods env dump hash = fetch_pods env >>= claim_listed env dump hash
