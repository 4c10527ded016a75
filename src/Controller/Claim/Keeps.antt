-- ===== src/Controller/Claim/Keeps.antt =====
-- claimPods (controllers/cliapp_live.go) and the app.
use cliapp.Base.{refl, List, [], ◌∷◌, String}
use cliapp.Kube.{Pod}
use cliapp.Controller.State.{Env, Answer, ok, err, delete_pod}
use cliapp.Controller.Keeps.{Keeps, Keeps-bind, Onto-behind, same, more}
use cliapp.Controller.Calls.{logged, fetch_pods}
use cliapp.Controller.Claim.{to_recycle, recycle, claim_listed, claim_pods}

pub recycle-Keeps :
    (env : Env) (namespace : String) (pods : List Pod) → Keeps (recycle env namespace pods)
unfolding recycle
recycle-Keeps env namespace [] s = (refl, same)
recycle-Keeps env namespace (pod ∷ pods) s =
    let k = recycle-Keeps env namespace pods (logged (delete_pod namespace pod.name) s) in
    (k.0, Onto-behind tt k.1)

claim_listed-Keeps :
    (env : Env) (dump hash : String) (a : Answer (List Pod)) → Keeps (claim_listed env dump hash a)
unfolding claim_listed
claim_listed-Keeps env dump hash (err e) s = (refl, same)
claim_listed-Keeps env dump hash (ok pods) s =
    Keeps-bind (recycle env s.app.namespace (to_recycle dump hash pods)) _
      (recycle-Keeps env s.app.namespace (to_recycle dump hash pods)) (λ _ t. (refl, same)) s

pub claim_pods-Keeps : (env : Env) (dump hash : String) → Keeps (claim_pods env dump hash)
unfolding claim_pods
claim_pods-Keeps env dump hash =
    Keeps-bind (fetch_pods env) (claim_listed env dump hash) (λ s. (refl, more tt same))
      (claim_listed-Keeps env dump hash)
