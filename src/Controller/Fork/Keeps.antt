-- ===== src/Controller/Fork/Keeps.antt =====
-- fetchForkTargetPod (controllers/cliapp_fork.go) and the app.
use cliapp.Base.{refl, List, [], ◌∷◌, String}
use cliapp.Api.{ForkObject}
use cliapp.Controller.State.{Env, Answer, ok, err, ObjectInfo, find_objects}
use cliapp.Controller.Keeps.{Reads, Keeps-bind, Onto-behind, same, more}
use cliapp.Controller.Calls.{logged}
use cliapp.Controller.Fork.{
  Support, supported, wrong_group, unsupported, support, fetch_supported, fetch_found,
  fetch_workload, fetch_fork_target_pod,
}

fetch_supported-Reads :
    (env : Env) (info : ObjectInfo) (x : Support) → Reads (fetch_supported env info x)
unfolding fetch_supported
fetch_supported-Reads env info supported s = (refl, more tt same)
fetch_supported-Reads env info wrong_group s = (refl, same)
fetch_supported-Reads env info unsupported s = (refl, same)

fetch_found-Reads :
    (env : Env) (fork : ForkObject) (a : Answer (List ObjectInfo)) → Reads (fetch_found env fork a)
unfolding fetch_found
fetch_found-Reads env fork (err e) s = (refl, same)
fetch_found-Reads env fork (ok []) s = (refl, same)
fetch_found-Reads env fork (ok (info ∷ [])) s =
    fetch_supported-Reads env info (support info.kind info.group) s
fetch_found-Reads env fork (ok (info ∷ info' ∷ infos)) s = (refl, same)

fetch_workload-Reads :
    (env : Env) (namespace : String) (fork : ForkObject) → Reads (fetch_workload env namespace fork)
unfolding fetch_workload
fetch_workload-Reads env namespace fork s =
    let k =
      fetch_found-Reads env fork (env.find_objects_answer s.log namespace fork.object)
        (logged (find_objects namespace fork.object) s) in
    (k.0, Onto-behind tt k.1)

pub fetch_fork_target_pod-Reads :
    (env : Env) (namespace : String) (fork : ForkObject)
    → Reads (fetch_fork_target_pod env namespace fork)
unfolding fetch_fork_target_pod
fetch_fork_target_pod-Reads env namespace fork =
    Keeps-bind (fetch_workload env namespace fork) _ (fetch_workload-Reads env namespace fork)
      (λ t s. (refl, same))
