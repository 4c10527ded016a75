-- ===== src/Controller/Fork/Fresh.antt =====
-- The Pods made from a workload (controllers/cliapp_fork.go) are not being deleted.
use cliapp.Base.{ℕ, ◌≡◌, refl, none, String}
use cliapp.Api.{ForkObject}
use cliapp.Kube.{Pod}
use cliapp.Controller.State.{Env, State, Answer, ok, err}
use cliapp.Controller.Keeps.{Yields, IfOk, Yields-bind}
use cliapp.Controller.Fork.{
  fork_template, forked_pod, fetch_workload, choose_target, fetch_fork_target_pod,
}

abbrev pub IsUndeleted : Answer (Pod × ℕ) → Type 0
IsUndeleted a = IfOk (λ p. p.0.deletion_timestamp ≡ none) a

fork_template-IsUndeleted : (fork : ForkObject) (a : Answer _) → IsUndeleted (fork_template fork a)
unfolding fork_template forked_pod
fork_template-IsUndeleted fork (err e) = tt
fork_template-IsUndeleted fork (ok t) =
    chosen (choose_target fork (forked_pod fork t).spec.containers)
  where
    chosen :
        (c : Answer ℕ) → IsUndeleted (elim c [ ok i ↦ ok (forked_pod fork t, i) | err e ↦ err e ])
    chosen (ok i) = refl
    chosen (err e) = tt

pub fetch_fork_target_pod-IsUndeleted :
    (env : Env) (namespace : String) (fork : ForkObject) (s : State)
    → Yields IsUndeleted (fetch_fork_target_pod env namespace fork s)
unfolding fetch_fork_target_pod
fetch_fork_target_pod-IsUndeleted env namespace fork s =
    Yields-bind IsUndeleted (fetch_workload env namespace fork) _ s
      (λ a t. fork_template-IsUndeleted fork a)
