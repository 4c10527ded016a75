-- ===== src/Controller/Calls.antt =====
-- The calls that the reconciler makes of the API server. Each is logged, then answered by the
-- environment from the calls before it; a successful update leaves the server's object in place
-- of the one that was sent.
use cliapp.Base.{◌∷◌, Option, none, some, List, String}
use cliapp.Api.{CliApp}
use cliapp.Kube.{Pod}
use cliapp.Controller.Error.{Error}
use cliapp.Controller.State.{
  Env, State, M, returns, Call, Answer, ok, err, update_status, update_app, delete_app, list_pods,
  list_cached, delete_pod, create_pod,
}

abbrev pub logged : Call → State → State
logged c s = record s { log = c ∷ s.log }

abbrev pub stored : Answer CliApp → M (Option Error)
stored (ok app) s = returns none (record s { app = app })
stored (err e) s = returns (some e) s

-- `r.Status().Update(ctx, app)`
unfoldable pub send_status : Env → M (Option Error)
send_status env s = stored (env.update_status_answer s.log s.app) (logged (update_status s.app) s)

-- `r.Update(ctx, app)`
unfoldable pub send_app : Env → M (Option Error)
send_app env s = stored (env.update_app_answer s.log s.app) (logged (update_app s.app) s)

-- `r.Delete(ctx, app)`
unfoldable pub remove_app : Env → M (Option Error)
remove_app env s = returns (env.delete_app_answer s.log s.app) (logged (delete_app s.app) s)

-- `Pods(…).List` with the app's label
unfoldable pub fetch_pods : Env → M (Answer (List Pod))
fetch_pods env s =
    returns (env.list_pods_answer s.log s.app.namespace s.app.name)
      (logged (list_pods s.app.namespace s.app.name) s)

-- `r.List` with the app's label, which the manager's client answers from its cache
unfoldable pub fetch_cached_pods : Env → M (Answer (List Pod))
fetch_cached_pods env s =
    returns (env.list_cached_answer s.log s.app.namespace s.app.name)
      (logged (list_cached s.app.namespace s.app.name) s)

-- `r.Delete(ctx, pod)` and `Pods(app.Namespace).Delete(ctx, pod.Name, …)`
unfoldable pub remove_pod : Env → String → String → M (Option Error)
remove_pod env namespace name s =
    returns (env.delete_pod_answer s.log namespace name) (logged (delete_pod namespace name) s)

-- `r.Create(ctx, pod)`
unfoldable pub add_pod : Env → Pod → M (Option Error)
add_pod env pod s = returns (env.create_pod_answer s.log pod) (logged (create_pod pod) s)
