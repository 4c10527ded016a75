-- ===== src/Controller/Workload/EnvList.antt =====
-- The second loop of applyAppConfig (controllers/cliapp_workload.go): "key=value" texts.
pub mod Laws
use cliapp.Base.{List, [], ◌∷◌, ◌++◌, String, is_blank, if◌then◌else◌}
use cliapp.Base.Text.{split, trim_space}
use cliapp.Kube.{EnvVar}
use cliapp.Controller.Error.{bad_env, empty_env_key}
use cliapp.Controller.State.{Answer, ok, err}

parse_env_pair : List String → Answer EnvVar
parse_env_pair (key ∷ value ∷ []) =
    let name = trim_space key in
    if is_blank name
    then err empty_env_key
    else ok (record { name = name; value = trim_space value })
parse_env_pair _ = err bad_env

unfoldable pub parse_env : String → Answer EnvVar
unfolding parse_env_pair
parse_env kv = parse_env_pair (split b'=' kv)

unfoldable pub env_list_from : List EnvVar → List String → Answer (List EnvVar)
env_list_from envs [] = ok envs
env_list_from envs (kv ∷ kvs) = elim (parse_env kv) [
  | ok env ↦ env_list_from (envs ++ env ∷ []) kvs
  | err e ↦ err e
]

unfoldable pub env_list : List String → Answer (List EnvVar)
unfolding env_list_from
env_list kvs = env_list_from [] kvs
