-- ===== src/Controller/Workload/EnvList/Laws.antt =====
-- The environment that an app asks for (applyAppConfig of controllers/cliapp_workload.go).
use mathlib.Core.List.{append_assoc, append-nil}
use cliapp.Base.{
  ◌≡◌, ◌≢◌, ◌↔◌, refl, sym, ap, subst, ◌∙◌, List, [], ◌∷◌, ◌++◌, String, arith, eq_iff,
}
use cliapp.Kube.{EnvVar}
use cliapp.Controller.State.{Answer, ok, err}
use cliapp.Controller.Workload.EnvList.{parse_env_pair, parse_env, env_list_from, env_list}
use cliapp.Base.Text.{split, trim_space}

-- The text is a name and a value around the one "=" in it, and the variable has both without the
-- white space around them; the name is not blank.
abbrev pub IsEnv : String → EnvVar → Type 0
IsEnv kv env =
    (before : String) × (behind : String) × (split b'=' kv ≡ before ∷ behind ∷ [])
    × (env.name ≡ trim_space before)
    × (env.value ≡ trim_space behind)
    × (env.name ≢ "")

-- The texts and the variables go in pairs.
abbrev pub IsEnvOf : List String → List EnvVar → Type 0
IsEnvOf [] [] = Unit
IsEnvOf (kv ∷ kvs) (env ∷ envs) = IsEnv kv env × IsEnvOf kvs envs
IsEnvOf _ _ = ⊥

parse_env-IsEnv : (kv : String) (env : EnvVar) → parse_env kv ≡ ok env → IsEnv kv env
unfolding parse_env parse_env_pair
parse_env-IsEnv kv env h = of_parts (split b'=' kv) refl h
  where
    of_parts :
        (parts : List String) → split b'=' kv ≡ parts → parse_env_pair parts ≡ ok env → IsEnv kv env
    of_parts [] q e = ground arith
    of_parts (x ∷ []) q e = ground arith
    of_parts (x ∷ y ∷ []) q e = (
      x,
      y,
      q,
      ground (arith, eq_iff (trim_space x) ""),
      ground (arith, eq_iff (trim_space x) ""),
      ground (arith, eq_iff (trim_space x) ""),
    )
    of_parts (x ∷ y ∷ z ∷ zs) q e = ground arith

IsEnv-parse_env : (kv : String) (env : EnvVar) → IsEnv kv env → parse_env kv ≡ ok env
unfolding parse_env parse_env_pair
IsEnv-parse_env kv env (x, y, q, n, v, k) =
    ap parse_env_pair q ∙ ground (arith, n, v, k, eq_iff (trim_space x) "")

abbrev IsAppended : List EnvVar → List String → List EnvVar → Type 0
IsAppended before kvs all = (envs : List EnvVar) × (all ≡ before ++ envs) × IsEnvOf kvs envs

env_list_from-IsAppended :
    (before : List EnvVar) (kvs : List String) (all : List EnvVar)
    → env_list_from before kvs ≡ ok all
    → IsAppended before kvs all
unfolding env_list_from
env_list_from-IsAppended before [] all h =
    let same : before ≡ all = ground arith in ([], sym same ∙ sym (append-nil before), tt)
env_list_from-IsAppended before (kv ∷ kvs) all h =
    parsed (parse_env kv) refl h (λ env. env_list_from-IsAppended (before ++ env ∷ []) kvs all)
  where
    parsed :
        (a : Answer EnvVar)
        → parse_env kv ≡ a
        → (elim a [ ok env ↦ env_list_from (before ++ env ∷ []) kvs | err e ↦ err e ]) ≡ ok all
        → ((env : EnvVar)
            → env_list_from (before ++ env ∷ []) kvs ≡ ok all
            → IsAppended (before ++ env ∷ []) kvs all)
        → IsAppended before (kv ∷ kvs) all
    parsed (err e) p q ih = ground arith
    parsed (ok env) p q ih =
        let (envs, e, f) = ih env q in
        (env ∷ envs, e ∙ append_assoc before (env ∷ []) envs, (parse_env-IsEnv kv env p, f))

IsEnvOf-env_list_from :
    (before : List EnvVar) (kvs : List String) (envs : List EnvVar)
    → IsEnvOf kvs envs
    → env_list_from before kvs ≡ ok (before ++ envs)
unfolding env_list_from
IsEnvOf-env_list_from before [] [] h = ap ok (sym (append-nil before))
IsEnvOf-env_list_from before [] (env ∷ envs) h = absurd h
IsEnvOf-env_list_from before (kv ∷ kvs) [] h = absurd h
IsEnvOf-env_list_from before (kv ∷ kvs) (env ∷ envs) (p, h) =
    ap (λ a. elim a [ ok e ↦ env_list_from (before ++ e ∷ []) kvs | err e ↦ err e ])
      (IsEnv-parse_env kv env p)
    ∙ IsEnvOf-env_list_from (before ++ env ∷ []) kvs envs h
    ∙ ap ok (append_assoc before (env ∷ []) envs)

-- The loop over the environment texts of an app succeeds with some variables exactly if these and the
-- texts go in pairs, in order: each text has one "=", the variable's name is what stands before it and
-- its value what stands behind it, both without the white space around, and the name is not blank.
pub env_list_iff :
    (kvs : List String) (envs : List EnvVar) → (env_list kvs ≡ ok envs) ↔ IsEnvOf kvs envs
unfolding env_list
env_list_iff kvs envs = (
  λ h. (let (rest, e, f) = env_list_from-IsAppended [] kvs envs h in subst (IsEnvOf kvs) (sym e) f),
  λ h. IsEnvOf-env_list_from [] kvs envs h,
)
