-- ===== src/Utils.antt =====
-- pkg/utils/utils.go: the Ready condition of a Pod, and the current namespace. The pair (-1, nil) is `none`; the status
-- is never nil where it is called.
use cliapp.Base.{
  ℕ, ◌+◌, Bool, false, Option, none, some, List, [], ◌∷◌, String, ◌==◌, is_blank, if◌then◌else◌,
}
use cliapp.Base.Text.{trim_space}
use cliapp.Kube.{PodCondition, PodStatus, Pod}

unfoldable pub get_pod_condition_at : ℕ → List PodCondition → String → Option (ℕ × PodCondition)
get_pod_condition_at i [] type = none
get_pod_condition_at i (c ∷ cs) type =
    if c.type == type then some (i, c) else get_pod_condition_at (i + 1) cs type

unfoldable pub get_pod_condition_from_list : List PodCondition → String → Option (ℕ × PodCondition)
unfolding get_pod_condition_at
get_pod_condition_from_list conditions type = get_pod_condition_at 0 conditions type

unfoldable pub get_pod_condition : PodStatus → String → Option (ℕ × PodCondition)
unfolding get_pod_condition_from_list
get_pod_condition status type = get_pod_condition_from_list status.conditions type

abbrev second : Option (ℕ × PodCondition) → Option PodCondition
second none = none
second (some (i, c)) = some c

unfoldable pub get_pod_ready_condition : PodStatus → Option PodCondition
unfolding get_pod_condition
get_pod_ready_condition status = second (get_pod_condition status "Ready")

abbrev is_true_condition : Option PodCondition → Bool
is_true_condition none = false
is_true_condition (some c) = c.status == "True"

unfoldable pub is_pod_ready_condition_true : PodStatus → Bool
unfolding get_pod_ready_condition
is_pod_ready_condition_true status = is_true_condition (get_pod_ready_condition status)

unfoldable pub is_pod_ready : Pod → Bool
unfolding is_pod_ready_condition_true
is_pod_ready pod = is_pod_ready_condition_true pod.status

-- GetCurrentNamespace: the text of the file, without spaces, where it is there and not blank; else the
-- function panics, which is `none`.
unfoldable pub get_current_namespace : Option String → Option String
get_current_namespace none = none
get_current_namespace (some text) =
    let ns = trim_space text in if is_blank ns then none else some ns
