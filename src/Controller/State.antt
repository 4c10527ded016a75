-- ===== src/Controller/State.antt =====
-- What the methods of `CliAppReconciler` (controllers/cliapp_controller.go) work on: the object
-- that a pass holds, the map of image builds, and the log of the calls to the API server, the
-- image builder and the container runtime. Those services are the parameter `Env`: a call's answer
-- is any function of the calls made before it.
use cliapp.Base.{◌≡◌, arith, ℕ, Bool, List, Option, String}
use cliapp.Api.{CliApp, CliAppSpec, Distro, Shell}
use cliapp.Kube.{Pod, PodSpec, ConfigMap}
use cliapp.Controller.Error.{Error}

-- imageBuilderContext, without the logger and the client. `cancelled` is the state of its context.
pub record BuildContext : Type 0 where
  pub name : String
  pub dockerfile : String
  pub image : String
  pub error : Option Error
  pub done : Bool
  pub cancelled : Bool

-- An object that `fork.object` names, as the resource builder finds it.
pub record ObjectInfo : Type 0 where
  pub kind : String
  pub group : String
  pub namespace : String
  pub name : String

-- A workload's Pod template: its spec and its labels.
pub record Template : Type 0 where
  pub spec : PodSpec
  pub labels : List (String × String)

pub data Call : Type 0 where
  update_status update_app delete_app : CliApp → Call
  list_pods list_cached : (namespace app_name : String) → Call
  delete_pod : (namespace pod_name : String) → Call
  create_pod : Pod → Call
  start_build cancel_build : BuildContext → Call
  get_config_map find_objects : (namespace name : String) → Call
  fetch_template : ObjectInfo → Call
  image_status : String → Call

pub data Answer {ℓ} (A : Type ℓ) : Type ℓ where
  ok : A → Answer A
  err : Error → Answer A

pub data Lookup : Type 0 where
  found : CliApp → Lookup
  not_found : Lookup
  failed : Error → Lookup

-- imageInfo: what the text under "info" of an image's status decodes to.
pub record ImageConfig : Type 0 where
  pub env : List String
  pub working_dir : String

abbrev pub History : Type 0
History = List Call

-- A list call of the manager's client reads from its cache, which can be behind the server: its answer
-- is `list_cached_answer`, and that of a call of the server `list_pods_answer`.
-- An update answers with the object as the server has it then. `compute_hash` and `encode_spec` go
-- through the hash and JSON packages, and `decode_info` through the JSON package. `builder_solve`
-- is the build of an image, which ends with an error or without one, and `parse_url` gives the
-- scheme of a URL. How often RetryOnConflict repeats an attempt, which depends on what the attempts
-- answer, is `repetitions`.
pub record Env : Type 0 where
  pub now : History → ℕ
  pub random : History → String
  pub get_app : (namespace name : String) → Lookup
  pub update_status_answer : History → CliApp → Answer CliApp
  pub update_app_answer : History → CliApp → Answer CliApp
  pub delete_app_answer : History → CliApp → Option Error
  pub list_pods_answer : History → String → String → Answer (List Pod)
  pub list_cached_answer : History → String → String → Answer (List Pod)
  pub delete_pod_answer : History → String → String → Option Error
  pub create_pod_answer : History → Pod → Option Error
  pub get_config_map_answer : History → Answer ConfigMap
  pub find_objects_answer : History → String → String → Answer (List ObjectInfo)
  pub fetch_template_answer : History → ObjectInfo → Answer Template
  pub image_status_answer : History → String → Answer (List (String × String))
  pub decode_info : String → Answer ImageConfig
  pub parse_url : String → Option String
  pub write_file : (name text : String) → Option Error
  pub builder_solve : BuildContext → List (String × String) → Option Error
  pub repetitions : History → ℕ
  pub compute_hash : CliAppSpec → String
  pub encode_spec : CliAppSpec → String

-- The fields of CliAppReconciler that are configuration.
pub record CliAppReconciler : Type 0 where
  pub builder_endpoint : String
  pub duration_idle_live_lasts : ℕ
  pub default_app_context_image : String
  pub default_shell : Shell
  pub default_distro : Distro

-- `app_map` is `none` where ImageBuilder was made without an endpoint: the Go map is nil then,
-- and a write to it panics.
pub record State : Type 0 where
  pub app : CliApp
  pub app_map : Option (List (String × BuildContext))
  pub log : History

-- A panic ends the call; what was done before it stays done.
pub data Outcome (A : Type 0) : Type 0 where
  returns : A → State → Outcome A
  panics : String → State → Outcome A

abbrev pub M : Type 0 → Type 0
M A = State → Outcome A

infixl 5 ◌>>=◌
abbrev pub ◌>>=◌ : {A : Type 0} {B : Type 0} → M A → (A → M B) → M B
◌>>=◌ first next s = elim (first s) [ returns a t ↦ next a t | panics w t ↦ panics w t ]

infixl 5 ◌>>◌
abbrev pub ◌>>◌ : {B : Type 0} → M (Unit {0}) → M B → M B
first >> next = first >>= λ _. next

abbrev pub pure : {A : Type 0} → A → M A
pure a s = returns a s

abbrev pub panic : {A : Type 0} → String → M A
panic w s = panics w s

-- ctrl.Result
pub record Verdict : Type 0 where
  pub requeue : Bool
  pub requeue_after : ℕ

-- The state that an outcome leaves.
abbrev pub after : {A : Type 0} → Outcome A → State
after (returns a s) = s
after (panics w s) = s

-- `m` returns a value in a state with the property.
abbrev pub Returns : {A : Type 0} → Outcome A → (A → State → Type 0) → Type 0
Returns (returns a s) P = P a s
Returns (panics w s) P = ⊥

-- A step whose rest only forms the answer leaves the state of that step.
pub after-bind_pure :
    {A B : Type 0} (m : M A) (f : A → B) (s : State)
    → after ((m >>= λ a. pure (f a)) s) ≡ after (m s)
after-bind_pure m f s = ground arith

-- What holds behind the first step, and what holds behind the second because of it; a panic in the
-- first step is the end of both.
pub after-bind_to :
    {A B : Type 0} (P Q : State → Type 0) (m : M A) (f : A → M B) (s : State)
    → P (after (m s))
    → ((t : State) → P t → Q t)
    → ((a : A) (t : State) → P t → Q (after (f a t)))
    → Q (after ((m >>= f) s))
after-bind_to {A} P Q m f s h weaken k = at (m s) h
  where
    at :
        (o : Outcome A)
        → P (after o)
        → Q (after (elim o [ returns a t ↦ f a t | panics w t ↦ panics w t ]))
    at (returns a t) g = k a t g
    at (panics w t) g = weaken t g

-- What both steps keep.
pub after-bind :
    {A B : Type 0} (P : State → Type 0) (m : M A) (f : A → M B) (s : State)
    → P (after (m s))
    → ((a : A) (t : State) → P t → P (after (f a t)))
    → P (after ((m >>= f) s))
after-bind P m f s h k = after-bind_to P P m f s h (λ t g. g) k

-- No panic.
abbrev pub Ends : {A : Type 0} → Outcome A → Type 0
Ends (returns a s) = Unit {0}
Ends (panics w s) = ⊥

pub Ends-bind :
    {A B : Type 0} (P : A → State → Type 0) (m : M A) (f : A → M B) (s : State)
    → Returns (m s) P
    → ((a : A) (t : State) → P a t → Ends (f a t))
    → Ends ((m >>= f) s)
Ends-bind {A} P m f s h k = at (m s) h
  where
    at :
        (o : Outcome A)
        → Returns o P
        → Ends (elim o [ returns a t ↦ f a t | panics w t ↦ panics w t ])
    at (returns a t) g = k a t g
    at (panics w t) g = absurd g

pub Ends-bind_pure :
    {A B : Type 0} (m : M A) (f : A → B) (s : State) → Ends (m s) → Ends ((m >>= λ a. pure (f a)) s)
Ends-bind_pure m f s h = ground arith

pub Ends-bind_all :
    {A B : Type 0} (m : M A) (f : A → M B) (s : State)
    → Ends (m s)
    → ((a : A) (t : State) → Ends (f a t))
    → Ends ((m >>= f) s)
Ends-bind_all {A} m f s h k = at (m s) h
  where
    at : (o : Outcome A) → Ends o → Ends (elim o [ returns a t ↦ f a t | panics w t ↦ panics w t ])
    at (returns a t) g = k a t
    at (panics w t) g = absurd g
