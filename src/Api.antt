-- ===== src/Api.antt =====
-- pkg/apis/cliapp/v1/cliapp_types.go: the CliApp object. An enumeration that Go keeps as a text
-- is a data type with a constructor for the empty text, one for each constant of the file and one
-- for any other text, on which the code takes its default branches.
use cliapp.Base.{ℕ, Bool, true, false, List, Option, String, ◌==◌, if◌then◌else◌}

pub data Phase : Type 0 where
  unset : Phase
  rest recovering building live waiting_for_sessions shutting_down : Phase
  other : String → Phase

pub data Distro : Type 0 where
  unset : Distro
  alpine ubuntu : Distro
  other : String → Distro

pub data Shell : Type 0 where
  unset : Shell
  bash zsh : Shell
  other : String → Shell

pub record ForkObject : Type 0 where
  pub object : String
  pub container : String
  pub with_envs : Bool

pub record CliAppSpec : Type 0 where
  pub fork : Option ForkObject
  pub image : String
  pub dockerfile : String
  pub command : List String
  pub host_path : List String
  pub env : List String
  pub distro : Distro
  pub shell : Shell
  pub target_phase : Phase
  pub uninstall_unless_live : Bool

-- `last_phase_transition` counts time units from an origin before every event.
pub record CliAppStatus : Type 0 where
  pub phase : Phase
  pub last_phase_transition : ℕ
  pub pod_name : String
  pub error : String

-- Of the embedded TypeMeta and ObjectMeta, the fields that the program reads.
pub record CliApp : Type 0 where
  pub api_version : String
  pub kind : String
  pub name : String
  pub namespace : String
  pub uid : String
  pub spec : CliAppSpec
  pub status : CliAppStatus

-- What an update of the status leaves.
pub record Core : Type 0 where
  pub namespace : String
  pub name : String
  pub spec : CliAppSpec

abbrev pub core : CliApp → Core
core app = record { namespace = app.namespace; name = app.name; spec = app.spec }

-- The constants, as texts.
unfoldable pub distro_text : Distro → String
distro_text unset = ""
distro_text alpine = "alpine"
distro_text ubuntu = "ubuntu"
distro_text (other s) = s

unfoldable pub shell_text : Shell → String
shell_text unset = ""
shell_text bash = "bash"
shell_text zsh = "zsh"
shell_text (other s) = s

-- The conversion `CliAppDistro(s)` of a configured text.
unfoldable pub distro_of : String → Distro
distro_of s =
    if s == ""
    then unset
    else if s == "alpine"
    then alpine
    else if s == "ubuntu"
    then ubuntu
    else other s

unfoldable pub shell_of : String → Shell
shell_of s =
    if s == "" then unset else if s == "bash" then bash else if s == "zsh" then zsh else other s

-- `p == CliAppPhaseLive`, `p == CliAppPhaseRest`, `p == CliAppPhaseBuilding`
abbrev pub is_live : Phase → Bool
is_live live = true
is_live p = false

abbrev pub is_rest : Phase → Bool
is_rest rest = true
is_rest p = false

abbrev pub is_building : Phase → Bool
is_building building = true
is_building p = false

abbrev pub with_pod_name : String → CliApp → CliApp
with_pod_name name app = record app { status = record app.status { pod_name = name } }

abbrev pub with_image : String → CliApp → CliApp
with_image image app = record app { spec = record app.spec { image = image } }

abbrev pub with_target : Phase → CliApp → CliApp
with_target phase app = record app { spec = record app.spec { target_phase = phase } }
