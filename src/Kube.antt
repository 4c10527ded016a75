-- ===== src/Kube.antt =====
-- The Kubernetes objects that the program builds and reads (k8s.io/api, outside this repository),
-- as records of the fields that controllers/, pkg/utils and pkg/libcli name.
use cliapp.Base.{ℕ, Bool, List, Option, String}

pub record EnvVar : Type 0 where
  pub name : String
  pub value : String

pub record VolumeMount : Type 0 where
  pub name : String
  pub mount_path : String

-- `foreign` stands for a source that the forked workload brought along.
pub data VolumeSource : Type 0 where
  host_path : String → VolumeSource
  csi : String → List (String × String) → VolumeSource
  foreign : String → VolumeSource

pub record Volume : Type 0 where
  pub name : String
  pub source : VolumeSource

pub record Capabilities : Type 0 where
  pub add : List String

pub record SecurityContext : Type 0 where
  pub capabilities : Option Capabilities

-- A probe is kept as an opaque text: the program only removes it.
pub record Container : Type 0 where
  pub name : String
  pub image : String
  pub env : List EnvVar
  pub working_dir : String
  pub stdin : Bool
  pub volume_mounts : List VolumeMount
  pub security_context : Option SecurityContext
  pub startup_probe : Option String
  pub liveness_probe : Option String
  pub readiness_probe : Option String

pub record PodSpec : Type 0 where
  pub containers : List Container
  pub volumes : List Volume

pub record OwnerReference : Type 0 where
  pub api_version : String
  pub kind : String
  pub name : String
  pub uid : String
  pub controller : Bool
  pub block_owner_deletion : Bool

pub record PodCondition : Type 0 where
  pub type : String
  pub status : String

pub record PodStatus : Type 0 where
  pub phase : String
  pub conditions : List PodCondition

pub record Pod : Type 0 where
  pub name : String
  pub namespace : String
  pub labels : List (String × String)
  pub annotations : List (String × String)
  pub owner_references : List OwnerReference
  pub deletion_timestamp : Option ℕ
  pub spec : PodSpec
  pub status : PodStatus

-- Of a ConfigMap, its data.
abbrev pub ConfigMap : Type 0
ConfigMap = List (String × String)
