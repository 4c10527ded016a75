-- ===== src/Controller/Error.antt =====
-- The errors that controllers/ makes, and those that come from outside, with the text that
-- `err.Error()` gives for the status of the app.
use Prim.Native.String.{◌++◌}
use cliapp.Base.{List, [], ◌∷◌, String}

pub data Error : Type 0 where
  no_source no_target_phase bad_target_phase bad_distro bad_shell not_a_target : Error
  no_dockerfile no_builder under_build invalid_dockerfile : Error
  invalid_hostpath empty_hostpath relative_mountpoint bad_env empty_env_key : Error
  cannot_fetch : (what : String) → Error → Error
  no_object unsupported_object : String → Error
  container_not_found : (container object : String) → Error
  many_containers : (object : String) → List String → Error
  external : String → Error

abbrev pub quoted : String → String
quoted s = "\"" ++ s ++ "\""

spaced : List String → String
spaced [] = ""
spaced (s ∷ []) = s
spaced (s ∷ t ∷ r) = s ++ " " ++ spaced (t ∷ r)

unfoldable pub message : Error → String
unfolding spaced
message no_source = "specify either image, dockerfile, or Fork for the app"
message no_target_phase = "TargetPhase is not set"
message bad_target_phase = "TargetPhase must be \"Rest\" or \"Live\""
message bad_distro = "Spec.Distro must be either \"alpine\" or \"ubuntu\""
message bad_shell = "Spec.Shell must be either \"zsh\" or \"bash\""
message not_a_target = "TargetPhase can only be either Rest or Live"
message no_dockerfile = "specify either image or dockerfile for the app"
message no_builder = "unable to build image since no image builder installed"
message under_build = "image is under build"
message invalid_dockerfile = "invalid dockerfile"
message invalid_hostpath = "invalid hostpath spec"
message empty_hostpath = "hostpath can't be empty"
message relative_mountpoint = "mountpoint must be an absolute path"
message bad_env = "environment variable must be in the form of \"key=value\""
message empty_env_key = "the key of environment variable must be not empty"
message (cannot_fetch what e) = "unable to fetch " ++ what ++ ": " ++ message e
message (no_object object) = "no \"" ++ quoted object ++ "\" found"
message (unsupported_object object) = "object " ++ object ++ " is not supported"
message (container_not_found container object) =
    "container " ++ container ++ " doesn't found in " ++ object
message (many_containers object names) =
    object ++ " has more than 1 container. Specify one of [" ++ spaced names ++ "]"
message (external text) = text
