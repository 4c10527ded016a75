-- ===== src/Controller.antt =====
-- controllers/: the reconciler of CliApp objects.
pub mod Error
pub mod State
pub mod Keeps
pub mod Env
pub mod Cluster
pub mod Phases
pub mod Validate
pub mod Calls
pub mod Transit
pub mod Sends
pub mod Pods
pub mod Build
pub mod Rest
pub mod Workload
pub mod Fork
pub mod Start
pub mod Claim
pub mod Live
pub mod Reconcile
pub mod Passes
