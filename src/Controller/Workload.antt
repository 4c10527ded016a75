-- ===== src/Controller/Workload.antt =====
-- controllers/cliapp_workload.go: the Pod that runs an app.
pub mod HostPath
pub mod EnvList
pub mod ShellContext
pub mod ImagePaths
pub mod Config
