-- ===== src/Libcli.antt =====
-- pkg/libcli: the client's side of a shell in an app.
pub mod Endpoints
pub mod Exec
pub mod Streams
