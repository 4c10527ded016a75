-- ===== src/Gate.antt =====
-- pkg/gate: the session gate, which keeps an app Live while clients have shells open.
pub mod Session
pub mod Start
pub mod Races
pub mod Clients
pub mod Table
pub mod Shell
pub mod Waiting
pub mod Output
pub mod Init
pub mod Io
