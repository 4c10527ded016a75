-- ===== src/Examples.antt =====
-- Concrete runs and instances of the theorems.
mod Cluster
mod Controller
mod Gate
mod Libcli
mod System
mod Shells
mod Builds
mod Crowd
mod Worlds
