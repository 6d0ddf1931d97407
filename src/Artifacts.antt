-- ===== src/Artifacts.antt =====
-- artifact_history.go: what is kept of a session when it has ended, and for how long.
pub mod Settings
pub mod Manifests
