-- ===== src/Stack.antt =====
-- stack_versions.go and stack_update.go: the versions of the stack's own services, and their update.
pub mod Images
pub mod Quoting
pub mod Candidates
pub mod Hub
pub mod Plan
