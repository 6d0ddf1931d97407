-- ===== src/Handlers.antt =====
-- selenwright.go: the handlers that start, forward and delete sessions.
pub mod App
pub mod Proxy
pub mod Capabilities
pub mod Attempts
pub mod Create
pub mod Lifecycle
pub mod History
pub mod Routes
pub mod Admin
pub mod Login
