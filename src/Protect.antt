-- ===== src/Protect.antt =====
-- The package protect: admission queue, authentication, access control, and their stores.
pub mod Queue
pub mod Token
pub mod Access
pub mod AuthSessions
pub mod Request
pub mod Htpasswd
pub mod SourceTrust
pub mod Auth
