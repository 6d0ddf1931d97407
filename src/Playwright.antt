-- ===== src/Playwright.antt =====
-- playwright.go: sessions of browsers that speak the Playwright protocol over a WebSocket.
pub mod Url
pub mod Frames
pub mod SessionId
pub mod Starting
pub mod Ending
pub mod Settling
pub mod Once
