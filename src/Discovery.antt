-- ===== src/Discovery.antt =====
-- discovery/ and discovery_handlers.go: the browser images that Docker has, which of them are
-- adopted, and the catalog that is made of these.
pub mod Labels
pub mod Scan
pub mod Adopted
pub mod Catalog
pub mod Handling
