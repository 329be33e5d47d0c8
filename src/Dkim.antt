-- ===== src/Dkim.antt =====
-- The package `middleware/authres/dkim`.
pub mod Canonical
pub mod Params
pub mod Header
pub mod Query
pub mod Verify
pub mod Message
pub mod Format
pub mod Sign
