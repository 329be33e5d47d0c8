-- ===== src/Authres.antt =====
-- The package `middleware/authres`.
pub mod Results
pub mod Format
pub mod Parse
