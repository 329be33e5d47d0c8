-- ===== src/Utils.antt =====
-- The package `utils`.
pub mod Email
pub mod Xid
