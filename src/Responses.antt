-- ===== src/Responses.antt =====
-- The package `responses`: canned replies and their enhanced status codes.
pub mod Codes
pub mod Enhanced
pub mod Canned
