-- ===== src/Envelope.antt =====
-- The package `envelope`.
pub mod Data
pub mod Message
pub mod Charset
pub mod Mail
pub mod Headers
pub mod Content
