-- ===== src/Examples.antt =====
-- Concrete runs of the modelled code, and the theorems applied to them.
pub mod Data
pub mod Sessions
pub mod Messages
pub mod Signatures
pub mod Hosts
pub mod Mails
pub mod Results
pub mod Signing
