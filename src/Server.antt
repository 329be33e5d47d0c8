-- ===== src/Server.antt =====
-- server.go: the server's configuration and the SMTP exchange on one connection.
pub mod Config
pub mod Command
pub mod Session
pub mod Commands
pub mod Turn
pub mod Invariant
pub mod Exchange
pub mod Delivery
pub mod Forgotten
pub mod Ending
pub mod Lifecycle
