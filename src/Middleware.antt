-- ===== src/Middleware.antt =====
-- The package `middleware`. A middleware takes the next handler and the envelope; `550` and `500`
-- answers are those of `smtpx.NewResponse`.
pub mod Domains
pub mod Recover
pub mod Headers
pub mod Log
