-- ===== src/Auth.antt =====
-- server/src/auth: sessions and the memory of them, failed sign-ins and their cooldowns.
pub mod Cache
pub mod Sessions
pub mod Failures
pub mod Login
