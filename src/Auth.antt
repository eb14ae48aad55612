-- ===== src/Auth.antt =====
-- Api/src/modules/auth/auth.service.ts: login and its lockout, the second-factor decision, and the
-- refresh tokens.
pub mod Store
pub mod Session
pub mod Login
pub mod Refresh
