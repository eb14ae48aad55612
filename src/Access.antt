-- ===== src/Access.antt =====
-- The second factor and the recovery of an account: Api/src/modules/mfa,
-- Api/src/modules/auth/mfa-login.service.ts and Api/src/modules/password-reset.
pub mod Store
pub mod Network
pub mod BackupCodes
pub mod Devices
pub mod Factor
pub mod MfaLogin
pub mod Reset
pub mod Requests
pub mod Manage
