-- ===== src/Challenge.antt =====
-- The single-use opaque tokens of the second factor and of the password reset:
-- Api/src/modules/mfa/mfa-challenge.service.ts and
-- Api/src/modules/password-reset/password-reset-challenge.service.ts.
pub mod Token
pub mod Mfa
pub mod Reset
pub mod MfaSafety
pub mod ResetSafety
pub mod Mint
