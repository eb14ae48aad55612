-- ===== src/Access/MfaLogin.antt =====
-- Api/src/modules/auth/mfa-login.service.ts: the second factor of a login, which turns a challenge
-- into a session.
pub mod Safety
use vaultchain_fintech_dashb.Prelude.{
  ℕ, Bool, true, false, not, ◌&&◌, Option, none, some, List, raise, raise_if, gets, modify, pure,
  ◌==◌, if◌then◌else◌, ◌>>=◌, ◌>>◌,
}
use vaultchain_fintech_dashb.Prelude.Text.{Text}
use vaultchain_fintech_dashb.Auth.Session.{SessionResult, issue_session}
use vaultchain_fintech_dashb.Access.Store.{
  AccessEnv, AccessDb, Handler, call_auth, wrong_challenge, challenge_consumed, send_alert,
  audit_row, mfa_verify, invalid_code,
}
use vaultchain_fintech_dashb.Challenge.Mfa.{
  OpenChallenge, consume, register_failed_attempt, fingerprint,
}
use vaultchain_fintech_dashb.Access.Devices.{DeviceContext, issue}
use vaultchain_fintech_dashb.Challenge.Reset.{ResetMethod, backup_code, totp}
use vaultchain_fintech_dashb.Access.Factor.{check_totp}
use vaultchain_fintech_dashb.Access.BackupCodes.{verify_code}

pub record MfaLoginResult : Type 0 where
  pub session : SessionResult
  pub remember_device : Option Text

unfoldable pub assert_login_challenge : AccessEnv → OpenChallenge → Handler (Unit {0})
assert_login_challenge env challenge =
    raise_if (not (challenge.purpose == env.auth.login_purpose)) wrong_challenge

-- `reject`: the attempt is counted, audited and refused.
unfoldable pub reject :
    AccessEnv → OpenChallenge → DeviceContext → ResetMethod → Handler MfaLoginResult
reject env challenge ctx method = do
  modify (λ db. record db {
    auth = record db.auth {
      challenges =
          register_failed_attempt env.auth.now challenge.id challenge.max_attempts
            db.auth.challenges;
    };
  })
  audit_row (some challenge.user_id) (mfa_verify method) none false
      (fingerprint env.auth.crypto ctx.ip)
  raise invalid_code

unfoldable pub consume_challenge : AccessEnv → OpenChallenge → Handler Bool
consume_challenge env challenge = do
  won ← gets (λ db. consume env.auth.now challenge.id challenge.max_attempts db.auth.challenges)
  modify (λ db. record db { auth = record db.auth { challenges = won.1 } })
  pure won.0

unfoldable pub issue_session_for_user : AccessEnv → ℕ → Handler SessionResult
issue_session_for_user env user = call_auth (issue_session env.auth user env.auth.session_id)

-- The device's token, where the client asks for it and the feature is on.
abbrev pub remember : AccessEnv → Bool → ℕ → DeviceContext → Handler (Option Text)
remember env false user ctx = pure none
remember env true user ctx = do
  device ← issue env user ctx
  send_alert env.alerts_work user
  pure (some device.token)

unfoldable pub complete :
    AccessEnv → OpenChallenge → Bool → DeviceContext → ResetMethod → Handler MfaLoginResult
complete env challenge remember_device ctx method = do
  won ← consume_challenge env challenge
  raise_if (not won) challenge_consumed
  session ← issue_session_for_user env challenge.user_id
  device ← remember env (remember_device && env.auth.remember_device_enabled) challenge.user_id ctx
  audit_row (some challenge.user_id) (mfa_verify method) none true
      (fingerprint env.auth.crypto ctx.ip)
  pure (record { session = session; remember_device = device })

unfoldable pub verify_totp :
    AccessEnv
    → (AccessDb → AccessDb)
    → OpenChallenge
    → Text
    → Bool
    → DeviceContext
    → Handler MfaLoginResult
verify_totp env others challenge code remember_device ctx = do
  assert_login_challenge env challenge
  accepted ← check_totp env others challenge.user_id code
  if accepted
      then complete env challenge remember_device ctx totp
      else reject env challenge ctx totp

unfoldable pub verify_backup_code :
    AccessEnv → OpenChallenge → Text → DeviceContext → Handler MfaLoginResult
verify_backup_code env challenge code ctx = do
  assert_login_challenge env challenge
  accepted ← verify_code env.auth.crypto env.auth.now challenge.user_id code
  if accepted
      then complete env challenge false ctx backup_code
      else reject env challenge ctx backup_code
