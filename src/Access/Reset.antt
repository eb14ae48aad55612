-- ===== src/Access/Reset.antt =====
-- Api/src/modules/password-reset/password-reset.service.ts: the reset of a password behind the
-- second factor, in three calls, and the administrator's.
pub mod Complete
pub mod Credentials
pub mod Trust
use vaultchain_fintech_dashb.Prelude.{
  ℕ, Bool, true, false, not, ◌&&◌, ◌||◌, Option, none, some, List, [], ◌∷◌, length, any, all, find,
  raise, raise_if, or_raise, gets, modify, pure, is_some, is_none, leb, ◌==◌, update_where,
  transaction, if◌then◌else◌, ◌>>=◌, ◌>>◌,
}
use vaultchain_fintech_dashb.Prelude.Text.{Text, text_eq, is_digit, is_upper, is_lower}
use vaultchain_fintech_dashb.Access.Store.{
  AccessDb, AccessEnv, Handler, ResetRequest, audit_row, self_reset_forbidden, weak_password,
  admin_reset, missing_row, request_complete, reset_challenge_consumed, reset_factor_required,
  reset_initiate, user_not_found, reset_verify, reset_verify_code, same_password, send_alert,
  reset_complete, reset_invalid_code, taken_key,
}
use vaultchain_fintech_dashb.Challenge.Mfa.{Crypto, fingerprint, verifies}
use vaultchain_fintech_dashb.Auth.Store.{User, user_id}
use vaultchain_fintech_dashb.Challenge.Reset.{
  ResetChallenge, ResetMethod, totp, OpenResetChallenge, backup_code, mark_factor_verified, create,
  register_failed_attempt, CreateResetChallengeInput, IssuedResetChallenge,
}
use vaultchain_fintech_dashb.Challenge.Token.{print_token, reset_prefix}
use vaultchain_fintech_dashb.Access.Devices.{DeviceContext, revoke_all_devices}
use vaultchain_fintech_dashb.Access.Factor.{check_totp}
use vaultchain_fintech_dashb.Auth.Refresh.{is_active_of, revoke}
use vaultchain_fintech_dashb.Auth.Login.{by_email}
use vaultchain_fintech_dashb.Access.BackupCodes.{verify_code}
use vaultchain_fintech_dashb.Mask.{mask_email, trim}

abbrev pub min_length : ℕ
min_length = 12

abbrev pub max_length : ℕ
max_length = 64

abbrev pub is_symbol : ℕ → Bool
is_symbol c = not (is_upper c || (is_lower c || is_digit c))

unfoldable pub is_strong : Text → Bool
is_strong password =
    (leb min_length (length password) && leb (length password) max_length)
    && (any is_upper password
        && (any is_lower password && (any is_digit password && any is_symbol password)))

unfoldable pub assert_strong_password : Text → Handler (Unit {0})
assert_strong_password password = raise_if (not (is_strong password)) weak_password

-- `===` on two texts that may be null.
abbrev pub same_text : Option Text → Option Text → Bool
same_text none none = true
same_text (some s) (some t) = text_eq s t
same_text _ _ = false

abbrev pub bound_to : Option Text → Option Text → Bool
bound_to stored presented = is_none stored || same_text stored presented

unfoldable pub fingerprint_matches : Crypto → OpenResetChallenge → DeviceContext → Bool
fingerprint_matches crypto challenge ctx =
    bound_to challenge.created_ip_hash (fingerprint crypto ctx.ip)
    && bound_to challenge.ua_hash (fingerprint crypto ctx.user_agent)

unfoldable pub reject_reset :
    {A : Type 0} → AccessEnv → OpenResetChallenge → DeviceContext → Handler A
reject_reset env challenge ctx = do
  modify (λ db. record db {
    reset_challenges =
        register_failed_attempt env.auth.now challenge.id challenge.max_attempts
          db.reset_challenges;
  })
  audit_row (some challenge.user_id) reset_verify none false (fingerprint env.auth.crypto ctx.ip)
  raise reset_invalid_code

abbrev pub is_eligible : User → Bool
is_eligible u = u.is_active && (u.mfa_enabled && is_some u.mfa_confirmed_at)

abbrev pub decoy_challenge_token : AccessEnv → Text
decoy_challenge_token env = print_token reset_prefix env.decoy_id env.decoy_secret

abbrev pub initiate_decoy : AccessEnv → Text → Option ℕ → DeviceContext → Handler Text
initiate_decoy env email actor ctx = do
  audit_row actor (reset_initiate (mask_email email) false) none true
      (fingerprint env.auth.crypto ctx.ip)
  pure (decoy_challenge_token env)

abbrev pub challenge_input : AccessEnv → ℕ → DeviceContext → CreateResetChallengeInput
challenge_input env user ctx = record {
  user_id = user;
  purpose = env.reset_purpose;
  ttl_seconds = env.reset_ttl;
  max_attempts = env.reset_max_attempts;
  ip = ctx.ip;
  user_agent = ctx.user_agent;
}

unfoldable pub create_challenge : AccessEnv → ℕ → DeviceContext → Handler IssuedResetChallenge
create_challenge env user ctx = do
  made ← gets (λ db.
      create env.auth.crypto env.auth.now env.reset_id env.reset_secret
        (challenge_input env user ctx) db.reset_challenges)
  modify (λ db. record db { reset_challenges = made.1 })
  or_raise made.0 taken_key

unfoldable pub initiate_user : AccessEnv → Text → DeviceContext → Option User → Handler Text
initiate_user env email ctx none = initiate_decoy env email none ctx
initiate_user env email ctx (some user) =
    if is_eligible user
    then (do
      issued ← create_challenge env user.id ctx
      audit_row (some user.id) (reset_initiate (mask_email email) true) none true
          (fingerprint env.auth.crypto ctx.ip)
      pure issued.token)
    else initiate_decoy env email (some user.id) ctx

-- The token of the cookie; its lifetime is `env.reset_ttl` on both branches.
unfoldable pub initiate : AccessEnv → Text → DeviceContext → Handler Text
initiate env email ctx = do
  user ← gets (λ db. find (by_email email) db.auth.users)
  initiate_user env email ctx user

-- `/^\d{6}$/`.
abbrev pub is_totp_shaped : Text → Bool
is_totp_shaped code = length code == 6 && all is_digit code

abbrev pub method_of : Text → ResetMethod
method_of code = if is_totp_shaped code then totp else backup_code

abbrev pub check_factor : AccessEnv → (AccessDb → AccessDb) → ℕ → Text → Handler Bool
check_factor env others user code =
    if is_totp_shaped code
    then check_totp env others user code
    else verify_code env.auth.crypto env.auth.now user code

unfoldable pub stamp_factor : AccessEnv → Text → ResetMethod → ℕ → Handler Bool
stamp_factor env id method max_attempts = do
  marked ← gets (λ db. mark_factor_verified env.auth.now id method max_attempts db.reset_challenges)
  modify (λ db. record db { reset_challenges = marked.1 })
  pure marked.0

unfoldable pub prove_factor :
    AccessEnv
    → (AccessDb → AccessDb)
    → OpenResetChallenge
    → Text
    → DeviceContext
    → User
    → Handler (Unit {0})
prove_factor env others challenge code ctx user = do
  proven ← check_factor env others user.id code
  if proven then pure tt else reject_reset env challenge ctx
  stamped ← stamp_factor env challenge.id (method_of code) challenge.max_attempts
  raise_if (not stamped) reset_challenge_consumed
  audit_row (some user.id) (reset_verify_code (method_of code)) none true
      (fingerprint env.auth.crypto ctx.ip)

abbrev pub verify_code_user :
    AccessEnv
    → (AccessDb → AccessDb)
    → OpenResetChallenge
    → Text
    → DeviceContext
    → Option User
    → Handler (Unit {0})
verify_code_user env others challenge code ctx none = reject_reset env challenge ctx
verify_code_user env others challenge code ctx (some user) =
    prove_factor env others challenge (trim code) ctx user

-- `verifyCode`. A factor that is stamped already is not spent again.
unfoldable pub verify_factor :
    AccessEnv
    → (AccessDb → AccessDb)
    → OpenResetChallenge
    → Text
    → DeviceContext
    → Handler (Unit {0})
verify_factor env others challenge code ctx =
    if not (fingerprint_matches env.auth.crypto challenge ctx)
    then reject_reset env challenge ctx
    else if is_some challenge.factor_verified_at
    then pure tt
    else (do
      user ← gets (λ db. find (user_id challenge.user_id) db.auth.users)
      verify_code_user env others challenge code ctx user)
