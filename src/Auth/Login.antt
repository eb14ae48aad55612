-- ===== src/Auth/Login.antt =====
-- `login`, `decideSecondFactor` and `registerFailure` of Api/src/modules/auth/auth.service.ts.
pub mod Lockout
pub mod FifthFailure
use vaultchain_fintech_dashb.Prelude.{
  ℕ, suc, ◌+◌, ◌*◌, Bool, true, false, not, ◌&&◌, Option, none, some, List, [], ◌∷◌, ◌++◌, find,
  any, map, or_raise, raise, raise_if, gets, modify, pure, ltb, leb, ◌==◌, count_where,
  update_where, is_some, if◌then◌else◌, ◌>>=◌, ◌>>◌,
}
use vaultchain_fintech_dashb.Prelude.Text.{Text, text_eq, to_lower}
use vaultchain_fintech_dashb.Mask.{trim}
use vaultchain_fintech_dashb.Challenge.Mfa.{
  Crypto, verifies, fingerprint, create, IssuedChallenge, CreateChallengeInput,
}
use vaultchain_fintech_dashb.Auth.Store.{
  User, AuthDb, AuthError, Handler, AuthEnv, AuthOthers, user_id, same_time, FailureReason,
  LoginAttempt, mfa_enrollment_required, record_not_found, unique_violation, unknown_user,
  bad_password, invalid_credentials, locked, account_locked,
}
use vaultchain_fintech_dashb.Auth.Session.{SessionResult, issue_session}

abbrev pub max_failed_logins : ℕ
max_failed_logins = 5

abbrev pub lock_ms : ℕ
lock_ms = 15 * 60 * 1000

pub record LoginContext : Type 0 where
  pub ip : Option Text
  pub user_agent : Option Text
  pub remember_device_token : Option Text

pub data LoginOutcome : Type 0 where
  authenticated : SessionResult → LoginOutcome
  mfa_required : Text → ℕ → LoginOutcome

-- `lockedUntil && lockedUntil.getTime() > Date.now()`.
abbrev pub is_locked : ℕ → Option ℕ → Bool
is_locked now none = false
is_locked now (some until) = ltb now until

unfoldable pub record_attempt :
    AuthEnv → Option ℕ → Text → Bool → Option FailureReason → Option Text → Handler (Unit {0})
record_attempt env user email success reason ip = modify (λ db. record db {
  attempts =
      (record {
        user_id = user;
        email_hash = if is_some user then none else some (env.crypto.sha256 email);
        success = success;
        failure_reason = reason;
        ip_hash = fingerprint env.crypto ip;
      })
      ∷ db.attempts;
})

-- The row that the lock write compares with what the increment returned.
abbrev pub is_unchanged : User → User → Bool
is_unchanged state u =
    u.id == state.id
    && (u.failed_login_count == state.failed_login_count
        && same_time u.locked_until state.locked_until)

unfoldable pub try_lock : AuthEnv → User → Handler Bool
try_lock env state =
    if leb max_failed_logins state.failed_login_count && not (is_locked env.now state.locked_until)
    then (do
      count ← gets (λ db. count_where (is_unchanged state) db.users)
      modify (λ db. record db {
        users =
            update_where (is_unchanged state)
              (λ u. record u { locked_until = some (env.now + lock_ms) }) db.users;
      })
      pure (count == 1))
    else pure false

-- Best effort: the alert's own failure is swallowed, so it changes nothing else.
abbrev pub notify_account_lockout : ℕ → Handler (Unit {0})
notify_account_lockout id = modify (λ db. record db { lockout_alerts = id ∷ db.lockout_alerts })

abbrev pub count_failure : User → User
count_failure u = record u { failed_login_count = suc u.failed_login_count }

unfoldable pub register_failure : AuthEnv → AuthOthers → ℕ → Text → Option Text → Handler (Unit {0})
register_failure env others id email ip = do
  raise_if (not (← gets (λ db. any (user_id id) db.users))) record_not_found
  modify (λ db. record db { users = update_where (user_id id) count_failure db.users })
  found ← gets (λ db. find (user_id id) db.users)
  state ← or_raise found record_not_found
  modify others.before_lock
  won ← try_lock env state
  record_attempt env (some id) email false (some bad_password) ip
  if won && env.alert_works then notify_account_lockout id else pure tt

-- A device token that the remembered devices know as this user's.
abbrev pub knows_device : AuthEnv → Text → Option ℕ
knows_device env [] = none
knows_device env (c ∷ token) = env.remembered (c ∷ token)

abbrev pub is_owner : ℕ → Option ℕ → Bool
is_owner id none = false
is_owner id (some owner) = owner == id

abbrev pub trusted_user : AuthEnv → Option Text → Option ℕ
trusted_user env none = none
trusted_user env (some token) = knows_device env token

abbrev pub is_trusted : AuthEnv → LoginContext → ℕ → Bool
is_trusted env ctx id =
    env.remember_device_enabled && is_owner id (trusted_user env ctx.remember_device_token)

abbrev pub login_challenge : AuthEnv → LoginContext → ℕ → CreateChallengeInput
login_challenge env ctx id = record {
  user_id = id;
  purpose = env.login_purpose;
  ttl_seconds = env.challenge_ttl;
  max_attempts = env.max_verify_attempts;
  ip = ctx.ip;
  user_agent = ctx.user_agent;
}

unfoldable pub issue_challenge : AuthEnv → LoginContext → ℕ → Handler LoginOutcome
issue_challenge env ctx id = do
  made ← gets (λ db.
      create env.crypto env.now env.challenge_id env.challenge_secret (login_challenge env ctx id)
        db.challenges)
  issued ← or_raise made.0 unique_violation
  modify (λ db. record db { challenges = made.1 })
  pure (mfa_required issued.token env.challenge_ttl)

abbrev pub start_session : AuthEnv → ℕ → Handler LoginOutcome
start_session env id = do
  session ← issue_session env id env.session_id
  pure (authenticated session)

abbrev pub has_mfa : User → Bool
has_mfa u = u.mfa_enabled && is_some u.mfa_confirmed_at

unfoldable pub decide_second_factor : AuthEnv → LoginContext → User → Handler LoginOutcome
decide_second_factor env ctx user =
    if is_trusted env ctx user.id
    then start_session env user.id
    else if has_mfa user
    then issue_challenge env ctx user.id
    else if env.mfa_required
    then raise mfa_enrollment_required
    else start_session env user.id

abbrev pub reset_failures : ℕ → User → User
reset_failures now u = record u {
  last_login_at = some now;
  failed_login_count = 0;
  locked_until = none;
}

unfoldable pub let_in : AuthEnv → LoginContext → Text → User → Handler LoginOutcome
let_in env ctx email user = do
  raise_if (not (← gets (λ db. any (user_id user.id) db.users))) record_not_found
  modify
      (λ db. record db { users = update_where (user_id user.id) (reset_failures env.now) db.users })
  record_attempt env (some user.id) email true none ctx.ip
  decide_second_factor env ctx user

unfoldable pub log_in_as :
    AuthEnv → AuthOthers → LoginContext → Text → Text → Option User → Handler LoginOutcome
log_in_as env others ctx email password none = do
  record_attempt env none email false (some unknown_user) ctx.ip
  raise invalid_credentials
log_in_as env others ctx email password (some user) =
    if is_locked env.now user.locked_until
    then (do
      record_attempt env (some user.id) email false (some locked) ctx.ip
      raise account_locked)
    else if user.is_active && verifies env.crypto user.password_hash password
    then let_in env ctx email user
    else (do register_failure env others user.id email ctx.ip; raise invalid_credentials)

abbrev pub normal_email : Text → Text
normal_email email_raw = map to_lower (trim email_raw)

abbrev pub by_email : Text → User → Bool
by_email email u = text_eq u.email email

unfoldable pub login : AuthEnv → AuthOthers → Text → Text → LoginContext → Handler LoginOutcome
login env others email_raw password ctx = do
  let email = normal_email email_raw
  found ← gets (λ db. find (by_email email) db.users)
  log_in_as env others ctx email password found
