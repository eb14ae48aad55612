-- ===== src/Access/Manage.antt =====
-- Api/src/modules/auth/mfa-enrollment.service.ts and mfa-management.service.ts: the second factor is
-- set up, disabled and reset.
pub mod Cleared
use vaultchain_fintech_dashb.Prelude.{
  ℕ, Bool, true, false, not, ◌&&◌, Option, none, some, List, [], ◌∷◌, find, any, filter, raise_if,
  or_raise, gets, modify, pure, is_some, is_none, ◌==◌, update_where, remove_where, transaction,
  if◌then◌else◌, ◌>>=◌, ◌>>◌, handled,
}
use vaultchain_fintech_dashb.Prelude.Text.{Text}
use vaultchain_fintech_dashb.Access.Store.{
  AccessDb, AccessEnv, Handler, already_enrolled, audit_row, not_enabled, self_reset_forbidden,
  undecryptable, invalid_code, invalid_password, mfa_admin_reset, mfa_disable, mfa_enroll_start,
  mfa_regenerate, mfa_revoke_device, missing_row, no_setup_in_progress, mfa_enroll_confirm,
  send_alert, of_row, of_user,
}
use vaultchain_fintech_dashb.Auth.Store.{User, user_id}
use vaultchain_fintech_dashb.Challenge.Mfa.{verifies}
use vaultchain_fintech_dashb.Access.BackupCodes.{generate, verify_code}
use vaultchain_fintech_dashb.Access.Factor.{set_floor}
use vaultchain_fintech_dashb.Access.Reset.{is_totp_shaped}
use vaultchain_fintech_dashb.Mask.{trim}
use vaultchain_fintech_dashb.Access.Devices.{revoke_all_devices, revoke_for_user}
use vaultchain_fintech_dashb.Auth.Refresh.{is_active_of, revoke}
use vaultchain_fintech_dashb.Access.Reset.Complete.{is_open_login}

-- `findUniqueOrThrow`.
unfoldable pub load_user : ℕ → Handler User
load_user id = do found ← gets (λ db. find (user_id id) db.auth.users); or_raise found missing_row

abbrev pub is_enrolled : User → Bool
is_enrolled u = u.mfa_enabled && is_some u.mfa_confirmed_at

unfoldable pub assert_password : AccessEnv → User → Text → Handler (Unit {0})
assert_password env user password =
    raise_if (not (verifies env.auth.crypto user.password_hash password)) invalid_password

abbrev pub with_users : (List User → List User) → AccessDb → AccessDb
with_users f db = record db { auth = record db.auth { users = f db.auth.users } }

-- `user.update`, which throws where the user is gone.
unfoldable pub update_user : ℕ → (User → User) → Handler (Unit {0})
update_user id f = do
  raise_if (← gets (λ db. not (any (user_id id) db.auth.users))) missing_row
  modify (with_users (update_where (user_id id) f))

abbrev pub pending_secret : Text → User → User
pending_secret enc u = record u {
  totp_secret_enc = some enc;
  mfa_enabled = false;
  mfa_confirmed_at = none;
  last_used_totp_step = none;
}

-- `start`, with the secret that was made and encrypted for the user.
unfoldable pub start_setup : AccessEnv → ℕ → Text → Text → Handler (Unit {0})
start_setup env id password enc = do
  user ← load_user id
  assert_password env user password
  raise_if (is_enrolled user) already_enrolled
  update_user id (pending_secret enc)
  audit_row (some id) mfa_enroll_start none true none

abbrev pub activated : ℕ → ℕ → User → User
activated now step u = record u {
  mfa_enabled = true;
  mfa_confirmed_at = some now;
  last_used_totp_step = some step;
}

unfoldable pub replace_codes : AccessEnv → ℕ → List (ℕ × Text) → Handler (Unit {0})
replace_codes env id fresh =
    modify (λ db. record db { backup_codes = generate env.auth.crypto id fresh db.backup_codes })

-- `confirm`, with the plaintext codes that the random source makes.
unfoldable pub confirm_setup : AccessEnv → ℕ → Text → List (ℕ × Text) → Handler (Unit {0})
confirm_setup env id code fresh = do
  user ← load_user id
  raise_if (is_enrolled user) already_enrolled
  enc ← or_raise user.totp_secret_enc no_setup_in_progress
  secret ← or_raise (env.decrypt enc id) undecryptable
  step ← or_raise (env.totp secret code user.last_used_totp_step) invalid_code
  update_user id (activated env.auth.now step)
  replace_codes env id fresh
  audit_row (some id) mfa_enroll_confirm none true none

-- The step is written with no regard to the floor at that time.
abbrev pub accept_step : ℕ → Option ℕ → Handler Bool
accept_step id none = pure false
accept_step id (some step) = update_user id (set_floor step) >> pure true

abbrev pub check_code : AccessEnv → User → Text → Option Text → Handler Bool
check_code env user code none = pure false
check_code env user code (some enc) = do
  secret ← or_raise (env.decrypt enc user.id) undecryptable
  accept_step user.id (env.totp secret code user.last_used_totp_step)

abbrev pub check_second_factor : AccessEnv → User → Text → Handler Bool
check_second_factor env user code =
    if is_totp_shaped code
    then check_code env user code user.totp_secret_enc
    else verify_code env.auth.crypto env.auth.now user.id code

unfoldable pub assert_second_factor : AccessEnv → User → Text → Handler (Unit {0})
assert_second_factor env user code = do
  accepted ← check_second_factor env user (trim code)
  raise_if (not accepted) invalid_code

unfoldable pub authorize : AccessEnv → ℕ → Text → Text → Handler (Unit {0})
authorize env id password code = do
  user ← load_user id
  raise_if (not (is_enrolled user)) not_enabled
  assert_password env user password
  assert_second_factor env user code

abbrev pub without_factor : User → User
without_factor u = record u {
  mfa_enabled = false;
  mfa_confirmed_at = none;
  totp_secret_enc = none;
  last_used_totp_step = none;
}

unfoldable pub clear_factors : AccessEnv → ℕ → Handler (Unit {0})
clear_factors env id = do
  update_user id without_factor
  modify (λ db. record db {
    backup_codes = remove_where (λ c. c.user_id == id) db.backup_codes;
    devices = revoke_all_devices env.auth.now id db.devices;
  })

-- `disable`.
unfoldable pub disable : AccessEnv → ℕ → Text → Text → Handler (Unit {0})
disable env id password code = do
  authorize env id password code
  transaction (λ before after. before) (clear_factors env id)
  audit_row (some id) mfa_disable none true none

-- `regenerateBackupCodes`.
unfoldable pub regenerate_backup_codes :
    AccessEnv → ℕ → Text → Text → List (ℕ × Text) → Handler (Unit {0})
regenerate_backup_codes env id password code fresh = do
  authorize env id password code
  replace_codes env id fresh
  audit_row (some id) mfa_regenerate none true none

abbrev pub close_sessions : ℕ → ℕ → AccessDb → AccessDb
close_sessions now id db = record db {
  auth = record db.auth {
    tokens = update_where (is_active_of id) (revoke now) db.auth.tokens;
    challenges =
        update_where (is_open_login id) (λ c. record c { consumed_at = some now })
          db.auth.challenges;
  };
}

-- `adminReset`.
unfoldable pub reset_factors : AccessEnv → ℕ → ℕ → Handler (Unit {0})
reset_factors env actor target = do
  raise_if (actor == target) self_reset_forbidden
  load_user target
  transaction (λ before after. before)
      (do clear_factors env target; modify (close_sessions env.auth.now target))
  audit_row (some actor) (mfa_admin_reset target) (some (of_user target)) true none
  send_alert env.alerts_work target

-- `revokeDevice`.
unfoldable pub revoke_own_device : AccessEnv → ℕ → Text → Handler (Unit {0})
revoke_own_device env id device = do
  modify (λ db. record db { devices = revoke_for_user env.auth.now id device db.devices })
  audit_row (some id) mfa_revoke_device (some (of_row device)) true none
