-- ===== src/Scenarios/Recovery.antt =====
-- The second factor, the remembered devices and the reset of a password, at concrete values.
use vaultchain_fintech_dashb.Prelude.{
  ℕ, true, false, Option, none, some, [], ◌∷◌, ◌≡◌, refl, arith, ok, count_where, ◌<◌, ◌≢◌, ◌+◌,
  if◌then◌else◌, ◌&&◌, ◌==◌, ltb,
}
use vaultchain_fintech_dashb.Prelude.Text.{Text, codes}
use vaultchain_fintech_dashb.Access.Store.{AccessDb, AccessEnv, BackupCode}
use vaultchain_fintech_dashb.Access.BackupCodes.{remaining, verify, normalize}
use vaultchain_fintech_dashb.Access.Devices.{
  IssuedDevice, issue, verify_device, device_prefix, revoke_all_devices,
}
use vaultchain_fintech_dashb.Challenge.Reset
use vaultchain_fintech_dashb.Challenge.Mfa.{consume, row_id}
use vaultchain_fintech_dashb.Auth.Store.{User}
use vaultchain_fintech_dashb.Challenge.Mfa.{MfaChallenge, OpenChallenge, load_parsed}
use vaultchain_fintech_dashb.Access.Factor.Floor.{is_above, floor_of}
use vaultchain_fintech_dashb.Access.MfaLogin.{
  MfaLoginResult, verify_totp, assert_login_challenge, complete, consume_challenge,
  issue_session_for_user,
}
use vaultchain_fintech_dashb.Challenge.Reset.{ResetChallenge, backup_code}
use vaultchain_fintech_dashb.Scenarios.Requests.{access_db, access_env, client}
use vaultchain_fintech_dashb.Challenge.Token.{print_token, refresh_prefix}
use vaultchain_fintech_dashb.Scenarios.Accounts.{ada, old_id, plain, auth_db, new_id}
use vaultchain_fintech_dashb.Access.BackupCodes.Once.{verify-remaining}
use vaultchain_fintech_dashb.Access.Devices.Remember.{
  issue-verify_device, revoke_all_devices-verify_device,
}
use vaultchain_fintech_dashb.Access.Factor.{check_totp, advance_floor}
use vaultchain_fintech_dashb.Access.MfaLogin.Safety.{verify_totp_once}
use vaultchain_fintech_dashb.Auth.Session.{issue_session, store_token, build_response}
use vaultchain_fintech_dashb.Mask.{mask_email}
use vaultchain_fintech_dashb.Access.Reset.Complete.{
  reset_by_admin, verify_password, admin_reset_user, verify_user, replace_password, set_password,
  consume_reset, complete_linked, revoke_all_trust,
}
use vaultchain_fintech_dashb.Access.Reset.Trust.{
  is_allowed, reset_by_admin_lem, verify_password_resets,
}
use vaultchain_fintech_dashb.Access.Reset.Credentials.{HasPassword, IsUntrusted}
use vaultchain_fintech_dashb.Access.Reset.{is_strong, fingerprint_matches, assert_strong_password}
use vaultchain_fintech_dashb.Access.Manage.{reset_factors, load_user, clear_factors, update_user}
use vaultchain_fintech_dashb.Access.Manage.Cleared.{
  HasNoFactor, IsLoggedOut, reset_factors-HasNoFactor,
}

abbrev code_at : ℕ → BackupCode
code_at id = record { id = id; user_id = 4; code_hash = codes "ABCD1234"; used_at = none }

two_codes_keys :
    (id : ℕ) → count_where (λ (c : BackupCode). c.id == id) (code_at 1 ∷ code_at 2 ∷ []) < 2
two_codes_keys id = ground arith

verify-remaining_example :
    remaining 4 (verify plain 7 4 (codes "abcd-1234") (code_at 1 ∷ code_at 2 ∷ [])).1
      + (if (verify plain 7 4 (codes "abcd-1234") (code_at 1 ∷ code_at 2 ∷ [])).0 && 4 == 4
          then 1
          else 0)
    ≡ remaining 4 (code_at 1 ∷ code_at 2 ∷ [])
verify-remaining_example =
    verify-remaining plain 7 4 4 (codes "abcd-1234") (code_at 1 ∷ code_at 2 ∷ []) two_codes_keys

-- The code redeems the first of the two.
one_left : remaining 4 (verify plain 7 4 (codes "abcd-1234") (code_at 1 ∷ code_at 2 ∷ [])).1 ≡ 1
unfolding remaining verify normalize
one_left = refl

abbrev issued : AccessDb
issued = (issue access_env 4 client (access_db [])).1

abbrev device : IssuedDevice
device = record {
  token = print_token device_prefix new_id (codes "device");
  device_id = new_id;
  expires_at = 3605000;
}

issues : issue access_env 4 client (access_db []) ≡ (ok device, issued)
unfolding issue
issues = refl

issue-verify_device_example : verify_device plain 6000 device.token client issued.devices ≡ some 4
issue-verify_device_example =
    issue-verify_device access_env 4 6000 client (access_db []) issues refl refl refl (omega arith)

revoke_all_devices-verify_device_example :
    verify_device plain 6000 device.token client (revoke_all_devices 5500 4 issued.devices) ≢ some 4
revoke_all_devices-verify_device_example =
    revoke_all_devices-verify_device plain 5500 6000 4 device.token client issued.devices

-- Ada with a one-time password, whose last step was 57.
abbrev enrolled : User
enrolled = record ada {
  mfa_enabled = true;
  mfa_confirmed_at = some 1;
  totp_secret_enc = some (codes "seed");
  last_used_totp_step = some 57;
}

abbrev challenge_row : MfaChallenge
challenge_row = record {
  id = old_id;
  token_hash = codes "challenge";
  user_id = 4;
  purpose = 1;
  expires_at = 9000;
  attempt_count = 0;
  max_attempts = 5;
  consumed_at = none;
  created_ip_hash = none;
  ua_hash = none;
}

abbrev challenge : OpenChallenge
challenge = record { id = old_id; user_id = 4; purpose = 1; attempt_count = 0; max_attempts = 5 }

abbrev in_login : AccessDb
in_login = record (access_db []) {
  auth = record (auth_db none) { users = enrolled ∷ []; challenges = challenge_row ∷ [] };
}

-- A library that accepts the step 60 where the floor is below it.
abbrev totp_60 : Text → Text → Option ℕ → Option ℕ
totp_60 secret code none = some 60
totp_60 secret code (some floor) = if ltb floor 60 then some 60 else none

abbrev totp_env : AccessEnv
totp_env = record access_env { totp = totp_60 }

totp_60_above :
    (secret code : Text) (floor : Option ℕ) (step : ℕ)
    → totp_60 secret code floor ≡ some step
    → is_above step floor ≡ true
totp_60_above secret code none step h = refl
totp_60_above secret code (some floor) step h = ground arith

abbrev logged_in : AccessDb
logged_in = (verify_totp totp_env (λ db. db) challenge (codes "123456") true client in_login).1

abbrev session : MfaLoginResult
session = record {
  session = record {
    refresh_token = print_token refresh_prefix new_id (codes "fresh");
    access_token = codes "jwt";
    expires_in = 900;
    permissions = 1 ∷ 2 ∷ 3 ∷ [];
    user_id = 4;
    display_name = codes "Ada";
    masked_email = codes "a***@b***.test";
    mfa_enabled = true;
    last_login_at = none;
  };
  remember_device = none;
}

ada-logs_in :
    verify_totp totp_env (λ db. db) challenge (codes "123456") true client in_login
    ≡ (ok session, logged_in)
unfolding verify_totp assert_login_challenge check_totp advance_floor complete consume_challenge
    issue_session_for_user issue_session store_token build_response mask_email consume
ada-logs_in = refl

logged_in_key : count_where (row_id old_id) logged_in.auth.challenges < 2
unfolding verify_totp assert_login_challenge check_totp advance_floor complete consume_challenge
    issue_session_for_user issue_session store_token build_response mask_email consume
logged_in_key = omega arith

verify_totp_once_example :
    ((challenge.purpose == totp_env.auth.login_purpose) ≡ true)
    × ((consume 6000 old_id 5 logged_in.auth.challenges).0 ≡ false)
    × (load_parsed plain 6000 (some (old_id, codes "challenge")) logged_in.auth.challenges ≡ none)
    × ((step : ℕ) × (floor_of 4 logged_in ≡ some step)
        × (is_above step (floor_of 4 in_login) ≡ true))
verify_totp_once_example =
    verify_totp_once totp_env (λ db. db) challenge (codes "123456") true client in_login
      (codes "challenge") 6000 5 totp_60_above (omega arith) logged_in_key ada-logs_in

-- Ada in a reset whose factor is stamped.
abbrev reset_row : ResetChallenge
reset_row = record {
  id = old_id;
  token_hash = codes "reset";
  user_id = 4;
  purpose = 2;
  expires_at = 9000;
  attempt_count = 1;
  max_attempts = 5;
  consumed_at = none;
  factor_verified_at = some 4000;
  factor_method = some backup_code;
  created_ip_hash = some (codes "10.1.2.3");
  ua_hash = none;
}

abbrev in_reset : AccessDb
in_reset = record (access_db []) { reset_challenges = reset_row ∷ [] }

abbrev new_password : Text
new_password = codes "Correct-Horse-7"

abbrev reset_done : AccessDb
reset_done = (verify_password access_env (Reset.open_of reset_row) new_password client in_reset).1

ada-resets :
    verify_password access_env (Reset.open_of reset_row) new_password client in_reset
    ≡ (ok tt, reset_done)
unfolding verify_password fingerprint_matches verify_user assert_strong_password is_strong
    replace_password consume_reset set_password complete_linked Reset.consume revoke_all_trust
ada-resets = refl

verify_password_resets_example :
    (is_allowed access_env (Reset.open_of reset_row) new_password client ≡ true)
    × ((Reset.consume 5000 old_id 5 in_reset.reset_challenges).0 ≡ true)
    × HasPassword 4 new_password reset_done
    × IsUntrusted 4 (some old_id) reset_done
verify_password_resets_example =
    verify_password_resets access_env (Reset.open_of reset_row) new_password client in_reset
      ada-resets

abbrev admin_done : AccessDb
admin_done = (reset_by_admin access_env 9 4 new_password (access_db [])).1

admin-resets : reset_by_admin access_env 9 4 new_password (access_db []) ≡ (ok tt, admin_done)
unfolding reset_by_admin admin_reset_user assert_strong_password is_strong set_password
admin-resets = refl

reset_by_admin_lem_example :
    ((9 == 4) ≡ false)
    × (is_strong new_password ≡ true)
    × HasPassword 4 new_password admin_done
    × IsUntrusted 4 none admin_done
reset_by_admin_lem_example =
    reset_by_admin_lem access_env 9 4 new_password (access_db []) admin-resets

-- An administrator resets Ada's second factor.
abbrev factorless : AccessDb
factorless = (reset_factors access_env 9 4 in_login).1

admin-clears : reset_factors access_env 9 4 in_login ≡ (ok tt, factorless)
unfolding reset_factors load_user clear_factors update_user revoke_all_devices
admin-clears = refl

reset_factors-HasNoFactor_example :
    ((9 == 4) ≡ false) × HasNoFactor 4 factorless × IsLoggedOut 4 factorless
reset_factors-HasNoFactor_example = reset_factors-HasNoFactor access_env 9 4 in_login admin-clears
