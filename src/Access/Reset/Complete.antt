-- ===== src/Access/Reset/Complete.antt =====
-- The new password: `verify`, `adminReset` and `revokeAllTrust` of
-- Api/src/modules/password-reset/password-reset.service.ts.
use vaultchain_fintech_dashb.Prelude.{
  ℕ, Bool, true, false, not, ◌&&◌, Option, none, some, List, any, find, raise, raise_if, or_raise,
  gets, modify, pure, is_none, ◌==◌, update_where, transaction, if◌then◌else◌, ◌>>◌, ◌>>=◌,
}
use vaultchain_fintech_dashb.Prelude.Text.{Text, text_eq}
use vaultchain_fintech_dashb.Challenge.Mfa.{MfaChallenge, fingerprint, verifies}
use vaultchain_fintech_dashb.Challenge.Reset.{ResetChallenge, OpenResetChallenge, consume}
use vaultchain_fintech_dashb.Auth.Store.{user_id}
use vaultchain_fintech_dashb.Access.Store.{
  AccessDb, Handler, AccessEnv, ResetRequest, missing_row, self_reset_forbidden, of_row, of_user,
}
use vaultchain_fintech_dashb.Auth.Refresh.{is_active_of, revoke}
use vaultchain_fintech_dashb.Auth.Store.{User}
use vaultchain_fintech_dashb.Access.Reset.{
  assert_strong_password, same_text, audit_row, fingerprint_matches, reject_reset, user_not_found,
  admin_reset, request_complete, reset_factor_required, same_password, reset_challenge_consumed,
  send_alert, reset_complete,
}
use vaultchain_fintech_dashb.Access.Devices.{DeviceContext, revoke_all_devices}

-- The rows that `revokeAllTrust` closes.
abbrev pub is_open_login : ℕ → MfaChallenge → Bool
is_open_login user c = c.user_id == user && is_none c.consumed_at

abbrev pub is_other : Option Text → Text → Bool
is_other none id = true
is_other (some except) id = not (text_eq id except)

abbrev pub is_open_reset : ℕ → Option Text → ResetChallenge → Bool
is_open_reset user except c = c.user_id == user && (is_none c.consumed_at && is_other except c.id)

unfoldable pub revoke_all_trust : ℕ → ℕ → Option Text → AccessDb → AccessDb
revoke_all_trust now user except db = record db {
  auth = record db.auth {
    tokens = update_where (is_active_of user) (revoke now) db.auth.tokens;
    challenges =
        update_where (is_open_login user) (λ c. record c { consumed_at = some now })
          db.auth.challenges;
  };
  devices = revoke_all_devices now user db.devices;
  reset_challenges =
      update_where (is_open_reset user except) (λ c. record c { consumed_at = some now })
        db.reset_challenges;
}

abbrev pub with_password : Text → User → User
with_password hash u = record u {
  password_hash = hash;
  failed_login_count = 0;
  locked_until = none;
}

-- The update of the password, which throws where the user is gone, and the revocation.
unfoldable pub set_password : ℕ → ℕ → Text → Option Text → Handler (Unit {0})
set_password now user hash except = do
  raise_if (← gets (λ db. not (any (user_id user) db.auth.users))) missing_row
  modify (λ db. record db {
    auth = record db.auth {
      users = update_where (user_id user) (with_password hash) db.auth.users;
    };
  })
  modify (revoke_all_trust now user except)

unfoldable pub consume_reset : AccessEnv → OpenResetChallenge → Handler Bool
consume_reset env challenge = do
  won ← gets (λ db. consume env.auth.now challenge.id challenge.max_attempts db.reset_challenges)
  modify (λ db. record db { reset_challenges = won.1 })
  pure won.0

abbrev pub set_if_won : AccessEnv → OpenResetChallenge → ℕ → Text → Bool → Handler Bool
set_if_won env challenge user hash false = pure false
set_if_won env challenge user hash true =
    set_password env.auth.now user hash (some challenge.id) >> pure true

unfoldable pub replace_password : AccessEnv → OpenResetChallenge → ℕ → Text → Handler Bool
replace_password env challenge user hash =
    transaction (λ before after. before)
      (do won ← consume_reset env challenge; set_if_won env challenge user hash won)

-- The request that the challenge was granted for, if any, is completed.
abbrev pub is_linked : Text → ResetRequest → Bool
is_linked id r = same_text r.challenge_id (some id) && is_none r.completed_at

abbrev pub is_uncompleted : Text → ResetRequest → Bool
is_uncompleted id r = text_eq r.id id && is_none r.completed_at

unfoldable pub complete_request : ℕ → Text → List ResetRequest → List ResetRequest
complete_request now id rows =
    update_where (is_uncompleted id) (λ r. record r { completed_at = some now }) rows

abbrev pub complete_found : AccessEnv → ℕ → DeviceContext → Option ResetRequest → Handler (Unit {0})
complete_found env user ctx none = pure tt
complete_found env user ctx (some request) = do
  modify (λ db. record db {
    reset_requests = complete_request env.auth.now request.id db.reset_requests;
  })
  audit_row (some user) request_complete (some (of_row request.id)) true
      (fingerprint env.auth.crypto ctx.ip)

unfoldable pub complete_linked :
    AccessEnv → OpenResetChallenge → ℕ → DeviceContext → Handler (Unit {0})
complete_linked env challenge user ctx = do
  found ← gets (λ db. find (is_linked challenge.id) db.reset_requests)
  complete_found env user ctx found

unfoldable pub verify_user :
    AccessEnv → OpenResetChallenge → Text → DeviceContext → Option User → Handler (Unit {0})
verify_user env challenge password ctx none = reject_reset env challenge ctx
verify_user env challenge password ctx (some user) = do
  assert_strong_password password
  raise_if (verifies env.auth.crypto user.password_hash password) same_password
  consumed ← replace_password env challenge user.id (env.auth.crypto.hash password)
  raise_if (not consumed) reset_challenge_consumed
  audit_row (some user.id) (reset_complete challenge.factor_method) (some (of_user user.id)) true
      (fingerprint env.auth.crypto ctx.ip)
  complete_linked env challenge user.id ctx

-- `verify`: the new password, once the factor is stamped.
unfoldable pub verify_password :
    AccessEnv → OpenResetChallenge → Text → DeviceContext → Handler (Unit {0})
verify_password env challenge password ctx =
    if not (fingerprint_matches env.auth.crypto challenge ctx)
    then reject_reset env challenge ctx
    else if is_none challenge.factor_verified_at
    then raise reset_factor_required
    else (do
      user ← gets (λ db. find (user_id challenge.user_id) db.auth.users)
      verify_user env challenge password ctx user)

unfoldable pub admin_reset_user : AccessEnv → ℕ → Text → User → Handler (Unit {0})
admin_reset_user env actor password target = do
  assert_strong_password password
  transaction (λ before after. before)
      (set_password env.auth.now target.id (env.auth.crypto.hash password) none)
  audit_row (some actor) (admin_reset target.id) (some (of_user target.id)) true none
  send_alert env.alerts_work target.id

-- `adminReset`.
unfoldable pub reset_by_admin : AccessEnv → ℕ → ℕ → Text → Handler (Unit {0})
reset_by_admin env actor target password = do
  raise_if (actor == target) self_reset_forbidden
  found ← gets (λ db. find (user_id target) db.auth.users)
  user ← or_raise found user_not_found
  admin_reset_user env actor password user
