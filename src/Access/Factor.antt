-- ===== src/Access/Factor.antt =====
-- The one-time password as a factor, as Api/src/modules/auth/mfa-login.service.ts and
-- Api/src/modules/password-reset/password-reset.service.ts check it: the step that is accepted
-- becomes the floor for the next one by a compare-and-set.
pub mod Floor
use vaultchain_fintech_dashb.Prelude.{
  ℕ, Bool, true, false, ◌&&◌, Option, none, some, List, find, or_raise, gets, modify, pure, ◌==?◌,
  ◌==◌, count_where, update_where, if◌then◌else◌, ◌>>=◌, ◌>>◌, handled,
}
use vaultchain_fintech_dashb.Prelude.Text.{Text}
use vaultchain_fintech_dashb.Auth.Store.{User, user_id}
use vaultchain_fintech_dashb.Access.Store.{AccessDb, AccessEnv, Handler, undecryptable}

abbrev pub has_floor : ℕ → Option ℕ → User → Bool
has_floor id floor u = u.id == id && u.last_used_totp_step ==? floor

abbrev pub set_floor : ℕ → User → User
set_floor step u = record u { last_used_totp_step = some step }

-- The compare-and-set: whether it hit the one row.
unfoldable pub advance_floor : ℕ → Option ℕ → ℕ → Handler Bool
advance_floor id floor step = do
  count ← gets (λ db. count_where (has_floor id floor) db.auth.users)
  modify (λ db. record db {
    auth = record db.auth {
      users = update_where (has_floor id floor) (set_floor step) db.auth.users;
    };
  })
  pure (count == 1)

-- What other requests write between the read of the user and the compare-and-set.
abbrev pub check_step : (AccessDb → AccessDb) → ℕ → Option ℕ → Option ℕ → Handler Bool
check_step others id floor none = pure false
check_step others id floor (some step) = do modify others; advance_floor id floor step

abbrev pub check_secret :
    AccessEnv → (AccessDb → AccessDb) → Text → User → Option Text → Handler Bool
check_secret env others code user none = pure false
check_secret env others code user (some enc) = do
  secret ← or_raise (env.decrypt enc user.id) undecryptable
  check_step others user.id user.last_used_totp_step (env.totp secret code user.last_used_totp_step)

abbrev pub check_user : AccessEnv → (AccessDb → AccessDb) → Text → Option User → Handler Bool
check_user env others code none = pure false
check_user env others code (some user) = check_secret env others code user user.totp_secret_enc

unfoldable pub check_totp : AccessEnv → (AccessDb → AccessDb) → ℕ → Text → Handler Bool
check_totp env others id code = do
  user ← gets (λ db. find (user_id id) db.auth.users)
  check_user env others code user
