-- ===== src/Auth/Refresh.antt =====
-- `refresh` and `logout` of Api/src/modules/auth/auth.service.ts: the rotation of refresh tokens.
pub mod Rotation
use vaultchain_fintech_dashb.Prelude.{
  ℕ, suc, ◌+◌, Bool, true, false, not, ◌&&◌, ◌||◌, Option, none, some, List, [], ◌∷◌, find, raise,
  raise_if, gets, modify, pure, leb, ◌==◌, count_where, update_where, is_some, is_none,
  if◌then◌else◌, transaction, ◌>>=◌, ◌>>◌,
}
use vaultchain_fintech_dashb.Prelude.Text.{Text, text_eq}
use vaultchain_fintech_dashb.Challenge.Mfa.{Crypto, verifies}
use vaultchain_fintech_dashb.Challenge.Token.{parse_refresh_token, print_token, refresh_prefix}
use vaultchain_fintech_dashb.Auth.Store.{
  RefreshToken, AuthDb, AuthError, Handler, AuthEnv, AuthOthers, invalid_token, token_reused,
}
use vaultchain_fintech_dashb.Auth.Session.{
  SessionResult, build_response, store_token, token_id, new_token,
}

abbrev pub revoke : ℕ → RefreshToken → RefreshToken
revoke now t = record t { revoked_at = some now }

abbrev pub is_active_of : ℕ → RefreshToken → Bool
is_active_of user t = t.user_id == user && is_none t.revoked_at

-- `updateMany` of every active token of a user.
unfoldable pub revoke_all : ℕ → ℕ → Handler (Unit {0})
revoke_all now user =
    modify (λ db. record db { tokens = update_where (is_active_of user) (revoke now) db.tokens })

unfoldable pub reuse_detected : ℕ → RefreshToken → Handler SessionResult
reuse_detected now row = do revoke_all now row.user_id; raise token_reused

abbrev pub is_unspent : Text → RefreshToken → Bool
is_unspent id t = token_id id t && is_none t.revoked_at

abbrev pub replace_by : ℕ → Text → RefreshToken → RefreshToken
replace_by now new t = record t { revoked_at = some now; replaced_by_id = some new }

-- The replacement, for the one who won the conditional revocation.
abbrev pub replace_token : AuthEnv → RefreshToken → Bool → Handler Bool
replace_token env row true = store_token (new_token env row.user_id row.session_id) >> pure true
replace_token env row false = pure false

-- The transaction's body, and the transaction: its writes are undone where it throws.
unfoldable pub rotate_body : AuthEnv → RefreshToken → Handler Bool
rotate_body env row = do
  count ← gets (λ db. count_where (is_unspent row.id) db.tokens)
  modify (λ db. record db {
    tokens = update_where (is_unspent row.id) (replace_by env.now env.token_id) db.tokens;
  })
  replace_token env row (count == 1)

unfoldable pub rotate : AuthEnv → RefreshToken → Handler Bool
rotate env row = transaction (λ before after. before) (rotate_body env row)

unfoldable pub refresh_row : AuthEnv → AuthOthers → Text → RefreshToken → Handler SessionResult
refresh_row env others secret row =
    if is_some row.revoked_at
    then reuse_detected env.now row
    else if leb row.expires_at env.now || not (verifies env.crypto row.token_hash secret)
    then raise invalid_token
    else (do
      modify others.before_rotate
      rotated ← rotate env row
      if rotated
          then build_response env row.user_id
              (print_token refresh_prefix env.token_id env.token_secret)
          else reuse_detected env.now row)

abbrev pub refresh_found : AuthEnv → AuthOthers → Text → Option RefreshToken → Handler SessionResult
refresh_found env others secret none = raise invalid_token
refresh_found env others secret (some row) = refresh_row env others secret row

abbrev pub refresh_parsed : AuthEnv → AuthOthers → Option (Text × Text) → Handler SessionResult
refresh_parsed env others none = raise invalid_token
refresh_parsed env others (some (id, secret)) = do
  found ← gets (λ db. find (token_id id) db.tokens)
  refresh_found env others secret found

unfoldable pub refresh : AuthEnv → AuthOthers → Text → Handler SessionResult
refresh env others presented = refresh_parsed env others (parse_refresh_token presented)

abbrev pub is_active_in : Text → RefreshToken → Bool
is_active_in session t = text_eq t.session_id session && is_none t.revoked_at

abbrev pub logout_found : AuthEnv → Text → Option RefreshToken → Handler (Unit {0})
logout_found env secret none = pure tt
logout_found env secret (some row) =
    if verifies env.crypto row.token_hash secret
    then modify (λ db. record db {
      tokens = update_where (is_active_in row.session_id) (revoke env.now) db.tokens;
    })
    else pure tt

abbrev pub logout_parsed : AuthEnv → Option (Text × Text) → Handler (Unit {0})
logout_parsed env none = pure tt
logout_parsed env (some (id, secret)) = do
  found ← gets (λ db. find (token_id id) db.tokens)
  logout_found env secret found

unfoldable pub logout : AuthEnv → Text → Handler (Unit {0})
logout env presented = logout_parsed env (parse_refresh_token presented)
