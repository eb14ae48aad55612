-- ===== src/Auth/Session.antt =====
-- `issueSession`, `buildResponse` and `resolvePermissions` of
-- Api/src/modules/auth/auth.service.ts.
use vaultchain_fintech_dashb.Prelude.{
  ℕ, ◌+◌, ◌*◌, Bool, Option, none, some, List, [], ◌∷◌, find, any, or_raise, raise_if, gets, modify,
  pure, ◌>>=◌, ◌>>◌,
}
use vaultchain_fintech_dashb.Prelude.Text.{Text, text_eq}
use vaultchain_fintech_dashb.Mask.{mask_email}
use vaultchain_fintech_dashb.Challenge.Token.{print_token, refresh_prefix}
use vaultchain_fintech_dashb.Ledger.Execute.{insert_id}
use vaultchain_fintech_dashb.Auth.Store.{
  User, RefreshToken, Handler, AuthEnv, user_id, record_not_found, unique_violation,
}

abbrev pub access_ttl_seconds : ℕ
access_ttl_seconds = 15 * 60

abbrev pub refresh_ttl_ms : ℕ
refresh_ttl_ms = 30 * 24 * 60 * 60 * 1000

pub record SessionResult : Type 0 where
  pub refresh_token : Text
  pub access_token : Text
  pub expires_in : ℕ
  pub permissions : List ℕ
  pub user_id : ℕ
  pub display_name : Text
  pub masked_email : Text
  pub mfa_enabled : Bool
  pub last_login_at : Option ℕ

-- The codes of all roles, each once, sorted.
abbrev pub add_codes : List ℕ → List ℕ → List ℕ
add_codes [] rest = rest
add_codes (c ∷ cs) rest = insert_id c (add_codes cs rest)

abbrev pub codes_of : List (List ℕ) → List ℕ
codes_of [] = []
codes_of (role ∷ roles) = add_codes role (codes_of roles)

abbrev pub roles_of : Option User → List (List ℕ)
roles_of none = []
roles_of (some u) = u.user_roles

abbrev pub resolve_permissions : ℕ → List User → List ℕ
resolve_permissions id users = codes_of (roles_of (find (user_id id) users))

unfoldable pub build_response : AuthEnv → ℕ → Text → Handler SessionResult
build_response env id refresh_token = do
  permissions ← gets (λ db. resolve_permissions id db.users)
  found ← gets (λ db. find (user_id id) db.users)
  user ← or_raise found record_not_found
  pure (record {
    refresh_token = refresh_token;
    access_token = env.sign id permissions user.permission_version;
    expires_in = access_ttl_seconds;
    permissions = permissions;
    user_id = user.id;
    display_name = user.display_name;
    masked_email = mask_email user.email;
    mfa_enabled = user.mfa_enabled;
    last_login_at = user.last_login_at;
  })

abbrev pub token_id : Text → RefreshToken → Bool
token_id id t = text_eq t.id id

abbrev pub new_token : AuthEnv → ℕ → Text → RefreshToken
new_token env user session = record {
  id = env.token_id;
  token_hash = env.crypto.hash env.token_secret;
  user_id = user;
  session_id = session;
  expires_at = env.now + refresh_ttl_ms;
  revoked_at = none;
  replaced_by_id = none;
}

unfoldable pub store_token : RefreshToken → Handler (Unit {0})
store_token t = do
  raise_if (← gets (λ db. any (token_id t.id) db.tokens)) unique_violation
  modify (λ db. record db { tokens = t ∷ db.tokens })

unfoldable pub issue_session : AuthEnv → ℕ → Text → Handler SessionResult
issue_session env user session = do
  store_token (new_token env user session)
  build_response env user (print_token refresh_prefix env.token_id env.token_secret)
