-- ===== src/Access/Requests/File.antt =====
-- `create` of Api/src/modules/password-reset/password-reset-request.service.ts: a request is filed,
-- or absorbed with an answer of the same shape.
use vaultchain_fintech_dashb.Prelude.{
  ℕ, ◌+◌, ◌*◌, Bool, true, false, not, ◌&&◌, ◌||◌, Option, none, some, List, [], ◌∷◌, any, find,
  raise_if, gets, modify, pure, ltb, ◌==◌, update_where, if◌then◌else◌, ◌>>=◌, ◌>>◌,
}
use vaultchain_fintech_dashb.Prelude.Text.{Text, take}
use vaultchain_fintech_dashb.Access.Store.{
  AccessDb, AccessEnv, ResetRequest, audit_row, send_alerts, taken_key, request_create, ResourceId,
  of_row,
}
use vaultchain_fintech_dashb.Challenge.Mfa.{Crypto, fingerprint}
use vaultchain_fintech_dashb.Access.Requests.{
  parse_request_token, newest, request_row, text_eq, Handler, is_pending_of, pending,
  request_prefix, verifies, with_requests, expire_overdue,
}
use vaultchain_fintech_dashb.Access.Devices.{DeviceContext}
use vaultchain_fintech_dashb.Challenge.Token.{print_token}
use vaultchain_fintech_dashb.Auth.Store.{User}
use vaultchain_fintech_dashb.Auth.Login.{by_email}
use vaultchain_fintech_dashb.Access.Network.{ip_prefix}
use vaultchain_fintech_dashb.Mask.{mask_email}

-- What other requests write before the transaction, and inside it between the check and the insert.
pub record RequestOthers : Type 0 where
  pub before_transaction : AccessDb → AccessDb
  pub before_insert : AccessDb → AccessDb

abbrev pub user_agent_max_length : ℕ
user_agent_max_length = 400

-- `ipPrefix(ctx.ip) || null`.
abbrev pub non_empty : Text → Option Text
non_empty [] = none
non_empty (c ∷ s) = some (c ∷ s)

abbrev pub shortened : Option Text → Option Text
shortened none = none
shortened (some []) = none
shortened (some (c ∷ s)) = some (take user_agent_max_length (c ∷ s))

abbrev pub new_request : AccessEnv → ℕ → DeviceContext → ResetRequest
new_request env user ctx = record {
  id = env.request_id;
  user_id = user;
  token_hash = env.auth.crypto.hash env.request_secret;
  status = pending;
  ip_hash = fingerprint env.auth.crypto ctx.ip;
  ip_prefix = non_empty (ip_prefix ctx.ip);
  user_agent = shortened ctx.user_agent;
  expires_at = env.auth.now + env.request_ttl * 1000;
  decided_by = none;
  decided_at = none;
  challenge_id = none;
  completed_at = none;
  created_at = env.auth.now;
}

unfoldable pub audit_create :
    AccessEnv → Option ℕ → Text → Bool → Option ResourceId → DeviceContext → Handler (Unit {0})
audit_create env actor email created resource ctx =
    audit_row actor (request_create (mask_email email) created) resource true
      (fingerprint env.auth.crypto ctx.ip)

abbrev pub decoy_request_token : AccessEnv → Text
decoy_request_token env = print_token request_prefix env.decoy_id env.decoy_secret

unfoldable pub decoy_outcome : AccessEnv → Text → Option ℕ → DeviceContext → Handler Text
decoy_outcome env email actor ctx = do
  audit_create env actor email false none ctx
  pure (decoy_request_token env)

abbrev pub rotate_secret : Text → ResetRequest → ResetRequest
rotate_secret hash r = record r { token_hash = hash }

unfoldable pub reenter_owner : AccessEnv → Text → User → ResetRequest → DeviceContext → Handler Text
reenter_owner env email user request ctx = do
  with_requests (
      update_where (request_row request.id)
        (rotate_secret (env.auth.crypto.hash env.request_secret)))
  audit_create env (some user.id) email false (some (of_row request.id)) ctx
  pure (print_token request_prefix request.id env.request_secret)

-- Whether the presented token is the handle of the open request.
abbrev pub is_handle_of : Crypto → ResetRequest → Option (Text × Text) → Bool
is_handle_of crypto request none = false
is_handle_of crypto request (some (id, secret)) =
    text_eq id request.id && verifies crypto request.token_hash secret

abbrev pub parse_presented : Option Text → Option (Text × Text)
parse_presented none = none
parse_presented (some token) = parse_request_token token

-- The insert fails where the id is taken, or a request is pending and the index is there.
abbrev pub is_refused : AccessEnv → ℕ → List ResetRequest → Bool
is_refused env user rows =
    any (request_row env.request_id) rows || (env.pending_index && any (is_pending_of user) rows)

unfoldable pub insert_request : AccessEnv → RequestOthers → ℕ → DeviceContext → Handler Bool
insert_request env others user ctx = do
  modify others.before_insert
  raise_if (← gets (λ db. is_refused env user db.reset_requests)) taken_key
  with_requests (λ rows. new_request env user ctx ∷ rows)
  pure true

-- The transaction: where the insert throws, it has written nothing of its own.
unfoldable pub insert_unless_open : AccessEnv → RequestOthers → ℕ → DeviceContext → Handler Bool
insert_unless_open env others user ctx = do
  still_open ← gets (λ db. any (is_pending_of user) db.reset_requests)
  if still_open then pure false else insert_request env others user ctx

abbrev pub file_result : AccessEnv → Text → User → DeviceContext → Bool → Handler Text
file_result env email user ctx false = do
  audit_create env (some user.id) email false none ctx
  pure (decoy_request_token env)
file_result env email user ctx true = do
  audit_create env (some user.id) email true (some (of_row env.request_id)) ctx
  send_alerts env.alerts_work env.reset_admins
  pure (print_token request_prefix env.request_id env.request_secret)

-- The newest request of any state is younger than the cooldown; none is where that is 0.
abbrev pub is_younger : AccessEnv → Option ResetRequest → Bool
is_younger env none = false
is_younger env (some r) = ltb env.auth.now (r.created_at + env.request_cooldown * 1000)

abbrev pub is_cooling : AccessEnv → ℕ → List ResetRequest → Bool
is_cooling env user rows =
    ltb 0 env.request_cooldown && is_younger env (newest (λ r. r.user_id == user) rows)

abbrev pub file_new : AccessEnv → RequestOthers → Text → User → DeviceContext → Handler Text
file_new env others email user ctx = do
  cooling ← gets (λ db. is_cooling env user.id db.reset_requests)
  if cooling then decoy_outcome env email (some user.id) ctx else (do
    modify others.before_transaction
    won ← insert_unless_open env others user.id ctx
    file_result env email user ctx won)

abbrev pub file_beside :
    AccessEnv
    → RequestOthers
    → Text
    → Option Text
    → User
    → DeviceContext
    → Option ResetRequest
    → Handler Text
file_beside env others email presented user ctx none = file_new env others email user ctx
file_beside env others email presented user ctx (some request) =
    if is_handle_of env.auth.crypto request (parse_presented presented)
    then reenter_owner env email user request ctx
    else decoy_outcome env email (some user.id) ctx

unfoldable pub file_for :
    AccessEnv → RequestOthers → Text → Option Text → DeviceContext → Option User → Handler Text
file_for env others email presented ctx none = decoy_outcome env email none ctx
file_for env others email presented ctx (some user) =
    if not user.is_active then decoy_outcome env email (some user.id) ctx else (do
      with_requests (expire_overdue env.auth.now (some user.id))
      request ← gets (λ db. newest (is_pending_of user.id) db.reset_requests)
      file_beside env others email presented user ctx request)

-- `create`; the lifetime of the answer is `env.request_ttl` on every branch.
unfoldable pub file_request :
    AccessEnv → RequestOthers → Text → Option Text → DeviceContext → Handler Text
file_request env others email presented ctx = do
  user ← gets (λ db. find (by_email email) db.auth.users)
  file_for env others email presented ctx user
