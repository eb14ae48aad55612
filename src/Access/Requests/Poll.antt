-- ===== src/Access/Requests/Poll.antt =====
-- `status` and `claimApproval` of
-- Api/src/modules/password-reset/password-reset-request.service.ts: the owner polls, and claims an
-- approval.
use vaultchain_fintech_dashb.Prelude.{
  Bool, true, false, not, Option, none, some, List, find, raise_if, gets, modify, pure, is_some,
  update_where, any, if◌then◌else◌, ◌>>◌, ◌>>=◌,
}
use vaultchain_fintech_dashb.Prelude.Text.{Text}
use vaultchain_fintech_dashb.Access.Store.{
  AccessEnv, AccessDb, Handler, RequestStatus, ResetRequest, missing_row, audit_row, request_claim,
  of_row,
}
use vaultchain_fintech_dashb.Auth.Store.{User, user_id}
use vaultchain_fintech_dashb.Challenge.Mfa.{Crypto, fingerprint}
use vaultchain_fintech_dashb.Access.Requests.{
  load_by_token, request_row, pending, denied, expired, is_overdue_open, with_requests, expire_in,
  expired, approved,
}
use vaultchain_fintech_dashb.Access.Devices.{DeviceContext}
use vaultchain_fintech_dashb.Access.Reset.{create_challenge, stamp_factor}
use vaultchain_fintech_dashb.Challenge.Reset.{admin_approval}

-- The state that the owner is told, and the token of a challenge that was claimed.
pub record PollResult : Type 0 where
  pub status : RequestStatus
  pub challenge_token : Option Text

abbrev pub told : RequestStatus → PollResult
told status = record { status = status; challenge_token = none }

abbrev pub link_challenge : Text → ResetRequest → ResetRequest
link_challenge id r = record r { challenge_id = some id }

unfoldable pub link : Text → Text → Handler (Unit {0})
link id challenge = do
  raise_if (← gets (λ db. not (any (request_row id) db.reset_requests))) missing_row
  with_requests (update_where (request_row id) (link_challenge challenge))

unfoldable pub claim_active : AccessEnv → ResetRequest → DeviceContext → Handler PollResult
claim_active env request ctx = do
  issued ← create_challenge env request.user_id ctx
  stamped ← stamp_factor env issued.challenge_id admin_approval env.reset_max_attempts
  if not stamped then pure (told pending) else (do
    link request.id issued.challenge_id
    audit_row (some request.user_id) request_claim (some (of_row request.id)) true
        (fingerprint env.auth.crypto ctx.ip)
    pure (record { status = approved; challenge_token = some issued.token }))

abbrev pub is_active_user : Option User → Bool
is_active_user none = false
is_active_user (some user) = user.is_active

unfoldable pub claim_approval : AccessEnv → ResetRequest → DeviceContext → Handler PollResult
claim_approval env request ctx = do
  user ← gets (λ db. find (user_id request.user_id) db.auth.users)
  if is_active_user user then claim_active env request ctx else pure (told pending)

abbrev pub poll_state :
    AccessEnv → ResetRequest → DeviceContext → RequestStatus → Handler PollResult
poll_state env request ctx pending = pure (told pending)
poll_state env request ctx denied = pure (told denied)
poll_state env request ctx expired = pure (told expired)
poll_state env request ctx approved =
    if is_some request.completed_at then pure (told approved) else claim_approval env request ctx

unfoldable pub poll_row : AccessEnv → DeviceContext → Option ResetRequest → Handler PollResult
poll_row env ctx none = pure (told pending)
poll_row env ctx (some request) =
    if is_overdue_open env.auth.now request
    then with_requests (expire_in request.id request.status) >> pure (told expired)
    else poll_state env request ctx request.status

abbrev pub load_presented : Crypto → Option Text → List ResetRequest → Option ResetRequest
load_presented crypto none rows = none
load_presented crypto (some token) rows = load_by_token crypto token rows

-- `status`. What other requests write while the code awaits, after the row is read, is `others`.
unfoldable pub poll :
    AccessEnv → (AccessDb → AccessDb) → Option Text → DeviceContext → Handler PollResult
poll env others presented ctx = do
  request ← gets (λ db. load_presented env.auth.crypto presented db.reset_requests)
  modify others
  poll_row env ctx request
