-- ===== src/Access/Requests.antt =====
-- Api/src/modules/password-reset/password-reset-request.service.ts: the table of the requests for a
-- reset by an administrator, and the queries on it.
pub mod File
pub mod Poll
pub mod Decide
pub mod Machine
pub mod Writes
pub mod Moves
pub mod Held
pub mod Filing
pub mod Polling
pub mod Deciding
pub mod Lifecycle
pub mod FourEyes
pub mod OneOpen
use vaultchain_fintech_dashb.Prelude.{
  ℕ, ◌+◌, ◌*◌, Bool, true, false, not, ◌&&◌, ◌||◌, Option, none, some, List, [], ◌∷◌, any, all,
  find, filter, is_some, is_none, leb, ltb, ◌==◌, update_where, if◌then◌else◌, modify, gets,
}
use vaultchain_fintech_dashb.Prelude.Text.{Text, codes, text_eq, take}
use vaultchain_fintech_dashb.Access.Store.{
  pending, approved, denied, expired, RequestStatus, ResetRequest, Handler,
}
use vaultchain_fintech_dashb.Challenge.Token.{parse_opaque, is_uuid}
use vaultchain_fintech_dashb.Challenge.Mfa.{Crypto, verifies}

abbrev pub request_prefix : Text
request_prefix = codes "pwq_"

abbrev pub parse_request_token : Text → Option (Text × Text)
parse_request_token token = parse_opaque is_uuid request_prefix token

-- `===` on two states.
abbrev pub same_status : RequestStatus → RequestStatus → Bool
same_status pending pending = true
same_status approved approved = true
same_status denied denied = true
same_status expired expired = true
same_status _ _ = false

abbrev pub request_row : Text → ResetRequest → Bool
request_row id r = text_eq r.id id

abbrev pub in_status : Text → RequestStatus → ResetRequest → Bool
in_status id status r = request_row id r && same_status r.status status

abbrev pub is_open : ResetRequest → Bool
is_open r =
    same_status r.status pending || (same_status r.status approved && is_none r.completed_at)

abbrev pub is_overdue_open : ℕ → ResetRequest → Bool
is_overdue_open now r = is_open r && leb r.expires_at now

abbrev pub expire_row : ResetRequest → ResetRequest
expire_row r = record r { status = expired }

-- The rows of one user, or of all.
abbrev pub is_of : Option ℕ → ResetRequest → Bool
is_of none r = true
is_of (some user) r = r.user_id == user

unfoldable pub expire_overdue : ℕ → Option ℕ → List ResetRequest → List ResetRequest
expire_overdue now user rows =
    update_where (λ r. is_of user r && is_overdue_open now r) expire_row rows

-- The write of `status`, `detail` and `decide`: only where the row still has the state read.
unfoldable pub expire_in : Text → RequestStatus → List ResetRequest → List ResetRequest
expire_in id status rows = update_where (in_status id status) expire_row rows

abbrev pub is_pending_of : ℕ → ResetRequest → Bool
is_pending_of user r = r.user_id == user && same_status r.status pending

-- `findFirst` with `orderBy: { createdAt: 'desc' }`.
abbrev pub newer : ResetRequest → Option ResetRequest → ResetRequest
newer r none = r
newer r (some s) = if ltb r.created_at s.created_at then s else r

abbrev pub newest : (ResetRequest → Bool) → List ResetRequest → Option ResetRequest
newest p [] = none
newest p (r ∷ rs) = let rest = newest p rs in if p r then some (newer r rest) else rest

abbrev pub load_row : Crypto → Text → Option ResetRequest → Option ResetRequest
load_row crypto secret none = none
load_row crypto secret (some r) = if verifies crypto r.token_hash secret then some r else none

abbrev pub load_parsed : Crypto → List ResetRequest → Option (Text × Text) → Option ResetRequest
load_parsed crypto rows none = none
load_parsed crypto rows (some (id, secret)) = load_row crypto secret (find (request_row id) rows)

unfoldable pub load_by_token : Crypto → Text → List ResetRequest → Option ResetRequest
load_by_token crypto presented rows = load_parsed crypto rows (parse_request_token presented)

abbrev pub with_requests : (List ResetRequest → List ResetRequest) → Handler (Unit {0})
with_requests f = modify (λ db. record db { reset_requests = f db.reset_requests })
