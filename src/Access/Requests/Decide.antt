-- ===== src/Access/Requests/Decide.antt =====
-- `list`, `detail` and `decide` of
-- Api/src/modules/password-reset/password-reset-request.service.ts: the administrators' side. The
-- rows stand for the items that are rendered from them.
use vaultchain_fintech_dashb.Prelude.{
  ℕ, Bool, true, not, ◌&&◌, ◌||◌, Option, none, some, List, [], ◌∷◌, find, filter, raise, raise_if,
  or_raise, gets, modify, pure, leb, ltb, ◌==◌, count_where, update_where, if◌then◌else◌, ◌>>◌,
  ◌>>=◌,
}
use vaultchain_fintech_dashb.Prelude.Text.{Text, take}
use vaultchain_fintech_dashb.Access.Store.{
  AccessAction, AccessEnv, Handler, RequestStatus, ResetRequest, AccessDb, approved,
  request_approve, request_already_decided, request_deny, request_not_found, self_reset_forbidden,
  audit_row, request_expired, send_alert, of_row,
}
use vaultchain_fintech_dashb.Access.Requests.{
  in_status, is_overdue_open, request_row, same_status, with_requests, denied, expire_in,
  expire_overdue, pending, expire_row, expired,
}

-- The order of the enum's values.
abbrev pub rank : RequestStatus → ℕ
rank pending = 0
rank approved = 1
rank denied = 2
rank expired = 3

-- `orderBy: [{ status: 'asc' }, { createdAt: 'desc' }]`.
abbrev pub comes_first : ResetRequest → ResetRequest → Bool
comes_first r s =
    ltb (rank r.status) (rank s.status)
    || (rank r.status == rank s.status && leb s.created_at r.created_at)

abbrev pub insert_row : ResetRequest → List ResetRequest → List ResetRequest
insert_row r [] = r ∷ []
insert_row r (s ∷ rest) = if comes_first r s then r ∷ (s ∷ rest) else s ∷ insert_row r rest

abbrev pub sort_rows : List ResetRequest → List ResetRequest
sort_rows [] = []
sort_rows (r ∷ rs) = insert_row r (sort_rows rs)

abbrev pub has_status : Option RequestStatus → ResetRequest → Bool
has_status none r = true
has_status (some status) r = same_status r.status status

abbrev pub list_take : ℕ
list_take = 100

unfoldable pub list_requests : AccessEnv → Option RequestStatus → Handler (List ResetRequest)
list_requests env status = do
  with_requests (expire_overdue env.auth.now none)
  gets (λ db. take list_take (sort_rows (filter (has_status status) db.reset_requests)))

unfoldable pub load_for_admin : Text → Handler ResetRequest
load_for_admin id = do
  found ← gets (λ db. find (request_row id) db.reset_requests)
  or_raise found request_not_found

-- What other requests write while the code awaits, after the row is read, is `others`.
unfoldable pub detail : AccessEnv → (AccessDb → AccessDb) → Text → Handler ResetRequest
detail env others id = do
  request ← load_for_admin id
  modify others
  if is_overdue_open env.auth.now request
      then with_requests (expire_in request.id request.status) >> pure (expire_row request)
      else pure request

abbrev pub decision_of : Bool → RequestStatus
decision_of approve = if approve then approved else denied

abbrev pub decided : ℕ → ℕ → Bool → ResetRequest → ResetRequest
decided now actor approve r = record r {
  status = decision_of approve;
  decided_by = some actor;
  decided_at = some now;
}

-- The single-winner update: how many rows it hit.
unfoldable pub settle : AccessEnv → ℕ → Text → Bool → Handler ℕ
settle env actor id approve = do
  count ← gets (λ db. count_where (in_status id pending) db.reset_requests)
  with_requests (update_where (in_status id pending) (decided env.auth.now actor approve))
  pure count

abbrev pub decision_action : Bool → ℕ → AccessAction
decision_action approve target = if approve then request_approve target else request_deny target

-- What other requests write while the answer is read is `later`.
unfoldable pub decide_pending :
    AccessEnv → (AccessDb → AccessDb) → ℕ → ResetRequest → Bool → Handler ResetRequest
decide_pending env later actor request approve = do
  count ← settle env actor request.id approve
  raise_if (count == 0) request_already_decided
  audit_row (some actor) (decision_action approve request.user_id) (some (of_row request.id)) true
      none
  send_alert env.alerts_work request.user_id
  detail env later request.id

unfoldable pub decide_row :
    AccessEnv → (AccessDb → AccessDb) → ℕ → ResetRequest → Bool → Handler ResetRequest
decide_row env later actor request approve =
    if request.user_id == actor
    then raise self_reset_forbidden
    else if same_status request.status pending && leb request.expires_at env.auth.now
    then with_requests (expire_in request.id pending) >> raise request_expired
    else if same_status request.status expired
    then raise request_expired
    else if not (same_status request.status pending)
    then raise request_already_decided
    else decide_pending env later actor request approve

-- What other requests write after the row is read, before the first write, is `others`.
unfoldable pub decide :
    AccessEnv
    → (AccessDb → AccessDb)
    → (AccessDb → AccessDb)
    → ℕ
    → Text
    → Bool
    → Handler ResetRequest
decide env others later actor id approve = do
  request ← load_for_admin id
  modify others
  decide_row env later actor request approve
