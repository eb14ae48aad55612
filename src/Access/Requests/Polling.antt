-- ===== src/Access/Requests/Polling.antt =====
-- The writes of `status` and `detail` of
-- Api/src/modules/password-reset/password-reset-request.service.ts.
use vaultchain_fintech_dashb.Prelude.{
  ℕ, Bool, true, not, Option, none, some, List, ◌≡◌, refl, Bool-cases, inl, inr, is_some, any, find,
  &&_left, ◌∙◌, find_fits, Option-cases, ap, pure, raise_if, some-injective,
}
use vaultchain_fintech_dashb.Prelude.Text.{Text, text_eq_iff}
use vaultchain_fintech_dashb.Access.Store.{
  pending, approved, denied, expired, ResetRequest, AccessEnv, AccessDb, missing_row,
}
use vaultchain_fintech_dashb.Access.Reset.{create_challenge, stamp_factor}
use vaultchain_fintech_dashb.Access.Devices.{DeviceContext}
use vaultchain_fintech_dashb.Challenge.Reset.{ResetMethod, admin_approval}
use vaultchain_fintech_dashb.Access.Requests.Writes.{
  Writes, Writes-trans, can_expire, end, one_write, relink, expire_read,
}
use vaultchain_fintech_dashb.Auth.Store.{user_id}
use vaultchain_fintech_dashb.Access.Requests.{
  request_row, RequestStatus, load_by_token, Crypto, is_overdue_open, is_open, load_row, verifies,
  load_parsed, parse_request_token,
}
use vaultchain_fintech_dashb.Access.Requests.Moves.{open_can_expire}
use vaultchain_fintech_dashb.Access.Requests.Poll.{
  claim_approval, claim_active, link, is_active_user, poll, poll_row, poll_state, load_presented,
  told,
}
use vaultchain_fintech_dashb.Access.Requests.Decide.{detail, load_for_admin}
use vaultchain_fintech_dashb.Access.Requests.Filing.{
  if-Writes, after-Writes, stay_at, create_challenge_lem,
}

-- The row that an id finds is the one that its own id finds.
pub found_by_id :
    (id : Text) (rows : List ResetRequest) (request : ResetRequest)
    → find (request_row id) rows ≡ some request
    → find (request_row request.id) rows ≡ some request
found_by_id id rows request e =
    let here = text_eq_iff request.id id (find_fits (request_row id) rows e) in
    ap (λ i. find (request_row i) rows) here ∙ e

-- A request that a token loads is the one that its id finds.
pub load_presented-find :
    (crypto : Crypto) (presented : Option Text) (rows : List ResetRequest) (request : ResetRequest)
    → load_presented crypto presented rows ≡ some request
    → find (request_row request.id) rows ≡ some request
unfolding load_by_token
load_presented-find crypto none rows request h = cc h
load_presented-find crypto (some token) rows request h = by_parsed (parse_request_token token) h
  where
    by_row :
        (id secret : Text) (o : Option ResetRequest)
        → find (request_row id) rows ≡ o
        → load_row crypto secret o ≡ some request
        → find (request_row request.id) rows ≡ some request
    by_row id secret none e k = cc k
    by_row id secret (some r) e k = elim (Bool-cases (verifies crypto r.token_hash secret)) [
      | inl good ↦
          let same = some-injective r request (rw good at k) in
          found_by_id id rows request (e ∙ ap (λ q. some q) same)
      | inr bad ↦ cc (rw bad at k)
    ]

    by_parsed :
        (o : Option (Text × Text))
        → load_parsed crypto rows o ≡ some request
        → find (request_row request.id) rows ≡ some request
    by_parsed none k = cc k
    by_parsed (some (id, secret)) k = by_row id secret (find (request_row id) rows) refl k

overdue_can_expire :
    (now : ℕ) (request : ResetRequest)
    → is_overdue_open now request ≡ true
    → can_expire request.status ≡ true
overdue_can_expire now request over = open_can_expire request (&&_left (is_open request) _ over)

module _ (single : Bool) where
  stamp_factor_lem :
      (env : AccessEnv) (id : Text) (method : ResetMethod) (max_attempts : ℕ) (db : AccessDb)
      → (stamp_factor env id method max_attempts db).1.reset_requests ≡ db.reset_requests
  unfolding stamp_factor
  stamp_factor_lem env id method max_attempts db = refl

  claim_approval-Writes :
      (env : AccessEnv) (request : ResetRequest) (ctx : DeviceContext) (db : AccessDb)
      → Writes single db.reset_requests (claim_approval env request ctx db).1.reset_requests
  unfolding claim_approval claim_active link
  claim_approval-Writes env request ctx db =
      if-Writes single (is_active_user (find (user_id request.user_id) db.auth.users))
        db.reset_requests (claim_active env request ctx) _ db
        (λ e.
          after-Writes single _ (create_challenge env request.user_id ctx db) _
            (stay_at single _ _ (create_challenge_lem single env request.user_id ctx db))
            (λ issued u h.
              after-Writes single _
                (stamp_factor env issued.challenge_id admin_approval env.reset_max_attempts u) _
                (stay_at single _ _ (
                  stamp_factor_lem env issued.challenge_id admin_approval env.reset_max_attempts u))
                (λ stamped v k.
                  if-Writes single (not stamped) v.reset_requests _ _ v (λ e. end _)
                    (λ e.
                      after-Writes single _ (link request.id issued.challenge_id v) _
                        (after-Writes single _
                          (raise_if (not (any (request_row request.id) v.reset_requests))
                            missing_row v)
                          _ (end _)
                          (λ a w l. one_write (relink request.id issued.challenge_id refl)))
                        (λ a w l. end _)))))
        (λ e. end _)

  poll_state-Writes :
      (env : AccessEnv) (request : ResetRequest) (ctx : DeviceContext) (status : RequestStatus)
      (db : AccessDb)
      → Writes single db.reset_requests (poll_state env request ctx status db).1.reset_requests
  poll_state-Writes env request ctx pending db = end _
  poll_state-Writes env request ctx denied db = end _
  poll_state-Writes env request ctx expired db = end _
  poll_state-Writes env request ctx approved db =
      if-Writes single (is_some request.completed_at) db.reset_requests (pure (told approved))
        (claim_approval env request ctx) db (λ e. end _)
        (λ e. claim_approval-Writes env request ctx db)

  pub poll-Writes :
      (env : AccessEnv) (others : AccessDb → AccessDb) (presented : Option Text)
      (ctx : DeviceContext) (db : AccessDb)
      → ((d : AccessDb) → Writes single d.reset_requests (others d).reset_requests)
      → Writes single db.reset_requests (poll env others presented ctx db).1.reset_requests
  unfolding poll poll_row
  poll-Writes env others presented ctx db fair =
      elim (Option-cases (load_presented env.auth.crypto presented db.reset_requests)) [
        | inl e ↦ rw e (fair db)
        | inr (request, e) ↦ rw e (
            Writes-trans (fair db) (
              if-Writes single (is_overdue_open env.auth.now request) (others db).reset_requests _
                (poll_state env request ctx request.status) (others db)
                (λ over. one_write (
                  expire_read request.id request.status
                    (overdue_can_expire env.auth.now request over) refl))
                (λ fresh. poll_state-Writes env request ctx request.status (others db))))
      ]

  pub detail-Writes :
      (env : AccessEnv) (others : AccessDb → AccessDb) (id : Text) (db : AccessDb)
      → ((d : AccessDb) → Writes single d.reset_requests (others d).reset_requests)
      → Writes single db.reset_requests (detail env others id db).1.reset_requests
  unfolding detail load_for_admin
  detail-Writes env others id db fair =
      elim (Option-cases (find (request_row id) db.reset_requests)) [
        | inl e ↦ rw e (end _)
        | inr (request, e) ↦ rw e (
            Writes-trans (fair db) (
              if-Writes single (is_overdue_open env.auth.now request) (others db).reset_requests _
                (pure request) (others db)
                (λ over. one_write (
                  expire_read request.id request.status
                    (overdue_can_expire env.auth.now request over) refl))
                (λ fresh. end _)))
      ]
