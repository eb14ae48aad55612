-- ===== src/Access/Requests/Deciding.antt =====
-- The writes of `list` and `decide` of
-- Api/src/modules/password-reset/password-reset-request.service.ts.
use vaultchain_fintech_dashb.Prelude.{
  true, false, ℕ, Bool, not, ◌&&◌, Option, none, some, ◌≡◌, refl, inl, inr, count_where, find,
  find-all_at, ◌==◌, Option-cases, find-eq-any, ◌∷◌, after,
}
use vaultchain_fintech_dashb.Prelude.Text.{Text}
use vaultchain_fintech_dashb.Access.Store.{
  pending, expired, ResetRequest, AccessEnv, AccessDb, request_already_decided, send_alert,
  audit_row, of_row,
}
use vaultchain_fintech_dashb.Access.Requests.Writes.{
  Writes, Writes-trans, end, write, sweep, one_write, HasKeys, is_not_of, expire_read, settled,
}
use vaultchain_fintech_dashb.Access.Requests.{
  request_row, RequestStatus, in_status, same_status, leb, List, Handler,
}
use vaultchain_fintech_dashb.Access.Requests.Decide.{
  load_for_admin, decide_pending, decide_row, list_requests, settle, decide, decision_action,
  detail,
}
use vaultchain_fintech_dashb.Access.Requests.Filing.{guard-Writes, if-Writes}
use vaultchain_fintech_dashb.Access.Requests.Polling.{detail-Writes, found_by_id}
use vaultchain_fintech_dashb.Access.Requests.Held.{Held, Writes-Held}

module _ (single : Bool) where
  pub list_requests-Writes :
      (env : AccessEnv) (status : Option RequestStatus) (db : AccessDb)
      → Writes single db.reset_requests (list_requests env status db).1.reset_requests
  unfolding list_requests
  list_requests-Writes env status db = one_write (sweep env.auth.now none refl)

  alert-Writes :
      {A : Type 0} (works : Bool) (id : ℕ) (s : List ResetRequest) (k : Unit {0} → Handler A)
      (db : AccessDb)
      → Writes single s (k tt (record db { alerts = id ∷ db.alerts })).1.reset_requests
      → Writes single s (k tt db).1.reset_requests
      → Writes single s (after (send_alert works id db) k).1.reset_requests
  alert-Writes true id s k db w v = w
  alert-Writes false id s k db w v = v

  decide_pending-Writes :
      (env : AccessEnv) (later : AccessDb → AccessDb) (actor : ℕ) (request : ResetRequest)
      (approve : Bool) (db : AccessDb)
      → ((d : AccessDb) → Writes single d.reset_requests (later d).reset_requests)
      → Held request.id actor db.reset_requests
      → Writes single db.reset_requests
          (decide_pending env later actor request approve db).1.reset_requests
  unfolding decide_pending settle
  decide_pending-Writes env later actor request approve db fair held =
      let settled_db = (settle env actor request.id approve db).1 in
      let audited =
        (audit_row (some actor) (decision_action approve request.user_id) (some (of_row request.id))
          true none settled_db).1 in
      write (settled env.auth.now actor request.id approve held.1 refl) (
        guard-Writes single (count_where (in_status request.id pending) db.reset_requests == 0)
          request_already_decided _ _ settled_db (end _)
          (λ e.
            alert-Writes env.alerts_work request.user_id _ (λ u. detail env later request.id)
              audited
              (detail-Writes single env later request.id
                (record audited { alerts = request.user_id ∷ audited.alerts }) fair)
              (detail-Writes single env later request.id audited fair)))

  decide_row-Writes :
      (env : AccessEnv) (later : AccessDb → AccessDb) (actor : ℕ) (request : ResetRequest)
      (approve : Bool) (db : AccessDb)
      → ((d : AccessDb) → Writes single d.reset_requests (later d).reset_requests)
      → (request.user_id == actor ≡ false → Held request.id actor db.reset_requests)
      → Writes single db.reset_requests
          (decide_row env later actor request approve db).1.reset_requests
  unfolding decide_row
  decide_row-Writes env later actor request approve db fair held =
      if-Writes single (request.user_id == actor) db.reset_requests _ _ db (λ e. end _)
        (λ theirs.
          if-Writes single
            (same_status request.status pending && leb request.expires_at env.auth.now)
            db.reset_requests _ _ db (λ late. one_write (expire_read request.id pending refl refl))
            (λ e.
              if-Writes single (same_status request.status expired) db.reset_requests _ _ db
                (λ e. end _)
                (λ e.
                  if-Writes single (not (same_status request.status pending)) db.reset_requests _ _
                    db (λ e. end _)
                    (λ e.
                      decide_pending-Writes env later actor request approve db fair
                        (held theirs)))))

  pub decide-Writes :
      (env : AccessEnv) (others later : AccessDb → AccessDb) (actor : ℕ) (id : Text)
      (approve : Bool) (db : AccessDb)
      → ((d : AccessDb) → Writes single d.reset_requests (others d).reset_requests)
      → ((d : AccessDb) → Writes single d.reset_requests (later d).reset_requests)
      → HasKeys db.reset_requests
      → Writes single db.reset_requests
          (decide env others later actor id approve db).1.reset_requests
  unfolding decide load_for_admin
  decide-Writes env others later actor id approve db fair fair_later keys =
      elim (Option-cases (find (request_row id) db.reset_requests)) [
        | inl e ↦ rw e (end _)
        | inr (request, e) ↦
            let found = found_by_id id db.reset_requests request e in
            rw e (
              Writes-trans (fair db) (
                decide_row-Writes env later actor request approve (others db) fair_later (λ theirs.
                  Writes-Held request.id actor (fair db) (
                    find-eq-any (request_row request.id) db.reset_requests found,
                    find-all_at (request_row request.id) (is_not_of actor) db.reset_requests found
                        (rw theirs refl) (keys request.id),
                  ))))
      ]
