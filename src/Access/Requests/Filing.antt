-- ===== src/Access/Requests/Filing.antt =====
-- The writes of `create` of
-- Api/src/modules/password-reset/password-reset-request.service.ts.
use vaultchain_fintech_dashb.Prelude.{
  ℕ, Bool, true, false, not, Option, none, some, List, ◌≡◌, refl, arith, Bool-cases, inl, inr,
  if◌then◌else◌, any, find, Result, ok, err, after, ap, or_raise-state, pure, raise_if, ||_right,
  ◌⊎◌, ◌&&◌,
}
use vaultchain_fintech_dashb.Prelude.Text.{Text}
use vaultchain_fintech_dashb.Access.Store.{
  ResetRequest, AccessEnv, AccessError, AccessDb, Handler, taken_key,
}
use vaultchain_fintech_dashb.Access.Reset.{create_challenge, challenge_input}
use vaultchain_fintech_dashb.Access.Devices.{DeviceContext}
use vaultchain_fintech_dashb.Challenge.Reset.{create}
use vaultchain_fintech_dashb.Access.Requests.Writes.{
  Writes, Writes-trans, end, write, sweep, one_write, insert, rotate,
}
use vaultchain_fintech_dashb.Access.Requests.File.{
  audit_create, decoy_outcome, insert_unless_open, RequestOthers, file_for, insert_request,
  reenter_owner, file_beside, file_new, file_result, is_cooling, is_handle_of, is_refused,
  parse_presented, file_request,
}
use vaultchain_fintech_dashb.Auth.Store.{User}
use vaultchain_fintech_dashb.Access.Requests.{is_pending_of, newest, expire_overdue, request_row}
use vaultchain_fintech_dashb.Auth.Login.{by_email}

-- What is written between the check and the insert gives no user without a pending request one.
abbrev pub KeepsRoom : (AccessDb → AccessDb) → Type 0
KeepsRoom f =
    (d : AccessDb) (user : ℕ)
    → any (is_pending_of user) d.reset_requests ≡ false
    → any (is_pending_of user) (f d).reset_requests ≡ false

-- The partial index is there, or no other request of the user is filed between the check and the
-- insert.
abbrev pub IsSerial : AccessEnv → RequestOthers → Type 0
IsSerial env others = (env.pending_index ≡ true) ⊎ KeepsRoom others.before_insert

has_room :
    (env : AccessEnv) (others : RequestOthers) (user : ℕ) (db : AccessDb)
    → IsSerial env others
    → any (is_pending_of user) db.reset_requests ≡ false
    → is_refused env user (others.before_insert db).reset_requests ≡ false
    → any (is_pending_of user) (others.before_insert db).reset_requests ≡ false
has_room env others user db (inl indexed) unfiled room =
    let rows = (others.before_insert db).reset_requests in
    rw indexed at (
      ||_right (any (request_row env.request_id) rows)
        (env.pending_index && any (is_pending_of user) rows) room)
has_room env others user db (inr keeps) unfiled room = keeps db user unfiled

module _ (single : Bool) where
  -- A chain writes what its first step and the rest write.
  pub after-Writes :
      {A B : Type 0} (s : List ResetRequest) (r : Result AccessError A × AccessDb)
      (f : A → Handler B)
      → Writes single s r.1.reset_requests
      → ((a : A) (u : AccessDb)
          → r ≡ (ok a, u)
          → Writes single u.reset_requests (f a u).1.reset_requests)
      → Writes single s (after r f).1.reset_requests
  after-Writes s (ok a, u) f w k = Writes-trans w (k a u refl)
  after-Writes s (err e, u) f w k = w

  pub if-Writes :
      {A : Type 0} (b : Bool) (s : List ResetRequest) (m k : Handler A) (db : AccessDb)
      → (b ≡ true → Writes single s (m db).1.reset_requests)
      → (b ≡ false → Writes single s (k db).1.reset_requests)
      → Writes single s ((if b then m else k) db).1.reset_requests
  if-Writes true s m k db w v = w refl
  if-Writes false s m k db w v = v refl

  pub guard-Writes :
      {A : Type 0} (b : Bool) (e : AccessError) (s : List ResetRequest) (k : Unit {0} → Handler A)
      (db : AccessDb)
      → Writes single s db.reset_requests
      → (b ≡ false → Writes single s (k tt db).1.reset_requests)
      → Writes single s (after (raise_if b e db) k).1.reset_requests
  guard-Writes true e s k db w v = w
  guard-Writes false e s k db w v = v refl

  pub create_challenge_lem :
      (env : AccessEnv) (user : ℕ) (ctx : DeviceContext) (db : AccessDb)
      → (create_challenge env user ctx db).1.reset_requests ≡ db.reset_requests
  unfolding create_challenge
  create_challenge_lem env user ctx db =
      ap (λ (s : AccessDb). s.reset_requests)
        (or_raise-state
          (create env.auth.crypto env.auth.now env.reset_id env.reset_secret
            (challenge_input env user ctx) db.reset_challenges).0
          taken_key _)

  pub stay_at : (s t : List ResetRequest) → t ≡ s → Writes single s t
  stay_at s t e = rw e (end s)

  insert_unless_open-Writes :
      (env : AccessEnv) (others : RequestOthers) (user : ℕ) (ctx : DeviceContext) (db : AccessDb)
      → (single ≡ true → IsSerial env others)
      → ((d : AccessDb) → Writes single d.reset_requests (others.before_insert d).reset_requests)
      → Writes single db.reset_requests (insert_unless_open env others user ctx db).1.reset_requests
  unfolding insert_unless_open insert_request
  insert_unless_open-Writes env others user ctx db serial fair =
      if-Writes (any (is_pending_of user) db.reset_requests) db.reset_requests (pure false)
        (insert_request env others user ctx) db (λ e. end _)
        (λ unfiled.
          elim (Bool-cases (is_refused env user (others.before_insert db).reset_requests)) [
            | inl no_room ↦ rw no_room (fair db)
            | inr room ↦ rw room (
                Writes-trans (fair db) (
                  one_write (
                    insert env user ctx
                      (λ one. has_room env others user db (serial one) unfiled room) room refl)))
          ])

  file_result-Writes :
      (env : AccessEnv) (email : Text) (user : User) (ctx : DeviceContext) (won : Bool)
      (db : AccessDb)
      → (file_result env email user ctx won db).1.reset_requests ≡ db.reset_requests
  unfolding audit_create
  file_result-Writes env email user ctx false db = refl
  file_result-Writes env email user ctx true db = ground arith

  file_new-Writes :
      (env : AccessEnv) (others : RequestOthers) (email : Text) (user : User) (ctx : DeviceContext)
      (db : AccessDb)
      → (single ≡ true → IsSerial env others)
      → ((d : AccessDb)
          → Writes single d.reset_requests (others.before_transaction d).reset_requests)
      → ((d : AccessDb) → Writes single d.reset_requests (others.before_insert d).reset_requests)
      → Writes single db.reset_requests (file_new env others email user ctx db).1.reset_requests
  unfolding decoy_outcome audit_create
  file_new-Writes env others email user ctx db same before inside =
      if-Writes (is_cooling env user.id db.reset_requests) db.reset_requests
        (decoy_outcome env email (some user.id) ctx) _ db (λ e. end _)
        (λ e. Writes-trans (before db) (
          after-Writes _ (insert_unless_open env others user.id ctx (others.before_transaction db))
            (file_result env email user ctx)
            (insert_unless_open-Writes env others user.id ctx (others.before_transaction db) same
              inside)
            (λ won u h. stay_at _ _ (file_result-Writes env email user ctx won u))))

  file_beside-Writes :
      (env : AccessEnv) (others : RequestOthers) (email : Text) (presented : Option Text)
      (user : User) (ctx : DeviceContext) (request : Option ResetRequest) (db : AccessDb)
      → (single ≡ true → IsSerial env others)
      → ((d : AccessDb)
          → Writes single d.reset_requests (others.before_transaction d).reset_requests)
      → ((d : AccessDb) → Writes single d.reset_requests (others.before_insert d).reset_requests)
      → Writes single db.reset_requests
          (file_beside env others email presented user ctx request db).1.reset_requests
  unfolding decoy_outcome audit_create reenter_owner
  file_beside-Writes env others email presented user ctx none db same before inside =
      file_new-Writes env others email user ctx db same before inside
  file_beside-Writes env others email presented user ctx (some request) db same before inside =
      if-Writes (is_handle_of env.auth.crypto request (parse_presented presented)) db.reset_requests
        (reenter_owner env email user request ctx) (decoy_outcome env email (some user.id) ctx) db
        (λ e. one_write (rotate request.id (env.auth.crypto.hash env.request_secret) refl))
        (λ e. end _)

  file_for-Writes :
      (env : AccessEnv) (others : RequestOthers) (email : Text) (presented : Option Text)
      (ctx : DeviceContext) (user : Option User) (db : AccessDb)
      → (single ≡ true → IsSerial env others)
      → ((d : AccessDb)
          → Writes single d.reset_requests (others.before_transaction d).reset_requests)
      → ((d : AccessDb) → Writes single d.reset_requests (others.before_insert d).reset_requests)
      → Writes single db.reset_requests
          (file_for env others email presented ctx user db).1.reset_requests
  unfolding decoy_outcome audit_create file_for
  file_for-Writes env others email presented ctx none db same before inside = end _
  file_for-Writes env others email presented ctx (some user) db same before inside =
      if-Writes (not user.is_active) db.reset_requests (decoy_outcome env email (some user.id) ctx)
        _ db (λ e. end _)
        (λ e. write (sweep env.auth.now (some user.id) refl) (
          file_beside-Writes env others email presented user ctx
            (newest (is_pending_of user.id)
              (expire_overdue env.auth.now (some user.id) db.reset_requests))
            (record db {
              reset_requests = expire_overdue env.auth.now (some user.id) db.reset_requests;
            })
            same before inside))

  pub file_request-Writes :
      (env : AccessEnv) (others : RequestOthers) (email : Text) (presented : Option Text)
      (ctx : DeviceContext) (db : AccessDb)
      → (single ≡ true → IsSerial env others)
      → ((d : AccessDb)
          → Writes single d.reset_requests (others.before_transaction d).reset_requests)
      → ((d : AccessDb) → Writes single d.reset_requests (others.before_insert d).reset_requests)
      → Writes single db.reset_requests
          (file_request env others email presented ctx db).1.reset_requests
  unfolding file_request
  file_request-Writes env others email presented ctx db same before inside =
      file_for-Writes env others email presented ctx (find (by_email email) db.auth.users) db same
        before inside
