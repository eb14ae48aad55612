-- ===== src/Access/Requests/FourEyes.antt =====
-- An approval of a request is always somebody else's than its owner's:
-- Api/src/modules/password-reset/password-reset-request.service.ts.
use vaultchain_fintech_dashb.Prelude.{
  ℕ, Bool, true, false, not, ◌&&◌, ◌||◌, Option, none, some, List, ◌≡◌, refl, arith, Bool-cases,
  inl, inr, is_none, is_some, all, find, find-all, ok, all-update_where, &&_left, ◌∙◌, ◌==◌, Result,
  ok-injective, leb, all-update_where_at, ap,
}
use vaultchain_fintech_dashb.Prelude.Text.{Text}
use vaultchain_fintech_dashb.Auth.Store.{user_id}
use vaultchain_fintech_dashb.Access.Store.{
  pending, approved, denied, expired, AccessEnv, ResetRequest, AccessDb, AccessError,
}
use vaultchain_fintech_dashb.Access.Requests.{
  expire_overdue, expire_in, expire_row, same_status, request_row, in_status, RequestStatus,
  is_overdue_open, is_open,
}
use vaultchain_fintech_dashb.Access.Requests.Poll.{
  poll_row, PollResult, is_active_user, link_challenge, claim_approval, poll, poll_state, told,
  load_presented,
}
use vaultchain_fintech_dashb.Access.Requests.Writes.{
  Writes, end, Write, write, sweep, expire_read, rotate, insert, relink, settled, is_not_of,
  completed, HasKeys,
}
use vaultchain_fintech_dashb.Access.Devices.{DeviceContext}
use vaultchain_fintech_dashb.Access.Reset.Complete.{complete_request}
use vaultchain_fintech_dashb.Access.Requests.File.{rotate_secret}
use vaultchain_fintech_dashb.Access.Requests.Decide.{decided}
use vaultchain_fintech_dashb.Access.Requests.Lifecycle.{Call, AreFair, run, run-Writes}
use vaultchain_fintech_dashb.Access.Requests.Polling.{load_presented-find}

abbrev by_other : Option ℕ → ℕ → Bool
by_other none user = false
by_other (some actor) user = not (user == actor)

-- A request that is approved was decided by somebody other than its owner.
abbrev pub is_witnessed : ResetRequest → Bool
is_witnessed r = not (same_status r.status approved) || by_other r.decided_by r.user_id

expire_witnessed : (r : ResetRequest) → is_witnessed (expire_row r) ≡ true
expire_witnessed r = refl

decided_witnessed :
    (now actor : ℕ) (id : Text) (approve : Bool) (r : ResetRequest)
    → not (request_row id r) || is_not_of actor r ≡ true
    → in_status id pending r ≡ true
    → is_witnessed (decided now actor approve r) ≡ true
decided_witnessed now actor id approve r other hit =
    let here = &&_left (request_row id r) (same_status r.status pending) hit in
    let theirs : not (r.user_id == actor) ≡ true = rw here at other in
    elim (Bool-cases approve) [ inl e ↦ rw e theirs | inr e ↦ rw e refl ]

Write-witnessed :
    {single : Bool} {s t : List ResetRequest}
    → Write single s t
    → all is_witnessed s ≡ true
    → all is_witnessed t ≡ true
unfolding expire_overdue expire_in complete_request
Write-witnessed {s = s} (sweep now user e) h =
    rw e (all-update_where is_witnessed _ expire_row s (λ r k hit. refl) h)
Write-witnessed {s = s} (expire_read id status open_rows e) h =
    rw e (all-update_where is_witnessed _ expire_row s (λ r k hit. refl) h)
Write-witnessed {s = s} (rotate id hash e) h =
    rw e (all-update_where is_witnessed _ (rotate_secret hash) s (λ r k hit. k) h)
Write-witnessed {s = s} (insert env user ctx i room e) h = rw e h
Write-witnessed {s = s} (relink id challenge e) h =
    rw e (all-update_where is_witnessed _ (link_challenge challenge) s (λ r k hit. k) h)
Write-witnessed {s = s} (settled now actor id approve theirs e) h = rw e (
    all-update_where_at is_witnessed (λ r. not (request_row id r) || is_not_of actor r)
      (in_status id pending) (decided now actor approve) s
      (λ r other hit. decided_witnessed now actor id approve r other hit) theirs h)
Write-witnessed {s = s} (completed now id e) h =
    rw e (
      all-update_where is_witnessed _ (λ r. record r { completed_at = some now }) s (λ r k hit. k)
        h)

pub Writes-witnessed :
    {single : Bool} {s t : List ResetRequest}
    → Writes single s t
    → all is_witnessed s ≡ true
    → all is_witnessed t ≡ true
Writes-witnessed (end s) h = h
Writes-witnessed (write w k) h = Writes-witnessed k (Write-witnessed w h)

-- What an owner needs to be handed a challenge.
abbrev pub may_claim : AccessEnv → AccessDb → ResetRequest → Bool
may_claim env db r =
    same_status r.status approved
    && (is_none r.completed_at
        && (not (leb r.expires_at env.auth.now)
            && (by_other r.decided_by r.user_id
                && is_active_user (find (user_id r.user_id) db.auth.users))))

-- An answer that only tells a state has no token.
told-absurd :
    (status : RequestStatus) {db : AccessDb} {result : PollResult} {t : AccessDb} {token : Text}
    → ◌≡◌ {A = Result AccessError PollResult × AccessDb} (ok (told status), db) (ok result, t)
    → result.challenge_token ≡ some token
    → ⊥
told-absurd status h k =
    let same = ok-injective (ap (λ (p : Result AccessError PollResult × AccessDb). p.0) h) in
    let none_some = ap (λ (q : PollResult). q.challenge_token) same ∙ k in cc none_some

claim_state :
    (env : AccessEnv) (r : ResetRequest) (ctx : DeviceContext) (status : RequestStatus)
    (db : AccessDb) {result : PollResult} {t : AccessDb} {token : Text}
    → poll_state env r ctx status db ≡ (ok result, t)
    → result.challenge_token ≡ some token
    → (same_status status approved ≡ true)
      × (is_none r.completed_at ≡ true)
      × (is_active_user (find (user_id r.user_id) db.auth.users) ≡ true)
unfolding claim_approval
claim_state env r ctx pending db h k = absurd (told-absurd pending h k)
claim_state env r ctx denied db h k = absurd (told-absurd denied h k)
claim_state env r ctx expired db h k = absurd (told-absurd expired h k)
claim_state env r ctx approved db h k = elim (Bool-cases (is_some r.completed_at)) [
  | inl e ↦ absurd (told-absurd approved (rw e at h) k)
  | inr e ↦ elim (Bool-cases (is_active_user (find (user_id r.user_id) db.auth.users))) [
    | inl active ↦ (refl, ground arith, active)
    | inr idle ↦ absurd (told-absurd pending (rw (e, idle) at h) k)
  ]
]

claim_row :
    (env : AccessEnv) (ctx : DeviceContext) (o : Option ResetRequest) (db : AccessDb)
    {result : PollResult} {t : AccessDb} {token : Text}
    → poll_row env ctx o db ≡ (ok result, t)
    → result.challenge_token ≡ some token
    → (r : ResetRequest) × (o ≡ some r)
      × (leb r.expires_at env.auth.now ≡ false)
      × (same_status r.status approved ≡ true)
      × (is_none r.completed_at ≡ true)
      × (is_active_user (find (user_id r.user_id) db.auth.users) ≡ true)
unfolding poll_row
claim_row env ctx none db h k = absurd (told-absurd pending h k)
claim_row env ctx (some r) db h k = elim (Bool-cases (is_overdue_open env.auth.now r)) [
  | inl e ↦ absurd (told-absurd expired (rw e at h) k)
  | inr e ↦
      let (a, b, c) = claim_state env r ctx r.status db (rw e at h) k in
      let live : is_open r ≡ true = ground (arith, a, b) in (r, refl, rw live at e, a, b, c)
]

-- After any sequence of calls, a poll that returns the token of a challenge has loaded by its own
-- token a request that is approved, not completed, not expired and decided by somebody other than
-- its owner, who is still active after what others did since that load; if at the start no two
-- requests shared an id and every approved one was decided by another than its owner, and what others
-- write during those calls is written by the same calls.
pub claim_needs_other :
    (single : Bool) (calls : List Call) (start : AccessDb) (env : AccessEnv)
    (others : AccessDb → AccessDb) (presented : Option Text) (ctx : DeviceContext)
    {result : PollResult} {t : AccessDb} {token : Text}
    → HasKeys start.reset_requests
    → all is_witnessed start.reset_requests ≡ true
    → AreFair single calls
    → poll env others presented ctx (run calls start) ≡ (ok result, t)
    → result.challenge_token ≡ some token
    → (r : ResetRequest) × (load_presented env.auth.crypto presented
          (run calls start).reset_requests
        ≡ some r)
      × (may_claim env (others (run calls start)) r ≡ true)
unfolding poll
claim_needs_other single calls start env others presented ctx keys witnessed fair h k =
    let db = run calls start in
    let kept = Writes-witnessed (run-Writes single calls start keys fair) witnessed in
    let (r, loaded, fresh, granted, open_yet, active) =
      claim_row env ctx (load_presented env.auth.crypto presented db.reset_requests) (others db) h
        k in
    let has =
      find-all is_witnessed (request_row r.id) db.reset_requests kept
        (load_presented-find env.auth.crypto presented db.reset_requests r loaded) in
    let other : by_other r.decided_by r.user_id ≡ true = rw granted at has in
    (r, loaded, rw (granted, open_yet, fresh, other, active) refl)
