-- ===== src/Access/Requests/Writes.antt =====
-- The writes that Api/src/modules/password-reset makes to the table of requests, each with the
-- condition that the code has when it makes it.
use vaultchain_fintech_dashb.Prelude.{
  ℕ, Bool, true, false, not, ◌&&◌, Option, some, List, ◌∷◌, ◌≡◌, refl, arith, Bool-cases, inl, inr,
  update_where, any, all_at, count_where, ◌<◌, count_where-update_where, count_where-none, ◌==◌,
  ||_left,
}
use vaultchain_fintech_dashb.Prelude.Text.{Text, text_eq, text_eq_iff}
use vaultchain_fintech_dashb.Access.Store.{
  pending, approved, denied, expired, ResetRequest, AccessEnv,
}
use vaultchain_fintech_dashb.Access.Requests.{
  expire_overdue, RequestStatus, expire_in, request_row, expire_row, is_of, is_overdue_open,
  in_status, is_pending_of,
}
use vaultchain_fintech_dashb.Access.Requests.File.{rotate_secret, is_refused, new_request}
use vaultchain_fintech_dashb.Access.Reset.Complete.{complete_request, is_uncompleted}
use vaultchain_fintech_dashb.Access.Devices.{DeviceContext}
use vaultchain_fintech_dashb.Access.Requests.Poll.{link_challenge}
use vaultchain_fintech_dashb.Access.Requests.Decide.{decided}

-- A row whose user is somebody else.
abbrev pub is_not_of : ℕ → ResetRequest → Bool
is_not_of actor r = not (r.user_id == actor)

-- A state in which a row can be open.
abbrev pub can_expire : RequestStatus → Bool
can_expire pending = true
can_expire approved = true
can_expire denied = false
can_expire expired = false

-- One write, from the table `s` to the table `t`; with `single`, a request is inserted only where its
-- user has no pending one.
pub data Write (single : Bool) (s t : List ResetRequest) : Type 0 where
  sweep : (now : ℕ) (user : Option ℕ) → t ≡ expire_overdue now user s → Write single s t
  expire_read :
      (id : Text) (status : RequestStatus)
      → can_expire status ≡ true
      → t ≡ expire_in id status s
      → Write single s t
  rotate :
      (id hash : Text) → t ≡ update_where (request_row id) (rotate_secret hash) s → Write single s t
  insert :
      (env : AccessEnv) (user : ℕ) (ctx : DeviceContext)
      → (single ≡ true → any (is_pending_of user) s ≡ false)
      → is_refused env user s ≡ false
      → t ≡ new_request env user ctx ∷ s
      → Write single s t
  relink :
      (id challenge : Text)
      → t ≡ update_where (request_row id) (link_challenge challenge) s
      → Write single s t
  settled :
      (now actor : ℕ) (id : Text) (approve : Bool)
      → all_at (request_row id) (is_not_of actor) s ≡ true
      → t ≡ update_where (in_status id pending) (decided now actor approve) s
      → Write single s t
  completed : (now : ℕ) (id : Text) → t ≡ complete_request now id s → Write single s t

pub data Writes (single : Bool) : List ResetRequest → List ResetRequest → Type 0 where
  end : (s : List ResetRequest) → Writes single s s
  write : {s t u : List ResetRequest} → Write single s t → Writes single t u → Writes single s u

pub Writes-trans :
    {single : Bool} {s t u : List ResetRequest}
    → Writes single s t
    → Writes single t u
    → Writes single s u
Writes-trans (end s) k = k
Writes-trans (write w h) k = write w (Writes-trans h k)

pub one_write : {single : Bool} {s t : List ResetRequest} → Write single s t → Writes single s t
one_write {t = t} w = write w (end t)

-- No two requests share an id.
abbrev pub HasKeys : List ResetRequest → Type 0
HasKeys rows = (id : Text) → count_where (request_row id) rows < 2

insert-HasKeys :
    (r : ResetRequest) (rows : List ResetRequest)
    → any (request_row r.id) rows ≡ false
    → HasKeys rows
    → HasKeys (r ∷ rows)
insert-HasKeys r rows fresh keys id = elim (Bool-cases (text_eq r.id id)) [
  | inl e ↦
      let same = text_eq_iff r.id id e in
      let zero = count_where-none (request_row id) rows (rw same at fresh) in
      ground (arith, e, zero)
  | inr e ↦ rw e (keys id)
]

Write-HasKeys : {single : Bool} {s t : List ResetRequest} → Write single s t → HasKeys s → HasKeys t
unfolding expire_overdue expire_in complete_request
Write-HasKeys {s = s} (sweep now user e) keys id =
    rw
      (
        e,
        count_where-update_where (request_row id) (λ r. is_of user r && is_overdue_open now r)
            expire_row s (λ r. refl),
      )
      (keys id)
Write-HasKeys {s = s} (expire_read id status h e) keys k =
    rw (e, count_where-update_where (request_row k) (in_status id status) expire_row s (λ r. refl))
      (keys k)
Write-HasKeys {s = s} (rotate id hash e) keys k =
    rw
      (
        e,
        count_where-update_where (request_row k) (request_row id) (rotate_secret hash) s
            (λ r. refl),
      )
      (keys k)
Write-HasKeys {s = s} (insert env user ctx i h e) keys k =
    rw e (insert-HasKeys (new_request env user ctx) s (||_left _ _ h) keys k)
Write-HasKeys {s = s} (relink id challenge e) keys k =
    rw
      (
        e,
        count_where-update_where (request_row k) (request_row id) (link_challenge challenge) s
            (λ r. refl),
      )
      (keys k)
Write-HasKeys {s = s} (settled now actor id approve h e) keys k =
    rw
      (
        e,
        count_where-update_where (request_row k) (in_status id pending) (decided now actor approve)
            s (λ r. refl),
      )
      (keys k)
Write-HasKeys {s = s} (completed now id e) keys k =
    rw
      (
        e,
        count_where-update_where (request_row k) (is_uncompleted id)
            (λ r. record r { completed_at = some now }) s (λ r. refl),
      )
      (keys k)

pub Writes-HasKeys :
    {single : Bool} {s t : List ResetRequest} → Writes single s t → HasKeys s → HasKeys t
Writes-HasKeys (end s) keys = keys
Writes-HasKeys (write w h) keys = Writes-HasKeys h (Write-HasKeys w keys)
