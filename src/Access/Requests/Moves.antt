-- ===== src/Access/Requests/Moves.antt =====
-- The writes of the table of requests move each request along the abstract machine.
use vaultchain_fintech_dashb.Prelude.{
  ℕ, Bool, true, false, ◌&&◌, ◌||◌, Option, none, some, List, [], ◌∷◌, ◌≡◌, refl, is_none, all,
  &&_left, &&_right,
}
use vaultchain_fintech_dashb.Prelude.Text.{text_eq}
use vaultchain_fintech_dashb.Access.Store.{pending, approved, denied, expired, ResetRequest}
use vaultchain_fintech_dashb.Access.Requests.{
  expire_overdue, RequestStatus, expire_in, is_open, request_row, expire_row, is_of,
  is_overdue_open, same_status, in_status,
}
use vaultchain_fintech_dashb.Access.Requests.File.{rotate_secret}
use vaultchain_fintech_dashb.Access.Reset.Complete.{complete_request, is_uncompleted}
use vaultchain_fintech_dashb.Access.Requests.Machine.{
  Becomes, Reaches, stage_at, lapsed, move, lapse_waiting, stay, lapse_granted, Evolves, stage_of,
  waiting, Evolves-refl, finish, grant, update_where-Evolves, Evolves-trans, done, filed, granted,
  refuse, refused, lapse_done,
}
use vaultchain_fintech_dashb.Access.Requests.Poll.{link_challenge}
use vaultchain_fintech_dashb.Access.Requests.Decide.{decided, decision_of}
use vaultchain_fintech_dashb.Access.Requests.Writes.{
  Write, Writes, end, write, sweep, expire_read, rotate, insert, relink, settled, completed,
  can_expire,
}

-- The moves of the rows that a write hits.
expire-Becomes : (r : ResetRequest) → can_expire r.status ≡ true → Becomes r (expire_row r)
expire-Becomes r h = record {
  same_id = refl;
  same_user = refl;
  reaches = to_lapsed r.status r.completed_at h;
}
  where
    to_lapsed :
        (s : RequestStatus) (c : Option ℕ) → can_expire s ≡ true → Reaches (stage_at s c) lapsed
    to_lapsed pending c e = move lapse_waiting (stay lapsed)
    to_lapsed approved none e = move lapse_granted (stay lapsed)
    to_lapsed approved (some at) e = move lapse_done (stay lapsed)
    to_lapsed denied c e = cc
    to_lapsed expired c e = cc

pub open_can_expire : (r : ResetRequest) → is_open r ≡ true → can_expire r.status ≡ true
open_can_expire r h = by_status r.status r.completed_at h
  where
    by_status :
        (s : RequestStatus) (c : Option ℕ)
        → same_status s pending || (same_status s approved && is_none c) ≡ true
        → can_expire s ≡ true
    by_status pending c e = refl
    by_status approved c e = refl
    by_status denied c e = cc
    by_status expired c e = cc

same_can_expire :
    (s status : RequestStatus)
    → can_expire status ≡ true
    → same_status s status ≡ true
    → can_expire s ≡ true
same_can_expire pending status h e = refl
same_can_expire approved status h e = refl
same_can_expire denied pending h e = cc
same_can_expire denied approved h e = cc
same_can_expire denied denied h e = h
same_can_expire denied expired h e = h
same_can_expire expired pending h e = cc
same_can_expire expired approved h e = cc
same_can_expire expired denied h e = h
same_can_expire expired expired h e = h

settle-Becomes :
    (now actor : ℕ) (approve : Bool) (r : ResetRequest)
    → same_status r.status pending ≡ true
    → Becomes r (decided now actor approve r)
settle-Becomes now actor approve r h = record {
  same_id = refl;
  same_user = refl;
  reaches = to_decided r.status r.completed_at approve h;
}
  where
    to_decided :
        (s : RequestStatus) (c : Option ℕ) (approve : Bool)
        → same_status s pending ≡ true
        → Reaches (stage_at s c) (stage_at (decision_of approve) c)
    to_decided pending none true e = move grant (stay granted)
    to_decided pending (some at) true e = move grant (move finish (stay done))
    to_decided pending c false e = move refuse (stay refused)
    to_decided approved c approve e = cc
    to_decided denied c approve e = cc
    to_decided expired c approve e = cc

complete-Becomes :
    (now : ℕ) (r : ResetRequest)
    → is_none r.completed_at ≡ true
    → Becomes r (record r { completed_at = some now })
complete-Becomes now r h = record {
  same_id = refl;
  same_user = refl;
  reaches = to_done r.status r.completed_at h;
}
  where
    to_done :
        (s : RequestStatus) (c : Option ℕ)
        → is_none c ≡ true
        → Reaches (stage_at s c) (stage_at s (some now))
    to_done pending c e = stay waiting
    to_done approved none e = move finish (stay done)
    to_done approved (some at) e = cc
    to_done denied c e = stay refused
    to_done expired c e = stay lapsed

same-Becomes :
    (r s : ResetRequest)
    → r.id ≡ s.id
    → r.user_id ≡ s.user_id
    → stage_of r ≡ stage_of s
    → Becomes r s
same-Becomes r s a b c = record { same_id = a; same_user = b; reaches = rw c (stay (stage_of s)) }

any_row : ResetRequest → Bool
any_row r = true

all-any_row : (rows : List ResetRequest) → all any_row rows ≡ true
unfolding any_row
all-any_row [] = refl
all-any_row (r ∷ rs) = all-any_row rs

Write-Evolves : {single : Bool} {s t : List ResetRequest} → Write single s t → Evolves s t
unfolding expire_overdue expire_in complete_request
Write-Evolves {s = s} (sweep now user e) = rw e (
    update_where-Evolves any_row (λ r. is_of user r && is_overdue_open now r) expire_row s
      (λ r h hit.
        expire-Becomes r (open_can_expire r (&&_left _ _ (&&_right (is_of user r) _ hit))))
      (all-any_row s))
Write-Evolves {s = s} (expire_read id status h e) = rw e (
    update_where-Evolves any_row (in_status id status) expire_row s
      (λ r has hit.
        expire-Becomes r (same_can_expire r.status status h (&&_right (request_row id r) _ hit)))
      (all-any_row s))
Write-Evolves {s = s} (rotate id hash e) = rw e (
    update_where-Evolves any_row (request_row id) (rotate_secret hash) s
      (λ r h hit. same-Becomes r (rotate_secret hash r) refl refl refl) (all-any_row s))
Write-Evolves {s = s} (insert env user ctx i h e) = rw e (filed (stay waiting) (Evolves-refl s))
Write-Evolves {s = s} (relink id challenge e) = rw e (
    update_where-Evolves any_row (request_row id) (link_challenge challenge) s
      (λ r h hit. same-Becomes r (link_challenge challenge r) refl refl refl) (all-any_row s))
Write-Evolves {s = s} (settled now actor id approve h e) = rw e (
    update_where-Evolves any_row (in_status id pending) (decided now actor approve) s
      (λ r h hit. settle-Becomes now actor approve r (&&_right (request_row id r) _ hit))
      (all-any_row s))
Write-Evolves {s = s} (completed now id e) = rw e (
    update_where-Evolves any_row (is_uncompleted id) (λ r. record r { completed_at = some now }) s
      (λ r h hit. complete-Becomes now r (&&_right (text_eq r.id id) _ hit)) (all-any_row s))

pub Writes-Evolves : {single : Bool} {s t : List ResetRequest} → Writes single s t → Evolves s t
Writes-Evolves (end s) = Evolves-refl s
Writes-Evolves (write w h) = Evolves-trans (Write-Evolves w) (Writes-Evolves h)
