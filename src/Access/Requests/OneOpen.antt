-- ===== src/Access/Requests/OneOpen.antt =====
-- One pending request of a user at most, where the creates do not overlap between their check and
-- their insert:
-- Api/src/modules/password-reset/password-reset-request.service.ts.
use vaultchain_fintech_dashb.Prelude.{
  ℕ, Bool, true, false, some, List, ◌∷◌, ◌≡◌, arith, Bool-cases, inl, inr, update_where, any,
  count_where, ◌<◌, ◌==◌, update_where-fewer, count_where-none, ==_iff,
}
use vaultchain_fintech_dashb.Access.Store.{ResetRequest, AccessDb}
use vaultchain_fintech_dashb.Access.Requests.{expire_overdue, expire_in, is_pending_of, expire_row}
use vaultchain_fintech_dashb.Access.Requests.Lifecycle.{Call, AreFair, run, run-Writes}
use vaultchain_fintech_dashb.Access.Requests.Writes.{
  Writes, HasKeys, end, Write, write, sweep, expire_read, rotate, insert, relink, settled,
  completed,
}
use vaultchain_fintech_dashb.Access.Reset.Complete.{complete_request}
use vaultchain_fintech_dashb.Access.Requests.File.{rotate_secret, new_request}
use vaultchain_fintech_dashb.Access.Requests.Poll.{link_challenge}
use vaultchain_fintech_dashb.Access.Requests.Decide.{decided}

-- No user has two pending requests.
abbrev pub HasOneOpen : List ResetRequest → Type 0
HasOneOpen rows = (user : ℕ) → count_where (is_pending_of user) rows < 2

update_where-OneOpen :
    (p : ResetRequest → Bool) (f : ResetRequest → ResetRequest) (rows : List ResetRequest)
    (user : ℕ)
    → ((r : ResetRequest)
        → p r ≡ true
        → is_pending_of user (f r) ≡ true
        → is_pending_of user r ≡ true)
    → count_where (is_pending_of user) rows < 2
    → count_where (is_pending_of user) (update_where p f rows) < 2
update_where-OneOpen p f rows user out few =
    let fewer = update_where-fewer (is_pending_of user) p f rows out in omega arith

insert-OneOpen :
    (r : ResetRequest) (rows : List ResetRequest) (user : ℕ)
    → any (is_pending_of r.user_id) rows ≡ false
    → count_where (is_pending_of user) rows < 2
    → count_where (is_pending_of user) (r ∷ rows) < 2
insert-OneOpen r rows user room few = elim (Bool-cases (r.user_id == user)) [
  | inl e ↦
      let same = (==_iff r.user_id user).0 e in
      let zero = count_where-none (is_pending_of user) rows (rw same at room) in
      ground (arith, zero)
  | inr e ↦ rw e few
]

Write-OneOpen : {s t : List ResetRequest} → Write true s t → HasOneOpen s → HasOneOpen t
unfolding expire_overdue expire_in complete_request
Write-OneOpen {s = s} (sweep now user e) h k =
    rw e (update_where-OneOpen _ expire_row s k (λ r hit late. ground arith) (h k))
Write-OneOpen {s = s} (expire_read id status open_rows e) h k =
    rw e (update_where-OneOpen _ expire_row s k (λ r hit late. ground arith) (h k))
Write-OneOpen {s = s} (rotate id hash e) h k =
    rw e (update_where-OneOpen _ (rotate_secret hash) s k (λ r hit late. late) (h k))
Write-OneOpen {s = s} (insert env user ctx i room e) h k =
    let here : true ≡ true = λ j. true in
    rw e (insert-OneOpen (new_request env user ctx) s k (i here) (h k))
Write-OneOpen {s = s} (relink id challenge e) h k =
    rw e (update_where-OneOpen _ (link_challenge challenge) s k (λ r hit late. late) (h k))
Write-OneOpen {s = s} (settled now actor id approve theirs e) h k =
    rw e (update_where-OneOpen _ (decided now actor approve) s k (λ r hit late. ground arith) (h k))
Write-OneOpen {s = s} (completed now id e) h k = rw e (
    update_where-OneOpen _ (λ r. record r { completed_at = some now }) s k (λ r hit late. late)
      (h k))

Writes-OneOpen : {s t : List ResetRequest} → Writes true s t → HasOneOpen s → HasOneOpen t
Writes-OneOpen (end s) h = h
Writes-OneOpen (write w k) h = Writes-OneOpen k (Write-OneOpen w h)

-- The check inside the transaction keeps one pending request at most of each user, with and without
-- the partial unique index: after any sequence of calls no user has two, if none had two before, no
-- two requests shared an id, what others write meanwhile is written by the same calls, and, for each
-- create, the index is there or nothing that is written between its check and its insert gives a
-- pending request to a user without one.
pub run-HasOneOpen :
    (calls : List Call) (db : AccessDb)
    → HasKeys db.reset_requests
    → AreFair true calls
    → HasOneOpen db.reset_requests
    → HasOneOpen (run calls db).reset_requests
run-HasOneOpen calls db keys fair one = Writes-OneOpen (run-Writes true calls db keys fair) one
