-- ===== src/Access/Requests/Held.antt =====
-- The writes of the table of requests leave each request to its user.
use vaultchain_fintech_dashb.Prelude.{
  ℕ, Bool, true, false, not, ◌||◌, some, List, ◌∷◌, ◌≡◌, refl, Bool-cases, inl, inr, update_where,
  any, all_at, any-update_where, all-update_where, ◌∙◌, ||_left,
}
use vaultchain_fintech_dashb.Prelude.Text.{Text, text_eq, text_eq_iff}
use vaultchain_fintech_dashb.Access.Store.{ResetRequest}
use vaultchain_fintech_dashb.Access.Requests.{expire_overdue, expire_in, request_row, expire_row}
use vaultchain_fintech_dashb.Access.Requests.File.{rotate_secret, new_request}
use vaultchain_fintech_dashb.Access.Reset.Complete.{complete_request}
use vaultchain_fintech_dashb.Access.Requests.Poll.{link_challenge}
use vaultchain_fintech_dashb.Access.Requests.Decide.{decided}
use vaultchain_fintech_dashb.Access.Requests.Writes.{
  Write, Writes, end, write, sweep, expire_read, rotate, insert, relink, settled, completed,
  is_not_of,
}

-- A request that is there, and is not the actor's.
abbrev pub Held : Text → ℕ → List ResetRequest → Type 0
Held id actor rows =
    (any (request_row id) rows ≡ true) × (all_at (request_row id) (is_not_of actor) rows ≡ true)

update_where-Held :
    (id : Text) (actor : ℕ) (p : ResetRequest → Bool) (f : ResetRequest → ResetRequest)
    (rows : List ResetRequest)
    → ((r : ResetRequest) → request_row id (f r) ≡ request_row id r)
    → ((r : ResetRequest) → is_not_of actor (f r) ≡ is_not_of actor r)
    → Held id actor rows
    → Held id actor (update_where p f rows)
update_where-Held id actor p f rows ids users (there, theirs) = (
  any-update_where (request_row id) p f rows ids ∙ there,
  all-update_where (λ r. not (request_row id r) || is_not_of actor r) p f rows
      (λ r h hit. rw (ids r, users r) h) theirs,
)

insert-Held :
    (id : Text) (actor : ℕ) (r : ResetRequest) (rows : List ResetRequest)
    → any (request_row r.id) rows ≡ false
    → Held id actor rows
    → Held id actor (r ∷ rows)
insert-Held id actor r rows fresh (there, theirs) = elim (Bool-cases (text_eq r.id id)) [
  | inl e ↦ let same = text_eq_iff r.id id e in cc (rw same at fresh, there)
  | inr e ↦ rw e (there, theirs)
]

Write-Held :
    {single : Bool} {s t : List ResetRequest} (k : Text) (actor : ℕ)
    → Write single s t
    → Held k actor s
    → Held k actor t
unfolding expire_overdue expire_in complete_request
Write-Held {s = s} k actor (sweep now user e) held =
    rw e (update_where-Held k actor _ expire_row s (λ r. refl) (λ r. refl) held)
Write-Held {s = s} k actor (expire_read id status h e) held =
    rw e (update_where-Held k actor _ expire_row s (λ r. refl) (λ r. refl) held)
Write-Held {s = s} k actor (rotate id hash e) held =
    rw e (update_where-Held k actor _ (rotate_secret hash) s (λ r. refl) (λ r. refl) held)
Write-Held {s = s} k actor (insert env user ctx i h e) held =
    rw e (insert-Held k actor (new_request env user ctx) s (||_left _ _ h) held)
Write-Held {s = s} k actor (relink id challenge e) held =
    rw e (update_where-Held k actor _ (link_challenge challenge) s (λ r. refl) (λ r. refl) held)
Write-Held {s = s} k actor (settled now by id approve h e) held =
    rw e (update_where-Held k actor _ (decided now by approve) s (λ r. refl) (λ r. refl) held)
Write-Held {s = s} k actor (completed now id e) held = rw e (
    update_where-Held k actor _ (λ r. record r { completed_at = some now }) s (λ r. refl)
      (λ r. refl) held)

pub Writes-Held :
    {single : Bool} {s t : List ResetRequest} (k : Text) (actor : ℕ)
    → Writes single s t
    → Held k actor s
    → Held k actor t
Writes-Held k actor (end s) held = held
Writes-Held k actor (write w h) held = Writes-Held k actor h (Write-Held k actor w held)
