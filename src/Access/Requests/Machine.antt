-- ===== src/Access/Requests/Machine.antt =====
-- The abstract life of a request for a reset by an administrator, and the table of
-- Api/src/modules/password-reset/password-reset-request.service.ts seen as a list of such lives.
use vaultchain_fintech_dashb.Prelude.{
  ℕ, Bool, true, false, Option, none, some, List, [], ◌∷◌, ◌≡◌, refl, arith, Bool-cases, inl, inr,
  update_where, ◌∙◌, &&_left, &&_right, all, any, count_where, ◌<◌, some-injective, any-counted,
  find-eq-any, ◌⊎◌, sym,
}
use vaultchain_fintech_dashb.Access.Store.{
  pending, approved, denied, expired, RequestStatus, ResetRequest,
}
use vaultchain_fintech_dashb.Prelude.Text.{Text}
use vaultchain_fintech_dashb.Access.Requests.{request_row, text_eq, find}

-- The state and the completion, as one stage.
pub data Stage : Type 0 where
  waiting : Stage
  granted : Stage
  done : Stage
  refused : Stage
  lapsed : Stage

abbrev pub stage_at : RequestStatus → Option ℕ → Stage
stage_at pending completed = waiting
stage_at approved none = granted
stage_at approved (some at) = done
stage_at denied completed = refused
stage_at expired completed = lapsed

abbrev pub stage_of : ResetRequest → Stage
stage_of r = stage_at r.status r.completed_at

-- One move of a request.
pub data Move : Stage → Stage → Type 0 where
  grant : Move waiting granted
  refuse : Move waiting refused
  lapse_waiting : Move waiting lapsed
  lapse_granted : Move granted lapsed
  finish : Move granted done
  lapse_done : Move done lapsed

pub data Reaches : Stage → Stage → Type 0 where
  stay : (s : Stage) → Reaches s s
  move : {s t u : Stage} → Move s t → Reaches t u → Reaches s u

pub Reaches-trans : {s t u : Stage} → Reaches s t → Reaches t u → Reaches s u
Reaches-trans (stay s) k = k
Reaches-trans (move m h) k = move m (Reaches-trans h k)

-- The same request later: of the same user, along the machine.
pub record Becomes (r s : ResetRequest) : Type 0 where
  pub same_id : r.id ≡ s.id
  pub same_user : r.user_id ≡ s.user_id
  pub reaches : Reaches (stage_of r) (stage_of s)

-- The same table later: the requests that were there, each along the machine, under new ones that
-- were filed as waiting and moved since.
pub data Evolves : List ResetRequest → List ResetRequest → Type 0 where
  none_yet : Evolves [] []
  kept :
      {r s : ResetRequest} {rs ss : List ResetRequest}
      → Becomes r s
      → Evolves rs ss
      → Evolves (r ∷ rs) (s ∷ ss)
  filed :
      {s : ResetRequest} {rs ss : List ResetRequest}
      → Reaches waiting (stage_of s)
      → Evolves rs ss
      → Evolves rs (s ∷ ss)

pub Becomes-refl : (r : ResetRequest) → Becomes r r
Becomes-refl r = record { same_id = refl; same_user = refl; reaches = stay (stage_of r) }

pub Becomes-trans : {r s t : ResetRequest} → Becomes r s → Becomes s t → Becomes r t
Becomes-trans b c = record {
  same_id = b.same_id ∙ c.same_id;
  same_user = b.same_user ∙ c.same_user;
  reaches = Reaches-trans b.reaches c.reaches;
}

pub Evolves-refl : (rows : List ResetRequest) → Evolves rows rows
Evolves-refl [] = none_yet
Evolves-refl (r ∷ rs) = kept (Becomes-refl r) (Evolves-refl rs)

pub Evolves-trans : {rs ss ts : List ResetRequest} → Evolves rs ss → Evolves ss ts → Evolves rs ts
Evolves-trans none_yet k = k
Evolves-trans (kept b h) (kept c k) = kept (Becomes-trans b c) (Evolves-trans h k)
Evolves-trans (kept b h) (filed w k) = filed w (Evolves-trans (kept b h) k)
Evolves-trans (filed w h) (kept c k) = filed (Reaches-trans w c.reaches) (Evolves-trans h k)
Evolves-trans (filed w h) (filed v k) = filed v (Evolves-trans (filed w h) k)

-- An update evolves a table where it moves each row that it hits along the machine.
pub update_where-Evolves :
    (q p : ResetRequest → Bool) (f : ResetRequest → ResetRequest) (rows : List ResetRequest)
    → ((r : ResetRequest) → q r ≡ true → p r ≡ true → Becomes r (f r))
    → all q rows ≡ true
    → Evolves rows (update_where p f rows)
update_where-Evolves q p f [] moves h = none_yet
update_where-Evolves q p f (r ∷ rs) moves h =
    let here = &&_left (q r) (all q rs) h in
    let rest = update_where-Evolves q p f rs moves (&&_right (q r) (all q rs) h) in
    elim (Bool-cases (p r)) [
      | inl e ↦ rw e (kept (moves r here e) rest)
      | inr e ↦ rw e (kept (Becomes-refl r) rest)
    ]

-- A stage that is over: the owner can no longer claim, and nobody decide.
abbrev pub is_over : Stage → Bool
is_over waiting = false
is_over granted = false
is_over done = true
is_over refused = true
is_over lapsed = true

lapsed_stays : {t : Stage} → Reaches lapsed t → lapsed ≡ t
lapsed_stays (stay s) = refl
lapsed_stays {t = t} (move x5 _) = elim x5 [ ]

pub over_stays :
    {s t : Stage} → Reaches s t → is_over s ≡ true → (s ≡ t) ⊎ ((s ≡ done) × (t ≡ lapsed))
over_stays (stay s) h = inl refl
over_stays (move grant k) h = absurd (cc h)
over_stays (move refuse k) h = absurd (cc h)
over_stays (move lapse_waiting k) h = absurd (cc h)
over_stays (move lapse_granted k) h = absurd (cc h)
over_stays (move finish k) h = absurd (cc h)
over_stays (move lapse_done k) h = inr (refl, sym (lapsed_stays k))

Evolves-any :
    {rs ss : List ResetRequest} (id : Text)
    → Evolves rs ss
    → any (request_row id) rs ≡ true
    → any (request_row id) ss ≡ true
Evolves-any id none_yet h = cc
Evolves-any id (kept {r = r} {s = s} {ss = ss} b k) h = elim (Bool-cases (text_eq r.id id)) [
  | inl e ↦ let same = b.same_id in rw (rw same at e) refl
  | inr e ↦ ground (arith, Evolves-any id k (rw e at h))
]
Evolves-any id (filed w k) h = ground (arith, Evolves-any id k h)

-- A request that an id finds is found later.
pub found_later :
    {rs ss : List ResetRequest} (id : Text) {r : ResetRequest}
    → Evolves rs ss
    → ((i : Text) → count_where (request_row i) ss < 2)
    → find (request_row id) rs ≡ some r
    → (s : ResetRequest) × (find (request_row id) ss ≡ some s) × Becomes r s
found_later id {r = r} h keys found = find_in h (keys id) found
  where
    find_in :
        {rs ss : List ResetRequest}
        → Evolves rs ss
        → count_where (request_row id) ss < 2
        → find (request_row id) rs ≡ some r
        → (s : ResetRequest) × (find (request_row id) ss ≡ some s) × Becomes r s
    find_in none_yet few f = absurd (cc f)
    find_in (kept {r = q} {s = s} {rs = rs} {ss = ss} b k) few f =
        elim (Bool-cases (text_eq q.id id)) [
          | inl e ↦
              let same = b.same_id in
              let here : text_eq s.id id ≡ true = rw same at e in
              let is_r = some-injective q r (rw e at f) in
              (s, rw here refl, coe 0 1 (i. Becomes (is_r i) s) b)
          | inr e ↦
              let same = b.same_id in
              let here : text_eq s.id id ≡ false = rw same at e in
              let (t, found, c) = find_in k (rw here at few) (rw e at f) in (t, rw here found, c)
        ]
    find_in (filed {s = s} {rs = rs} {ss = ss} w k) few f = elim (Bool-cases (text_eq s.id id)) [
      | inl e ↦
          let there =
            any-counted (request_row id) ss
              (Evolves-any id k (find-eq-any (request_row id) rs f)) in
          let small = rw e at few in let bad : ⊥ = omega arith in absurd bad
      | inr e ↦ let (t, found, c) = find_in k (rw e at few) f in (t, rw e found, c)
    ]
