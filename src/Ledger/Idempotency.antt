-- ===== src/Ledger/Idempotency.antt =====
-- What the idempotency key promises: a replay returns the stored response and changes nothing, a
-- stranded key is reclaimed, and a key that has posted never posts again.
use vaultchain_fintech_dashb.Prelude.{
  ℕ, true, false, Option, none, some, List, [], ◌∷◌, ◌≡◌, refl, arith, ◌==◌, any, ok, err, Result,
  Bool-cases, Option-cases, inl, inr, update_where, after-eq-ok, if◌then◌else◌, rolled_back-eq-ok,
  ==_refl, handled-eq-ok, is_ok, rolled_back,
}
use vaultchain_fintech_dashb.Ledger.Store.{
  Db, LedgerError, TransactionSnapshot, find_key, roll_back, key_conflict, IdempotencyKey,
  completed, in_progress, KeyState, KeyState,
}
use vaultchain_fintech_dashb.Ledger.Execute.{Env, new_transaction}
use vaultchain_fintech_dashb.Ledger.Plan.{plan_for}
use vaultchain_fintech_dashb.Ledger.Execute.Outcome.{execute_plan-Executed}
use vaultchain_fintech_dashb.Ledger.Post.{
  Others, nobody, Request, post_by_kind, post_and_complete, in_transaction, run_claimed, claim,
  look_up, post, delete_key, is_implemented, is_stale_in_progress, resolve_existing, claimed_key,
  complete_key,
}
use vaultchain_fintech_dashb.Ledger.Invariant.Rows.{fresh_key}
use mathlib.Core.Path.{ap, sym}
use vaultchain_fintech_dashb.Ledger.Invariant.{IsSound}
use vaultchain_fintech_dashb.Ledger.Invariant.Posting.{post_by_kind-IsSound}
use vaultchain_fintech_dashb.Ledger.Safety.{keys-IsSound, completion_lem}
use vaultchain_fintech_dashb.Ledger.Invariant.Plans.{plan_for-IsPlanned}

-- An existing key decides a request of an implemented kind: a stale one is deleted and claimed anew;
-- any other is answered from its row, with the tables as they are.
pub post_existing :
    (env : Env) (others : Others) (req : Request) (db : Db) (row : IdempotencyKey)
    → is_implemented req.dto.kind ≡ true
    → find_key req.key db.keys ≡ some row
    → post env others req db ≡ (
        if is_stale_in_progress env.checked_at row
        then claim env others req (delete_key req.key db)
        else (resolve_existing row req.fingerprint, db))
unfolding post look_up
post_existing env others req db row implemented there =
    rw (implemented, there)
      (elim (Bool-cases (is_stale_in_progress env.checked_at row)) [ inl e ↦ rw e | inr e ↦ rw e ])

-- A key that is completed with a response is answered with it for the same fingerprint, and is a
-- conflict for another, with the tables left as they are.
pub post_completed :
    (env : Env) (others : Others) (req : Request) (db : Db) (row : IdempotencyKey)
    (snap : TransactionSnapshot)
    → is_implemented req.dto.kind ≡ true
    → find_key req.key db.keys ≡ some row
    → row.state ≡ completed
    → row.response_body_json ≡ some snap
    → post env others req db
      ≡ (if row.request_fingerprint == req.fingerprint then ok snap else err key_conflict, db)
unfolding resolve_existing
post_completed env others req db row snap implemented there done body =
    rw (post_existing env others req db row implemented there) (ground arith)

find_key-complete_key :
    (k : ℕ) (snap : TransactionSnapshot) (rows : List IdempotencyKey) (row : IdempotencyKey)
    → find_key k rows ≡ some row
    → find_key k (update_where (λ r. r.key == k) (complete_key snap) rows)
      ≡ some (complete_key snap row)
find_key-complete_key k snap [] row h = cc
find_key-complete_key k snap (r ∷ rows) row h =
    ground (arith, find_key-complete_key k snap rows row)

-- What a request returns, its key answers from then on.
abbrev IsAnswered : ℕ → ℕ → TransactionSnapshot → Db → Type 0
IsAnswered key fingerprint snap db =
    (row : IdempotencyKey) × (find_key key db.keys ≡ some row)
    × (row.state ≡ completed)
    × (row.response_body_json ≡ some snap)
    × (row.request_fingerprint ≡ fingerprint)

resolve_existing_ok :
    (row : IdempotencyKey) (fingerprint : ℕ) (snap : TransactionSnapshot) (state : KeyState)
    (body : Option TransactionSnapshot)
    → row.state ≡ state
    → row.response_body_json ≡ body
    → resolve_existing row fingerprint ≡ ok snap
    → (state ≡ completed) × (body ≡ some snap) × (row.request_fingerprint ≡ fingerprint)
unfolding resolve_existing
resolve_existing_ok row fingerprint snap in_progress none s b h = ground arith
resolve_existing_ok row fingerprint snap in_progress (some body) s b h = ground arith
resolve_existing_ok row fingerprint snap completed none s b h = ground arith
resolve_existing_ok row fingerprint snap completed (some body) s b h = ground arith

resolve_existing-IsAnswered :
    (row : IdempotencyKey) (key fingerprint : ℕ) (snap : TransactionSnapshot) (db t : Db)
    → find_key key db.keys ≡ some row
    → ◌≡◌ {A = Result LedgerError TransactionSnapshot × Db}
        (resolve_existing row fingerprint, db)
        (ok snap, t)
    → IsAnswered key fingerprint snap t
resolve_existing-IsAnswered row key fingerprint snap db t there h =
    let (done, body, same) =
      resolve_existing_ok row fingerprint snap row.state row.response_body_json refl refl
        (ap (λ r. r.0) h) in
    let there' : find_key key t.keys ≡ some row = rw (← ap (λ r. r.1.keys) h) there in
    (row, there', done, body, same)

post_and_complete-IsAnswered :
    (env : Env) (req : Request) (db t : Db) (snap : TransactionSnapshot) (row : IdempotencyKey)
    → IsSound db
    → find_key req.key db.keys ≡ some row
    → row.request_fingerprint ≡ req.fingerprint
    → post_and_complete env req db ≡ (ok snap, t)
    → IsAnswered req.key req.fingerprint snap t
unfolding post_and_complete
post_and_complete-IsAnswered env req db t snap row sound there same h =
    let (s, u, posted, rest) = after-eq-ok (post_by_kind env req db) _ h in
    let (_, _, keys) = post_by_kind-IsSound env req db u s sound posted in
    let (stored, returned) = completion_lem req s u t snap rest in
    (
      complete_key s row,
      rw stored (find_key-complete_key req.key s u.keys row (rw keys there)),
      refl,
      ap some (sym returned),
      same,
    )

run_claimed-IsAnswered :
    (env : Env) (req : Request) (db t : Db) (snap : TransactionSnapshot)
    → IsSound db
    → find_key req.key db.keys ≡ some (claimed_key env req)
    → run_claimed env nobody req db ≡ (ok snap, t)
    → IsAnswered req.key req.fingerprint snap t
unfolding run_claimed in_transaction
run_claimed-IsAnswered env req db t snap sound there h =
    post_and_complete-IsAnswered env req db t snap (claimed_key env req) sound there refl (
      rolled_back-eq-ok roll_back db (post_and_complete env req db)
        (handled-eq-ok (in_transaction env req db) _ (λ e s. λ x. cc x) h))

claim-IsAnswered :
    (env : Env) (req : Request) (db t : Db) (snap : TransactionSnapshot)
    → IsSound db
    → claim env nobody req db ≡ (ok snap, t)
    → IsAnswered req.key req.fingerprint snap t
unfolding claim
claim-IsAnswered env req db t snap sound h = elim (Option-cases (find_key req.key db.keys)) [
  | inl e ↦
      run_claimed-IsAnswered env req (record db { keys = claimed_key env req ∷ db.keys }) t snap
        (keys-IsSound db _ refl refl refl sound) (ground (arith, ==_refl req.key)) (rw e at h)
  | inr (row, e) ↦
      resolve_existing-IsAnswered row req.key req.fingerprint snap db t e (rw (e, e) at h)
]

post-IsAnswered :
    (env : Env) (req : Request) (db t : Db) (snap : TransactionSnapshot)
    → IsSound db
    → post env nobody req db ≡ (ok snap, t)
    → IsAnswered req.key req.fingerprint snap t
unfolding post look_up
post-IsAnswered env req db t snap sound h = elim (Bool-cases (is_implemented req.dto.kind)) [
  | inl implemented ↦ elim (Option-cases (find_key req.key db.keys)) [
    | inl e ↦ claim-IsAnswered env req db t snap sound (rw (implemented, e) at h)
    | inr (row, e) ↦ elim (Bool-cases (is_stale_in_progress env.checked_at row)) [
      | inl stale ↦
          claim-IsAnswered env req (delete_key req.key db) t snap
            (keys-IsSound db _ refl refl refl sound) (rw (implemented, e, stale) at h)
      | inr live ↦
          resolve_existing-IsAnswered row req.key req.fingerprint snap db t e
            (rw (implemented, e, live) at h)
    ]
  ]
  | inr other ↦ cc (rw other at h)
]

-- A request that returns, in a sound ledger with nobody else writing, has its key answer from then
-- on: the same key and fingerprint give the stored response, and another fingerprint a conflict,
-- both with the tables left as they are.
pub post_replay :
    (env : Env) (req : Request) (db t : Db) (snap : TransactionSnapshot) (env' : Env)
    (others : Others) (again : Request)
    → IsSound db
    → post env nobody req db ≡ (ok snap, t)
    → again.key ≡ req.key
    → is_implemented again.dto.kind ≡ true
    → post env' others again t
      ≡ (if req.fingerprint == again.fingerprint then ok snap else err key_conflict, t)
post_replay env req db t snap env' others again sound h same implemented =
    let (row, there, done, body, print) = post-IsAnswered env req db t snap sound h in
    rw (← print) (post_completed env' others again t row snap implemented (rw same there) done body)

post_by_kind_fresh :
    (env : Env) (req : Request) (db t : Db) (snap : TransactionSnapshot)
    → IsSound db
    → post_by_kind env req db ≡ (ok snap, t)
    → any (λ u. u.idempotency_key == req.key) db.transactions ≡ false
unfolding post_by_kind
post_by_kind_fresh env req db t snap sound h =
    let (plan, u, planned, executed) = after-eq-ok (plan_for req.dto db) _ h in
    let (same, _, _) = plan_for-IsPlanned req.dto db u plan sound.keyed sound.paired planned in
    let run = execute_plan-Executed env plan req.dto req.key db t snap (rw same at executed) in
    fresh_key (new_transaction env plan req.dto req.key run.account run.public_ref) db.transactions
      run.fresh

pub rolled_back_lem :
    (db : Db) (r : Result LedgerError TransactionSnapshot × Db)
    → ((t : Db) (snap : TransactionSnapshot) → r ≡ (ok snap, t) → ⊥)
    → (is_ok (rolled_back roll_back db r).0 ≡ false)
      × ((rolled_back roll_back db r).1 ≡ roll_back db r.1)
rolled_back_lem db (ok snap, t) never = absurd (never t snap refl)
rolled_back_lem db (err e, t) never = (refl, refl)

-- While a transaction with the request's key is stored, the interactive transaction commits no
-- second one, whatever became of the key's own row: it throws, and every table is rolled back.
pub posted_key_never_reposts :
    (env : Env) (req : Request) (db : Db)
    → IsSound db
    → any (λ t. t.idempotency_key == req.key) db.transactions ≡ true
    → (is_ok (in_transaction env req db).0 ≡ false)
      × ((in_transaction env req db).1 ≡ roll_back db (post_and_complete env req db).1)
unfolding in_transaction post_and_complete
posted_key_never_reposts env req db sound posted =
    rolled_back_lem db (post_and_complete env req db) λ t snap h.
      let (s, u, done, _) = after-eq-ok (post_by_kind env req db) _ h in
      cc (posted, post_by_kind_fresh env req db u s sound done)
