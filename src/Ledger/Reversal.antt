-- ===== src/Ledger/Reversal.antt =====
-- Reverse-once, of `planReversal` and the UNIQUE index on `reversal_of` in
-- Api/src/modules/transactions/transactions.service.ts.
use mathlib.Core.Path.{subst}
use vaultchain_fintech_dashb.Prelude.{
  ℕ, Bool, true, false, some, ◌∷◌, ◌≡◌, refl, ap, arith, any, ok, inl, inr, is_ok, Option-cases,
  find, find_fits, ==_iff, ==_refl, after-eq-ok, ◌==◌, rolled_back-eq-ok, any-update_where,
}
use vaultchain_fintech_dashb.Ledger.Store.{
  Db, Transaction, TransactionSnapshot, same_reversal, entries_of, reversal, roll_back,
}
use vaultchain_fintech_dashb.Ledger.Plan.{
  CreateTransactionDto, PostingPlan, plan_reversal, plan_kind, plan_for, first_currency,
}
use vaultchain_fintech_dashb.Ledger.Execute.{Env, new_transaction, has_tx_id}
use vaultchain_fintech_dashb.Ledger.Execute.Outcome.{execute_plan-Executed, set_reversed}
use vaultchain_fintech_dashb.Ledger.Post.{Request, post_by_kind, post_and_complete, in_transaction}
use vaultchain_fintech_dashb.Ledger.Invariant.{IsSound}
use vaultchain_fintech_dashb.Ledger.Invariant.Plans.{plan_for-IsPlanned}
use vaultchain_fintech_dashb.Ledger.Invariant.Rows.{fresh_reversal}
use vaultchain_fintech_dashb.Ledger.Safety.{completion_lem, in_transaction-IsSound}
use vaultchain_fintech_dashb.Ledger.Idempotency.{rolled_back_lem}

abbrev pub Reverses : CreateTransactionDto → ℕ → Type 0
Reverses dto id = (dto.kind ≡ reversal) × (dto.original_transaction_id ≡ some id)

-- A stored reversal of a transaction.
abbrev pub is_reversal_of : ℕ → Transaction → Bool
is_reversal_of id t = same_reversal t.reversal_of (some id)

plan_reversal-of :
    (dto : CreateTransactionDto) (id : ℕ) (db u : Db) (plan : PostingPlan)
    → dto.original_transaction_id ≡ some id
    → plan_reversal dto db ≡ (ok plan, u)
    → plan.reversal_of ≡ some id
unfolding plan_reversal
plan_reversal-of dto id db u plan e h =
    elim (Option-cases (find (λ t. t.id == id) db.transactions)) [
      | inl missing ↦ ground arith
      | inr (t, there) ↦
          let same = (==_iff t.id id).0 (find_fits (λ t. t.id == id) db.transactions there) in
          elim (Option-cases (first_currency (entries_of id db.entries))) [
            | inl none_left ↦ ground arith
            | inr (c, first) ↦ ground arith
          ]
    ]

plan_for-of :
    (dto : CreateTransactionDto) (id : ℕ) (db u : Db) (plan : PostingPlan)
    → Reverses dto id
    → plan_for dto db ≡ (ok plan, u)
    → plan.reversal_of ≡ some id
unfolding plan_for plan_kind plan_reversal
plan_for-of dto id db u plan (kind, original) h =
    plan_reversal-of dto id db u plan original (rw kind at h)

-- A reversal that posts found no other of its original, and leaves one.
pub reversal_posts :
    (env : Env) (req : Request) (id : ℕ) (db t : Db) (snap : TransactionSnapshot)
    → IsSound db
    → Reverses req.dto id
    → post_by_kind env req db ≡ (ok snap, t)
    → (any (is_reversal_of id) db.transactions ≡ false)
      × (any (is_reversal_of id) t.transactions ≡ true)
unfolding post_by_kind
reversal_posts env req id db t snap sound reverses h =
    let (plan, u, planned, executed) = after-eq-ok (plan_for req.dto db) _ h in
    let (same, _, _) = plan_for-IsPlanned req.dto db u plan sound.keyed sound.paired planned in
    let run = execute_plan-Executed env plan req.dto req.key db t snap (rw same at executed) in
    let of = plan_for-of req.dto id db u plan reverses planned in
    let row = new_transaction env plan req.dto req.key run.account run.public_ref in
    let fresh = fresh_reversal row db.transactions run.fresh in
    let kept =
      any-update_where (is_reversal_of id) (has_tx_id plan.mark_reversed_tx_id) set_reversed
        (row ∷ db.transactions) (λ t. refl) in
    (rw of at fresh, rw (run.transactions, kept, of, ==_refl id) refl)

-- A transaction is reversed once: on the tables that the committed transaction of a reversal left,
-- in a sound ledger, that of no other reversal of the same original commits, with whatever key: it
-- throws, and every table is rolled back.
pub reverse_once :
    (env env' : Env) (req again : Request) (id : ℕ) (db t : Db) (snap : TransactionSnapshot)
    → IsSound db
    → Reverses req.dto id
    → Reverses again.dto id
    → in_transaction env req db ≡ (ok snap, t)
    → (is_ok (in_transaction env' again t).0 ≡ false)
      × ((in_transaction env' again t).1 ≡ roll_back t (post_and_complete env' again t).1)
unfolding in_transaction post_and_complete
reverse_once env env' req again id db t snap sound first second h =
    let (s, u, posted, rest) =
      after-eq-ok (post_by_kind env req db) _
        (rolled_back-eq-ok roll_back db (post_and_complete env req db) h) in
    let (_, stored) = reversal_posts env req id db u s sound first posted in
    let (done, _) = completion_lem req s u t snap rest in
    let (kept, _) = in_transaction-IsSound env req db sound in
    let sound_after : IsSound t = subst (λ r. IsSound r.1) h kept in
    rolled_back_lem t (post_and_complete env' again t) λ v snap' commits.
      let (s', w, posts, _) = after-eq-ok (post_by_kind env' again t) _ commits in
      let (clear, _) = reversal_posts env' again id t w s' sound_after second posts in
      cc (rw (ap (λ d. d.transactions) done) at clear, stored)
