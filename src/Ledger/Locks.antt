-- ===== src/Ledger/Locks.antt =====
-- The order of `lockAndLoadWallets` in Api/src/modules/transactions/transactions.service.ts, on
-- which the absence of deadlocks between postings rests.
use vaultchain_fintech_dashb.Prelude.{
  ℕ, true, ◌||◌, List, [], ◌∷◌, ◌≡◌, refl, arith, any, all, all-weaken, ltb, ◌==◌, Bool-cases, inl,
  inr, ok, ◌++◌,
}
use vaultchain_fintech_dashb.Ledger.Plan.{PlannedLeg, PostingPlan, CreateTransactionDto}
use vaultchain_fintech_dashb.Ledger.Execute.{insert_id, lock_order, contains, Env, execute_plan}
use vaultchain_fintech_dashb.Ledger.Store.{Db, TransactionSnapshot}
use vaultchain_fintech_dashb.Ledger.Execute.Outcome.{execute_plan-Executed}

-- Each id is below all that follow it, so no id is there twice.
abbrev pub IsAscending : List ℕ → Type 0
IsAscending [] = Unit
IsAscending (x ∷ xs) = (all (λ y. ltb x y) xs ≡ true) × IsAscending xs

insert_id-above :
    (z x : ℕ) (ys : List ℕ)
    → ltb z x ≡ true
    → all (λ y. ltb z y) ys ≡ true
    → all (λ y. ltb z y) (insert_id x ys) ≡ true
insert_id-above z x [] below h = rw below refl
insert_id-above z x (y ∷ ys) below h = ground (arith, insert_id-above z x ys)

insert_id-IsAscending : (x : ℕ) (ys : List ℕ) → IsAscending ys → IsAscending (insert_id x ys)
insert_id-IsAscending x [] h = (refl, tt)
insert_id-IsAscending x (y ∷ ys) (least, rest) = elim (Bool-cases (x == y)) [
  | inl e ↦ rw e (least, rest)
  | inr differ ↦ elim (Bool-cases (ltb x y)) [
    | inl e ↦
        let further = all-weaken (λ z. ltb y z) (λ z. ltb x z) ys (λ z h. ground arith) least in
        rw (differ, e) (rw (e, further) refl, (least, rest))
    | inr e ↦
        let above : ltb y x ≡ true = ground arith in
        rw (differ, e) (insert_id-above y x ys above least, insert_id-IsAscending x ys rest)
  ]
]

insert_id-contains :
    (z x : ℕ) (ys : List ℕ) → contains z (insert_id x ys) ≡ (x == z || contains z ys)
insert_id-contains z x [] = ground arith
insert_id-contains z x (y ∷ ys) = ground (arith, insert_id-contains z x ys)

lock_order-contains :
    (z : ℕ) (ls : List PlannedLeg) → contains z (lock_order ls) ≡ any (λ l. l.wallet_id == z) ls
unfolding lock_order
lock_order-contains z [] = refl
lock_order-contains z (l ∷ ls) =
    rw (insert_id-contains z l.wallet_id (lock_order ls), lock_order-contains z ls) refl

ascending : (ls : List PlannedLeg) → IsAscending (lock_order ls)
unfolding lock_order
ascending [] = tt
ascending (l ∷ ls) = insert_id-IsAscending l.wallet_id (lock_order ls) (ascending ls)

-- A posting that returns has asked for the locks of its wallets in one order, that of their ids, each
-- wallet once, and for exactly the wallets of its legs.
pub execute_plan-IsAscending :
    (env : Env) (plan : PostingPlan) (dto : CreateTransactionDto) (key z : ℕ) (db t : Db)
    (snap : TransactionSnapshot)
    → execute_plan env plan dto key db ≡ (ok snap, t)
    → (ids : List ℕ) × (t.lock_log ≡ db.lock_log ++ ids)
      × IsAscending ids
      × (contains z ids ≡ any (λ l. l.wallet_id == z) plan.legs)
execute_plan-IsAscending env plan dto key z db t snap h = (
  lock_order plan.legs,
  (execute_plan-Executed env plan dto key db t snap h).locks,
  ascending plan.legs,
  lock_order-contains z plan.legs,
)
