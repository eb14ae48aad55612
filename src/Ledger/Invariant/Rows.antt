-- ===== src/Ledger/Invariant/Rows.antt =====
-- The rows that a posting adds: the transaction, which trips no UNIQUE index, and its entries.
use vaultchain_fintech_dashb.Prelude.{
  ℕ, true, false, Option, none, List, [], ◌∷◌, ◌++◌, ◌≡◌, refl, arith, ◌==◌, any, update_where,
  Bool-cases, inl, inr, ℤ, int_laws, ap, ==_iff, suc,
}
use vaultchain_fintech_dashb.Ledger.Store.{
  debit, credit, Transaction, LedgerEntry, Wallet, has_id, same_reversal, transaction_conflict,
  entries_of, Leg,
}
use vaultchain_fintech_dashb.Ledger.Plan.{PlannedLeg, PostingPlan}
use vaultchain_fintech_dashb.Ledger.Execute.{
  Env, plan_entries, has_tx_id, moved, move_wallet, has_balance, entry_for,
}
use vaultchain_fintech_dashb.Ledger.Execute.Outcome.{set_reversed, move_all, all_present}
use vaultchain_fintech_dashb.Ledger.Invariant.{
  IsOwned, HasOnePerKey, HasOneReversal, net, IsReconciled,
}
use vaultchain_fintech_dashb.Ledger.Invariant.Wallets.{step-IsReconciled}

module _ (row : Transaction) (txs : List Transaction)
    (fresh : transaction_conflict row txs ≡ none) where
  pub fresh_id : any (λ t. t.id == row.id) txs ≡ false
  unfolding transaction_conflict
  fresh_id = ground arith

  pub fresh_key : any (λ t. t.idempotency_key == row.idempotency_key) txs ≡ false
  unfolding transaction_conflict
  fresh_key = ground arith

  pub fresh_reversal : any (λ t. same_reversal t.reversal_of row.reversal_of) txs ≡ false
  unfolding transaction_conflict
  fresh_reversal = ground arith

-- Marking a transaction reversed changes none of its keys.
module _ (mark : Option ℕ) where
  abbrev marked : List Transaction → List Transaction
  marked txs = update_where (has_tx_id mark) set_reversed txs

  pub any_id-marked :
      (k : ℕ) (txs : List Transaction)
      → any (λ t. t.id == k) (marked txs) ≡ any (λ t. t.id == k) txs
  any_id-marked k [] = refl
  any_id-marked k (t ∷ txs) = ground (arith, any_id-marked k txs)

  any_key-marked :
      (k : ℕ) (txs : List Transaction)
      → any (λ t. t.idempotency_key == k) (marked txs) ≡ any (λ t. t.idempotency_key == k) txs
  any_key-marked k [] = refl
  any_key-marked k (t ∷ txs) = ground (arith, any_key-marked k txs)

  any_reversal-marked :
      (r : Option ℕ) (txs : List Transaction)
      → any (λ t. same_reversal t.reversal_of r) (marked txs)
        ≡ any (λ t. same_reversal t.reversal_of r) txs
  any_reversal-marked r [] = refl
  any_reversal-marked r (t ∷ txs) = ground (arith, any_reversal-marked r txs)

  pub marked-HasOnePerKey : (txs : List Transaction) → HasOnePerKey txs → HasOnePerKey (marked txs)
  marked-HasOnePerKey [] h = tt
  marked-HasOnePerKey (t ∷ txs) h =
      ground (arith, any_key-marked t.idempotency_key txs, marked-HasOnePerKey txs h.1)

  pub marked-HasOneReversal :
      (txs : List Transaction) → HasOneReversal txs → HasOneReversal (marked txs)
  marked-HasOneReversal [] h = tt
  marked-HasOneReversal (t ∷ txs) h =
      ground (arith, any_reversal-marked t.reversal_of txs, marked-HasOneReversal txs h.1)

  pub marked-IsOwned :
      (txs : List Transaction) (es : List LedgerEntry) → IsOwned txs es → IsOwned (marked txs) es
  marked-IsOwned txs [] h = tt
  marked-IsOwned txs (e ∷ es) h =
      ground (arith, any_id-marked e.transaction_id txs, marked-IsOwned txs es h.1)

pub cons-IsOwned :
    (row : Transaction) (txs : List Transaction) (es : List LedgerEntry)
    → IsOwned txs es
    → IsOwned (row ∷ txs) es
cons-IsOwned row txs [] h = tt
cons-IsOwned row txs (e ∷ es) h = ground (arith, cons-IsOwned row txs es h.1)

pub entries_of-append :
    (id : ℕ) (es fs : List LedgerEntry)
    → entries_of id (es ++ fs) ≡ entries_of id es ++ entries_of id fs
entries_of-append id [] fs = refl
entries_of-append id (e ∷ es) fs = ground (arith, entries_of-append id es fs)

-- A transaction that is not stored has no entries.
pub entries_of_fresh :
    (id : ℕ) (txs : List Transaction) (es : List LedgerEntry)
    → any (λ t. t.id == id) txs ≡ false
    → IsOwned txs es
    → entries_of id es ≡ []
entries_of_fresh id txs [] f h = refl
entries_of_fresh id txs (e ∷ es) f h = elim (Bool-cases (e.transaction_id == id)) [
  | inl same ↦ cc (ap (λ k. any (λ t. t.id == k) txs) ((==_iff e.transaction_id id).0 same))
  | inr other ↦ ground (arith, entries_of_fresh id txs es f h.1)
]

moved_comm : (k l : Leg) (m n : ℕ) (a : ℤ) → moved k m (moved l n a) ≡ moved l n (moved k m a)
moved_comm debit debit m n a = omega int_laws
moved_comm debit credit m n a = omega int_laws
moved_comm credit debit m n a = omega int_laws
moved_comm credit credit m n a = omega int_laws

-- The order in which entries are written does not change a sum.
net-insert :
    (id : ℕ) (es : List LedgerEntry) (e : LedgerEntry) (fs : List LedgerEntry)
    → net id (es ++ e ∷ fs) ≡ net id (e ∷ es ++ fs)
net-insert id [] e fs = refl
net-insert id (d ∷ es) e fs = ground (
  arith,
  net-insert id es e fs,
  moved_comm d.leg e.leg d.amount_minor e.amount_minor (net id (es ++ fs)),
)

IsReconciled-insert :
    (es : List LedgerEntry) (e : LedgerEntry) (fs : List LedgerEntry) (ws : List Wallet)
    → IsReconciled (es ++ e ∷ fs) ws
    → IsReconciled (e ∷ es ++ fs) ws
IsReconciled-insert es e fs [] h = tt
IsReconciled-insert es e fs (w ∷ ws) h =
    (rw (net-insert w.id es e fs) at h.0, IsReconciled-insert es e fs ws h.1)

-- A posting whose legs all find a balance row keeps every balance equal to its entries.
pub move_all-IsReconciled :
    (env : Env) (plan : PostingPlan) (loaded : List Wallet) (old : List LedgerEntry) (n : ℕ)
    (ls : List PlannedLeg) (es : List LedgerEntry) (ws : List Wallet)
    → all_present ls ws ≡ true
    → IsReconciled es ws
    → IsReconciled (plan_entries env plan loaded old n ls ++ es) (move_all ls ws)
unfolding plan_entries
move_all-IsReconciled env plan loaded old n [] es ws p h = h
move_all-IsReconciled env plan loaded old n (l ∷ ls) es ws p h =
    elim (Bool-cases (any (has_balance l.wallet_id) ws)) [
      | inl e ↦
          let row = entry_for env plan loaded old n l in
          let ws' = update_where (has_id l.wallet_id) (move_wallet l.leg l.amount) ws in
          rw e (
            IsReconciled-insert (plan_entries env plan loaded old (suc n) ls) row es
              (move_all ls ws')
              (move_all-IsReconciled env plan loaded old (suc n) ls (row ∷ es) ws' (rw e at p)
                (step-IsReconciled l.wallet_id l.leg l.amount row es ws refl refl refl h)))
      | inr e ↦ cc (rw e at p)
    ]
