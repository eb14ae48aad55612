-- ===== src/Ledger/Execute/Outcome.antt =====
-- What `execute_plan` has checked and written when it returns: one record, read off the code
-- step by step, on which the properties of a posting rest.
use mathlib.Core.List.{append-nil, append_assoc}
use vaultchain_fintech_dashb.Prelude.{
  ℕ, suc, Bool, true, false, not, none, List, [], ◌∷◌, ◌++◌, ◌≡◌, refl, arith, ◌==◌, if◌then◌else◌,
  any, all, filter, update_where, inl, inr, Bool-cases, ok, err, ◌&&◌, or_else, err-ne-ok, ap, sym,
  ◌∙◌,
}
use vaultchain_fintech_dashb.Prelude.Text.{Text}
use vaultchain_fintech_dashb.Ledger.Store.{
  Wallet, Transaction, LedgerEntry, TransactionSnapshot, Db, reversed, has_id, is_debit, is_credit,
  transaction_conflict, entries_conflict, amounts_on,
}
use vaultchain_fintech_dashb.Ledger.Plan.{CreateTransactionDto, PlannedLeg, PostingPlan}
use vaultchain_fintech_dashb.Ledger.Execute.{
  Env, lock_order, contains, overdraws, plan_entries, move_wallet, has_balance, has_tx_id,
  new_transaction, assert_sufficient_balance, owner_account, next_public_ref,
  create_transaction_row, write_balanced_ledger, apply_leg, apply_balance_deltas, mark_reversed,
  insufficient_balance, record_not_found, write_posting, public_ref_of, execute_plan,
  lock_and_load_wallets, lock_wallets,
}

-- The wallets that a plan names, as the executor loads them.
abbrev pub loaded : PostingPlan → List Wallet → List Wallet
loaded plan ws = filter (λ w. contains w.id (lock_order plan.legs)) ws

-- The balances after the legs, up to the first that finds no balance row.
abbrev pub move_all : List PlannedLeg → List Wallet → List Wallet
move_all [] ws = ws
move_all (l ∷ ls) ws =
    if any (has_balance l.wallet_id) ws
    then move_all ls (update_where (has_id l.wallet_id) (move_wallet l.leg l.amount) ws)
    else ws

abbrev pub all_present : List PlannedLeg → List Wallet → Bool
all_present [] ws = true
all_present (l ∷ ls) ws =
    any (has_balance l.wallet_id) ws
    && all_present ls (update_where (has_id l.wallet_id) (move_wallet l.leg l.amount) ws)

abbrev pub set_reversed : Transaction → Transaction
set_reversed t = record t { status = reversed }

pub record Executed (env : Env) (plan : PostingPlan) (dto : CreateTransactionDto) (key : ℕ)
    (db t : Db) : Type 0 where
  pub account : ℕ
  pub public_ref : Text
  pub found : all (λ id. any (has_id id) (loaded plan db.wallets)) (lock_order plan.legs) ≡ true
  pub one_currency : any (λ w. not (w.currency == plan.currency)) (loaded plan db.wallets) ≡ false
  pub covered : any (overdraws (loaded plan db.wallets)) plan.legs ≡ false
  pub fresh :
      transaction_conflict (new_transaction env plan dto key account public_ref) db.transactions
      ≡ none
  pub unslotted :
      entries_conflict
        (plan_entries env plan (loaded plan db.wallets) db.entries 0 plan.legs)
        db.entries
      ≡ false
  pub balanced :
      amounts_on is_debit (plan_entries env plan (loaded plan db.wallets) db.entries 0 plan.legs)
      ≡ amounts_on is_credit (plan_entries env plan (loaded plan db.wallets) db.entries 0 plan.legs)
  pub present : all_present plan.legs db.wallets ≡ true
  pub wallets : t.wallets ≡ move_all plan.legs db.wallets
  pub transactions :
      t.transactions
      ≡ update_where
          (has_tx_id plan.mark_reversed_tx_id)
          set_reversed
          (new_transaction env plan dto key account public_ref ∷ db.transactions)
  pub entries :
      t.entries
      ≡ plan_entries env plan (loaded plan db.wallets) db.entries 0 plan.legs ++ db.entries
  pub keys : t.keys ≡ db.keys
  pub locks : t.lock_log ≡ db.lock_log ++ lock_order plan.legs

assert_sufficient_balance_lem :
    (ws : List Wallet) (ls : List PlannedLeg) (db : Db)
    → assert_sufficient_balance ws ls db
      ≡ (if any (overdraws ws) ls then err insufficient_balance else ok tt, db)
unfolding assert_sufficient_balance
assert_sufficient_balance_lem ws [] db = refl
assert_sufficient_balance_lem ws (l ∷ ls) db = elim (Bool-cases (overdraws ws l)) [
  | inl e ↦ rw e
  | inr e ↦ rw e (assert_sufficient_balance_lem ws ls db)
]

apply_balance_deltas_lem :
    (ls : List PlannedLeg) (db : Db)
    → apply_balance_deltas ls db ≡ (
      if all_present ls db.wallets then ok tt else err record_not_found,
      record db { wallets = move_all ls db.wallets },
    )
unfolding apply_balance_deltas apply_leg
apply_balance_deltas_lem [] db = refl
apply_balance_deltas_lem (l ∷ ls) db =
    elim (Bool-cases (any (has_balance l.wallet_id) db.wallets)) [
      | inl e ↦ rw e (
          apply_balance_deltas_lem ls (record db {
            wallets = update_where (has_id l.wallet_id) (move_wallet l.leg l.amount) db.wallets;
          }))
      | inr e ↦ rw e
    ]

-- The log after the locks of the ids.
abbrev with_locks : List ℕ → Db → Db
with_locks ids db = record db { lock_log = db.lock_log ++ ids }

lock_wallets_lem : (ids : List ℕ) (db : Db) → lock_wallets ids db ≡ (ok tt, with_locks ids db)
unfolding lock_wallets
lock_wallets_lem [] db =
    ap (λ log. (ok tt, record db { lock_log = log })) (sym (append-nil db.lock_log))
lock_wallets_lem (id ∷ ids) db =
    lock_wallets_lem ids (with_locks (id ∷ []) db)
    ∙ ap (λ log. (ok tt, record db { lock_log = log })) (append_assoc db.lock_log (id ∷ []) ids)

module _ (env : Env) (plan : PostingPlan) (dto : CreateTransactionDto) (key : ℕ) (db t : Db)
    (snap : TransactionSnapshot) where
  -- The rows that a posting over the wallets `ws` adds.
  abbrev row_of : List Wallet → Transaction
  row_of ws =
      new_transaction env plan dto key (or_else (owner_account plan ws) 0)
        (public_ref_of env (suc db.public_ref_seq))

  abbrev entries_for : List Wallet → List LedgerEntry
  entries_for ws = plan_entries env plan ws db.entries 0 plan.legs

  write_posting_lem :
      (ws : List Wallet)
      → write_posting env plan dto key ws db ≡ (ok snap, t)
      → (any (overdraws ws) plan.legs ≡ false)
        × (transaction_conflict (row_of ws) db.transactions ≡ none)
        × (entries_conflict (entries_for ws) db.entries ≡ false)
        × (amounts_on is_debit (entries_for ws) ≡ amounts_on is_credit (entries_for ws))
        × (all_present plan.legs db.wallets ≡ true)
        × (t.wallets ≡ move_all plan.legs db.wallets)
        × (t.transactions
            ≡ update_where
                (has_tx_id plan.mark_reversed_tx_id)
                set_reversed
                (row_of ws ∷ db.transactions))
        × (t.entries ≡ entries_for ws ++ db.entries)
        × (t.keys ≡ db.keys)
        × (t.lock_log ≡ db.lock_log)
  unfolding write_posting next_public_ref create_transaction_row write_balanced_ledger mark_reversed
  write_posting_lem ws h = ground (
    arith,
    assert_sufficient_balance_lem ws plan.legs db,
    apply_balance_deltas_lem plan.legs (record db {
      transactions = row_of ws ∷ db.transactions;
      entries = entries_for ws ++ db.entries;
      public_ref_seq = suc db.public_ref_seq;
    }),
  )

module _ (env : Env) (plan : PostingPlan) (dto : CreateTransactionDto) (key : ℕ) (db t : Db)
    (snap : TransactionSnapshot) where
  write_posting-Executed :
      all (λ id. any (has_id id) (loaded plan db.wallets)) (lock_order plan.legs) ≡ true
      → any (λ w. not (w.currency == plan.currency)) (loaded plan db.wallets) ≡ false
      → write_posting env plan dto key
          (loaded plan db.wallets)
          (with_locks (lock_order plan.legs) db)
        ≡ (ok snap, t)
      → Executed env plan dto key db t
  write_posting-Executed found one_currency h =
      let (
        covered, fresh, unslotted, balanced, present, wallets, transactions, entries, keys, locks,
      ) =
        write_posting_lem env plan dto key (with_locks (lock_order plan.legs) db) t snap
          (loaded plan db.wallets) h in
      record {
        account = or_else (owner_account plan (loaded plan db.wallets)) 0;
        public_ref = public_ref_of env (suc db.public_ref_seq);
        found = found;
        one_currency = one_currency;
        covered = covered;
        fresh = fresh;
        unslotted = unslotted;
        balanced = balanced;
        present = present;
        wallets = wallets;
        transactions = transactions;
        entries = entries;
        keys = keys;
        locks = locks;
      }

  -- A posting that returns has passed each check and made each write.
  pub execute_plan-Executed :
      execute_plan env plan dto key db ≡ (ok snap, t) → Executed env plan dto key db t
  unfolding execute_plan lock_and_load_wallets
  execute_plan-Executed h =
      let locked = rw (lock_wallets_lem (lock_order plan.legs) db) at h in
      elim (Bool-cases
        (all (λ id. any (has_id id) (loaded plan db.wallets)) (lock_order plan.legs))) [
          | inl found ↦
              elim (Bool-cases
                (any (λ w. not (w.currency == plan.currency)) (loaded plan db.wallets))) [
                  | inl other ↦ absurd (err-ne-ok (ap (λ r. r.0) (rw (found, other) at locked)))
                  | inr same ↦ write_posting-Executed found same (rw (found, same) at locked)
                ]
          | inr missing ↦ absurd (err-ne-ok (ap (λ r. r.0) (rw missing at locked)))
        ]
