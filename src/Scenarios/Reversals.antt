-- ===== src/Scenarios/Reversals.antt =====
-- A deposit that is reversed, a second request to reverse it, and a transfer.
use vaultchain_fintech_dashb.Prelude.{
  ◌+ℤ◌, ◌-ℤ◌, ℕ, Bool, true, false, none, some, [], ◌∷◌, ◌≡◌, refl, pos, ok, Bool-cases, is_ok,
  arith, negsuc, ℤ, ◌+◌, if◌then◌else◌, ◌==◌, inl, inr, find, filter, List, ◌++◌, any,
}
use vaultchain_fintech_dashb.Prelude.Text.{codes, decimal, pad_start}
use vaultchain_fintech_dashb.Ledger.Store.{
  Db, Wallet, clearing, debit, credit, deposit, reversal, Transaction, TransactionSnapshot,
  LedgerEntry, posted, transaction_conflict, entries_conflict, roll_back, Leg, entries_of, transfer,
  has_id,
}
use vaultchain_fintech_dashb.Ledger.Transfers.{transfer_moves, is_third}
use vaultchain_fintech_dashb.Ledger.Plan.{
  plan_transfer, plan_kind, plan_for, plan_reversal, PostingPlan, a_leg,
}
use vaultchain_fintech_dashb.Ledger.Execute.{
  Env, execute_plan, lock_and_load_wallets, lock_wallets, lock_order, write_posting,
  assert_sufficient_balance, overdraws, owner_account, next_public_ref, create_transaction_row,
  write_balanced_ledger, plan_entries, next_entry_seq, apply_balance_deltas, apply_leg,
  mark_reversed, omitted, contains,
}
use vaultchain_fintech_dashb.Ledger.Post.{
  Request, post_by_kind, post_and_complete, in_transaction, claimed_key,
}
use vaultchain_fintech_dashb.Ledger.Invariant.{IsSound, IsPaired}
use vaultchain_fintech_dashb.Ledger.Reversal.{reverse_once}
use vaultchain_fintech_dashb.Ledger.Locks.{IsAscending, execute_plan-IsAscending}

abbrev wallet_of : ℕ → Bool → ℤ → Wallet
wallet_of id is_system amount = record {
  id = id;
  account_id = 10 + id;
  currency = 949;
  is_system = is_system;
  system_purpose = if is_system then some clearing else none;
  balance = some (record { balance_minor = amount; available_balance_minor = amount });
}

abbrev entry_of : ℕ → ℕ → Leg → LedgerEntry
entry_of id wallet leg = record {
  id = id;
  transaction_id = 7;
  wallet_id = wallet;
  account_id = 10 + wallet;
  leg = leg;
  amount_minor = 25;
  currency = 949;
  entry_seq = 1;
}

abbrev deposited : Transaction
deposited = record {
  id = 7;
  public_ref = codes "TX-2026-000001";
  idempotency_key = 5;
  kind = deposit;
  status = posted;
  account_id = 12;
  category_id = none;
  description = none;
  occurred_at = 1;
  posted_at = 1;
  reversal_of = none;
}

abbrev env : Env
env = record {
  checked_at = 100;
  claimed_at = 101;
  executed_at = 102;
  year = 2026;
  transaction_id = 8;
  entry_id = λ n. 80 + n;
  driver_target = λ index. omitted;
}

abbrev reverse_with : ℕ → Request
reverse_with key = record {
  dto = record {
    kind = reversal;
    source_wallet_id = none;
    target_wallet_id = none;
    original_transaction_id = some 7;
    amount_minor = 25;
    currency = 949;
    category_id = none;
    description = none;
  };
  key = key;
  client_id = 9;
  fingerprint = 78;
  release_works = true;
}

-- The ledger after a deposit of 25, with the key of the first reversal claimed.
abbrev ledger : Db
ledger = record {
  wallets = wallet_of 1 true (negsuc 24) ∷ wallet_of 2 false (pos 25) ∷ [];
  transactions = deposited ∷ [];
  entries = entry_of 70 1 debit ∷ entry_of 71 2 credit ∷ [];
  keys = claimed_key env (reverse_with 6) ∷ [];
  public_ref_seq = 1;
  lock_log = [];
}

ledger-IsPaired : (id : ℕ) → IsPaired (entries_of id ledger.entries)
ledger-IsPaired id = elim (Bool-cases (7 == id)) [ inl e ↦ rw e (refl, refl) | inr e ↦ rw e tt ]

ledger-IsSound : IsSound ledger
unfolding ◌+ℤ◌ ◌-ℤ◌
ledger-IsSound = record {
  keyed = (refl, (refl, tt));
  reconciled = (refl, (refl, tt));
  covered = ((λ h. cc h), ((λ h. omega arith), tt));
  paired = ledger-IsPaired;
  owned = (refl, (refl, tt));
  one_per_key = (refl, tt);
  one_reversal = (refl, tt);
}

abbrev reversed_ledger : Db
reversed_ledger = (in_transaction env (reverse_with 6) ledger).1

abbrev snapshot : TransactionSnapshot
snapshot = record {
  id = 8;
  public_ref = codes "TX-2026-000002";
  amount_minor = codes "25";
  currency = 949;
  posted_at = 102;
}

reversal-commits : in_transaction env (reverse_with 6) ledger ≡ (ok snapshot, reversed_ledger)
unfolding in_transaction post_and_complete post_by_kind plan_for plan_kind plan_reversal
    execute_plan lock_and_load_wallets lock_wallets lock_order write_posting
    assert_sufficient_balance overdraws owner_account next_public_ref create_transaction_row
    transaction_conflict write_balanced_ledger entries_conflict plan_entries next_entry_seq
    apply_balance_deltas apply_leg mark_reversed decimal pad_start
reversal-commits = refl

reverse_once_example :
    (is_ok (in_transaction env (reverse_with 9) reversed_ledger).0 ≡ false)
    × ((in_transaction env (reverse_with 9) reversed_ledger).1
        ≡ roll_back reversed_ledger (post_and_complete env (reverse_with 9) reversed_ledger).1)
reverse_once_example =
    reverse_once env env (reverse_with 6) (reverse_with 9) 7 ledger reversed_ledger snapshot
      ledger-IsSound (refl, refl) (refl, refl) reversal-commits

abbrev transfer_request : Request
transfer_request = record (reverse_with 6) {
  dto = record {
    kind = transfer;
    source_wallet_id = some 2;
    target_wallet_id = some 1;
    original_transaction_id = none;
    amount_minor = 10;
    currency = 949;
    category_id = none;
    description = none;
  };
}

abbrev transferred : Db
transferred = (post_by_kind env transfer_request ledger).1

transfer-posts :
    post_by_kind env transfer_request ledger
    ≡ (ok (record snapshot { amount_minor = codes "10" }), transferred)
unfolding post_by_kind plan_for plan_kind plan_transfer execute_plan lock_and_load_wallets
    lock_wallets lock_order write_posting assert_sufficient_balance overdraws owner_account
    next_public_ref create_transaction_row transaction_conflict write_balanced_ledger
    entries_conflict plan_entries next_entry_seq apply_balance_deltas apply_leg mark_reversed
    decimal pad_start
transfer-posts = refl

transfer_moves_example :
    ((2 == 1) ≡ false)
    × (find (has_id 2) transferred.wallets ≡ some (wallet_of 2 false (pos 15)))
    × (find (has_id 1) transferred.wallets ≡ some (wallet_of 1 true (negsuc 14)))
    × (filter (is_third 2 1) transferred.wallets ≡ filter (is_third 2 1) ledger.wallets)
unfolding ◌+ℤ◌ ◌-ℤ◌
transfer_moves_example =
    transfer_moves env transfer_request 2 1 (wallet_of 2 false (pos 25))
      (wallet_of 1 true (negsuc 24))
      (record { balance_minor = pos 25; available_balance_minor = pos 25 })
      (record { balance_minor = negsuc 24; available_balance_minor = negsuc 24 }) ledger transferred
      (record snapshot { amount_minor = codes "10" }) ledger-IsSound refl refl refl refl refl refl
      refl transfer-posts

-- The plan of the transfer: its legs name the wallets 2 and 1, and the locks are asked for in the
-- order of the ids.
abbrev transfer_plan : PostingPlan
transfer_plan = record {
  kind = transfer;
  currency = 949;
  amount_minor = 10;
  legs = a_leg 2 debit 10 true ∷ a_leg 1 credit 10 false ∷ [];
  owner_wallet_id = some 2;
  owner_account_id = none;
  reversal_of = none;
  mark_reversed_tx_id = none;
}

abbrev executed : Db
executed = (execute_plan env transfer_plan transfer_request.dto 6 ledger).1

transfer-executes :
    execute_plan env transfer_plan transfer_request.dto 6 ledger
    ≡ (ok (record snapshot { amount_minor = codes "10" }), executed)
unfolding execute_plan lock_and_load_wallets lock_wallets lock_order write_posting
    assert_sufficient_balance overdraws owner_account next_public_ref create_transaction_row
    transaction_conflict write_balanced_ledger entries_conflict plan_entries next_entry_seq
    apply_balance_deltas apply_leg mark_reversed decimal pad_start
transfer-executes = refl

locked_in_order : executed.lock_log ≡ 1 ∷ 2 ∷ []
unfolding execute_plan lock_and_load_wallets lock_wallets lock_order write_posting
    assert_sufficient_balance overdraws owner_account next_public_ref create_transaction_row
    transaction_conflict write_balanced_ledger entries_conflict plan_entries next_entry_seq
    apply_balance_deltas apply_leg mark_reversed decimal pad_start
locked_in_order = refl

execute_plan-IsAscending_example :
    (ids : List ℕ) × (executed.lock_log ≡ ledger.lock_log ++ ids)
    × IsAscending ids
    × (contains 1 ids ≡ any (λ l. l.wallet_id == 1) transfer_plan.legs)
execute_plan-IsAscending_example =
    execute_plan-IsAscending env transfer_plan transfer_request.dto 6 1 ledger executed
      (record snapshot { amount_minor = codes "10" }) transfer-executes
