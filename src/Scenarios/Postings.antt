-- ===== src/Scenarios/Postings.antt =====
-- A deposit through `post` of Api/src/modules/transactions/transactions.service.ts, and a second
-- request with its key.
use vaultchain_fintech_dashb.Prelude.Text.{pad_start}
use vaultchain_fintech_dashb.Prelude.Text.{decimal}
use vaultchain_fintech_dashb.Ledger.Execute.{mark_reversed}
use vaultchain_fintech_dashb.Ledger.Execute.{apply_leg}
use vaultchain_fintech_dashb.Prelude.{
  ℕ, Bool, true, false, none, some, [], ◌∷◌, ◌≡◌, refl, pos, ok, if◌then◌else◌, is_ok, ℤ, ◌+◌,
  arith,
}
use vaultchain_fintech_dashb.Prelude.Text.{codes}
use vaultchain_fintech_dashb.Ledger.Store.{
  transaction_conflict, entries_conflict, Db, Wallet, clearing, deposit, Transaction,
  TransactionSnapshot, posted, roll_back,
}
use vaultchain_fintech_dashb.Ledger.Plan.{plan_kind, plan_for, plan_deposit, lookup_system_wallet}
use vaultchain_fintech_dashb.Ledger.Execute.{
  Env, omitted, execute_plan, lock_and_load_wallets, lock_wallets, lock_order, write_posting,
  assert_sufficient_balance, overdraws, owner_account, next_public_ref, create_transaction_row,
  write_balanced_ledger, plan_entries, next_entry_seq, apply_balance_deltas,
}
use vaultchain_fintech_dashb.Ledger.Post.{
  nobody, Request, post, in_transaction, look_up, claim, post_and_complete, run_claimed,
  post_by_kind,
}
use vaultchain_fintech_dashb.Ledger.Invariant.{IsSound, total}
use vaultchain_fintech_dashb.Ledger.Safety.{IsLedger, KeepLedger, post-IsLedger}
use vaultchain_fintech_dashb.Ledger.Idempotency.{post_replay, posted_key_never_reposts}

abbrev wallet_of : ℕ → Bool → Wallet
wallet_of id is_system = record {
  id = id;
  account_id = 10 + id;
  currency = 949;
  is_system = is_system;
  system_purpose = if is_system then some clearing else none;
  balance = some (record { balance_minor = pos 0; available_balance_minor = pos 0 });
}

abbrev empty_ledger : Db
empty_ledger = record {
  wallets = wallet_of 1 true ∷ wallet_of 2 false ∷ [];
  transactions = [];
  entries = [];
  keys = [];
  public_ref_seq = 0;
  lock_log = [];
}

abbrev env : Env
env = record {
  checked_at = 100;
  claimed_at = 101;
  executed_at = 102;
  year = 2026;
  transaction_id = 7;
  entry_id = λ n. 70 + n;
  driver_target = λ index. omitted;
}

abbrev deposit_request : Request
deposit_request = record {
  dto = record {
    kind = deposit;
    source_wallet_id = none;
    target_wallet_id = some 2;
    original_transaction_id = none;
    amount_minor = 2500;
    currency = 949;
    category_id = none;
    description = none;
  };
  key = 5;
  client_id = 9;
  fingerprint = 77;
  release_works = true;
}

abbrev snapshot : TransactionSnapshot
snapshot = record {
  id = 7;
  public_ref = codes "TX-2026-000001";
  amount_minor = codes "2500";
  currency = 949;
  posted_at = 102;
}

empty_ledger-IsSound : IsSound empty_ledger
empty_ledger-IsSound = record {
  keyed = (refl, (refl, tt));
  reconciled = (refl, (refl, tt));
  covered = ((λ h. omega arith), ((λ h. omega arith), tt));
  paired = λ id. tt;
  owned = tt;
  one_per_key = tt;
  one_reversal = tt;
}

abbrev after_deposit : Db
after_deposit = (post env nobody deposit_request empty_ledger).1

-- The deposit posts.
deposit-posts : post env nobody deposit_request empty_ledger ≡ (ok snapshot, after_deposit)
unfolding post look_up claim run_claimed in_transaction post_and_complete post_by_kind plan_for
    plan_deposit lookup_system_wallet execute_plan lock_and_load_wallets lock_wallets lock_order
    write_posting assert_sufficient_balance overdraws owner_account next_public_ref
    create_transaction_row write_balanced_ledger plan_entries next_entry_seq apply_balance_deltas
    apply_leg mark_reversed decimal pad_start plan_kind transaction_conflict entries_conflict
deposit-posts = refl

-- Nobody else writing keeps every ledger up.
nobody-KeepLedger : (τ : ℤ) → KeepLedger τ nobody
nobody-KeepLedger τ = record {
  at_claim = λ db h. h;
  at_reread = λ db h. h;
  at_posting = λ db h. h;
  at_release = λ db h. h;
}

post-IsLedger_example :
    IsLedger (total empty_ledger.wallets) (post env nobody deposit_request empty_ledger).1
post-IsLedger_example =
    post-IsLedger env nobody deposit_request (total empty_ledger.wallets) empty_ledger
      (nobody-KeepLedger (total empty_ledger.wallets)) (empty_ledger-IsSound, refl)

post_replay_example : post env nobody deposit_request after_deposit ≡ (ok snapshot, after_deposit)
post_replay_example =
    post_replay env deposit_request empty_ledger after_deposit snapshot env nobody deposit_request
      empty_ledger-IsSound deposit-posts refl refl

-- A ledger that has a transaction with the key of the request, and no row of the key.
abbrev old_transaction : Transaction
old_transaction = record {
  id = 3;
  public_ref = codes "TX-2026-000000";
  idempotency_key = 5;
  kind = deposit;
  status = posted;
  account_id = 12;
  category_id = none;
  description = none;
  occurred_at = 1;
  posted_at = 1;
  reversal_of = none;
}

abbrev keyless_ledger : Db
keyless_ledger = record empty_ledger { transactions = old_transaction ∷ [] }

posted_key_never_reposts_example :
    (is_ok (in_transaction env deposit_request keyless_ledger).0 ≡ false)
    × ((in_transaction env deposit_request keyless_ledger).1
        ≡ roll_back keyless_ledger (post_and_complete env deposit_request keyless_ledger).1)
posted_key_never_reposts_example =
    posted_key_never_reposts env deposit_request keyless_ledger
      (record {
        keyed = (refl, (refl, tt));
        reconciled = (refl, (refl, tt));
        covered = ((λ h. omega arith), ((λ h. omega arith), tt));
        paired = λ id. tt;
        owned = tt;
        one_per_key = (refl, tt);
        one_reversal = (refl, tt);
      })
      refl
