-- ===== src/Ledger/Execute.antt =====
-- `executePlan` of Api/src/modules/transactions/transactions.service.ts: the writes of one posting,
-- inside the interactive transaction that `post` opens.
pub mod Outcome
use vaultchain_fintech_dashb.Prelude.{
  ℕ, suc, ◌+◌, Bool, true, false, not, ◌&&◌, ◌||◌, Option, none, some, List, [], ◌∷◌, ◌++◌, map,
  ltb, leb, ◌==◌, if◌then◌else◌, is_some, is_none, find, filter, any, all, update_where, ℤ, pos,
  ◌+ℤ◌, ◌-ℤ◌, ltb_ℤ, ◌>>=◌, ◌>>◌, pure, raise, gets, modify, raise_if, or_raise,
}
use vaultchain_fintech_dashb.Prelude.Text.{Text, codes, includes, to_lower, decimal, pad_start}
use vaultchain_fintech_dashb.Ledger.Store.{
  Kind, Leg, debit, credit, posted, reversed, is_debit, is_credit, Balance, Wallet, Transaction,
  LedgerEntry, TransactionSnapshot, Db, UniqueIndex, ledger_entries_wallet_id_entry_seq_key,
  LedgerError, already_reversed, key_conflict, wallet_not_found, cross_currency,
  insufficient_balance, invariant_violated, record_not_found, unique_violation, Handler, has_id,
  transaction_conflict, entries_conflict, amounts_on,
}
use vaultchain_fintech_dashb.Ledger.Plan.{CreateTransactionDto, PlannedLeg, PostingPlan}

-- What Prisma's driver reports of a UNIQUE violation: `error.meta.target`.
pub data MetaTarget : Type 0 where
  fields : List Text → MetaTarget
  constraint : Text → MetaTarget
  omitted : MetaTarget

-- What a posting takes from outside: the clock, the ids that `uuidv7` makes, the driver.
pub record Env : Type 0 where
  pub checked_at : ℕ
  pub claimed_at : ℕ
  pub executed_at : ℕ
  pub year : ℕ
  pub transaction_id : ℕ
  -- The id of the n-th entry.
  pub entry_id : ℕ → ℕ
  pub driver_target : UniqueIndex → MetaTarget

abbrev pub join_spaces : List Text → Text
join_spaces [] = []
join_spaces (s ∷ []) = s
join_spaces (s ∷ t ∷ rest) = s ++ (b' ' ∷ join_spaces (t ∷ rest))

unfoldable pub p2002_target_text : MetaTarget → Text
p2002_target_text (fields names) = map to_lower (join_spaces names)
p2002_target_text (constraint name) = map to_lower name
p2002_target_text omitted = []

-- `[...new Set(ids)].sort()`.
abbrev pub insert_id : ℕ → List ℕ → List ℕ
insert_id x [] = x ∷ []
insert_id x (y ∷ ys) =
    let rest = y ∷ insert_id x ys in if x == y then y ∷ ys else if ltb x y then x ∷ y ∷ ys else rest

-- The order in which the wallets of a plan are locked.
unfoldable pub lock_order : List PlannedLeg → List ℕ
lock_order [] = []
lock_order (l ∷ ls) = insert_id l.wallet_id (lock_order ls)

abbrev pub contains : ℕ → List ℕ → Bool
contains x [] = false
contains x (y ∷ ys) = x == y || contains x ys

-- `for (const id of walletIds)`, with a `SELECT ... FOR UPDATE` each.
unfoldable pub lock_wallets : List ℕ → Handler (Unit {0})
lock_wallets [] = pure tt
lock_wallets (id ∷ ids) = do
  modify (λ db. record db { lock_log = db.lock_log ++ (id ∷ []) })
  lock_wallets ids

unfoldable pub lock_and_load_wallets : PostingPlan → Handler (List Wallet)
lock_and_load_wallets plan = do
  let ids = lock_order plan.legs
  lock_wallets ids
  wallets ← gets (λ db. filter (λ w. contains w.id ids) db.wallets)
  raise_if (not (all (λ id. any (has_id id) wallets) ids)) wallet_not_found
  raise_if (any (λ w. not (w.currency == plan.currency)) wallets) cross_currency
  pure wallets

abbrev pub available : Wallet → ℤ
available w = elim w.balance [ none ↦ pos 0 | some b ↦ b.available_balance_minor ]

abbrev pub short_of : ℕ → Option Wallet → Bool
short_of amount none = false
short_of amount (some w) = not w.is_system && ltb_ℤ (available w) (pos amount)

-- A checked debit that the wallet, if it is a customer's, does not cover.
unfoldable pub overdraws : List Wallet → PlannedLeg → Bool
overdraws wallets l =
    is_debit l.leg && (l.balance_checked && short_of l.amount (find (has_id l.wallet_id) wallets))

unfoldable pub assert_sufficient_balance : List Wallet → List PlannedLeg → Handler (Unit {0})
assert_sufficient_balance wallets [] = pure tt
assert_sufficient_balance wallets (l ∷ ls) = do
  raise_if (overdraws wallets l) insufficient_balance
  assert_sufficient_balance wallets ls

-- The account that the transaction is filed under; a missing wallet would be a TypeError.
unfoldable pub owner_account : PostingPlan → List Wallet → Option ℕ
owner_account plan wallets = elim plan.owner_account_id [
  | some account ↦ some account
  | none ↦ elim plan.owner_wallet_id [
    | none ↦ none
    | some id ↦ elim (find (has_id id) wallets) [ none ↦ none | some w ↦ some w.account_id ]
  ]
]

abbrev pub public_ref_of : Env → ℕ → Text
public_ref_of env v = codes "TX-" ++ (decimal env.year ++ (codes "-" ++ pad_start 6 (decimal v)))

unfoldable pub next_public_ref : Env → Handler Text
next_public_ref env = do
  modify (λ db. record db { public_ref_seq = suc db.public_ref_seq })
  v ← gets (λ db. db.public_ref_seq)
  pure (public_ref_of env v)

-- The exception that a tripped UNIQUE index becomes.
unfoldable pub classify : Option ℕ → MetaTarget → UniqueIndex → LedgerError
classify reversal_of target index =
    let text = p2002_target_text target in
    if includes (codes "reversal") text
    then already_reversed
    else if includes (codes "idempotency") text
    then key_conflict
    else if (elim text [ [] ↦ true | _ ∷ _ ↦ false ]) && is_some reversal_of
    then already_reversed
    else unique_violation index

unfoldable pub create_transaction_row : Env → Transaction → Handler (Unit {0})
create_transaction_row env row = do
  conflict ← gets (λ db. transaction_conflict row db.transactions)
  elim conflict [
    | some index ↦ raise (classify row.reversal_of (env.driver_target index) index)
    | none ↦ modify (λ db. record db { transactions = row ∷ db.transactions })
  ]

-- `SELECT COALESCE(MAX(entry_seq), 0)`, and 1 more.
abbrev pub max_seq : ℕ → List LedgerEntry → ℕ
max_seq wallet [] = 0
max_seq wallet (e ∷ es) =
    let rest = max_seq wallet es in
    if e.wallet_id == wallet && ltb rest e.entry_seq then e.entry_seq else rest

unfoldable pub next_entry_seq : ℕ → List LedgerEntry → ℕ
next_entry_seq wallet entries = suc (max_seq wallet entries)

-- The row for the n-th leg; `old` are the rows before the posting.
abbrev pub entry_for :
    Env → PostingPlan → List Wallet → List LedgerEntry → ℕ → PlannedLeg → LedgerEntry
entry_for env plan wallets old n l = record {
  id = env.entry_id n;
  transaction_id = env.transaction_id;
  wallet_id = l.wallet_id;
  account_id = elim (find (has_id l.wallet_id) wallets) [ none ↦ 0 | some w ↦ w.account_id ];
  leg = l.leg;
  amount_minor = l.amount;
  currency = plan.currency;
  entry_seq = next_entry_seq l.wallet_id old;
}

-- The rows for the legs, whose sequence numbers are all read before any row is written.
unfoldable pub plan_entries :
    Env → PostingPlan → List Wallet → List LedgerEntry → ℕ → List PlannedLeg → List LedgerEntry
plan_entries env plan wallets old n [] = []
plan_entries env plan wallets old n (l ∷ ls) =
    entry_for env plan wallets old n l ∷ plan_entries env plan wallets old (suc n) ls

unfoldable pub write_balanced_ledger : Env → PostingPlan → List Wallet → Handler (Unit {0})
write_balanced_ledger env plan wallets = do
  entries ← gets (λ db. plan_entries env plan wallets db.entries 0 plan.legs)
  raise_if (← gets (λ db. entries_conflict entries db.entries))
      (unique_violation ledger_entries_wallet_id_entry_seq_key)
  modify (λ db. record db { entries = entries ++ db.entries })
  raise_if (not (amounts_on is_debit entries == amounts_on is_credit entries)) invariant_violated

abbrev pub moved : Leg → ℕ → ℤ → ℤ
moved debit amount b = b -ℤ pos amount
moved credit amount b = b +ℤ pos amount

abbrev pub move_balance : Leg → ℕ → Balance → Balance
move_balance leg amount b = record {
  balance_minor = moved leg amount b.balance_minor;
  available_balance_minor = moved leg amount b.available_balance_minor;
}

abbrev pub move_wallet : Leg → ℕ → Wallet → Wallet
move_wallet leg amount w = record w {
  balance = elim w.balance [ none ↦ none | some b ↦ some (move_balance leg amount b) ];
}

abbrev pub has_balance : ℕ → Wallet → Bool
has_balance id w = has_id id w && is_some w.balance

-- One `walletBalance.update`, which throws where there is no such row.
unfoldable pub apply_leg : PlannedLeg → Handler (Unit {0})
apply_leg l = do
  raise_if (not (← gets (λ db. any (has_balance l.wallet_id) db.wallets))) record_not_found
  modify (λ db. record db {
    wallets = update_where (has_id l.wallet_id) (move_wallet l.leg l.amount) db.wallets;
  })

unfoldable pub apply_balance_deltas : List PlannedLeg → Handler (Unit {0})
apply_balance_deltas [] = pure tt
apply_balance_deltas (l ∷ ls) = do apply_leg l; apply_balance_deltas ls

abbrev pub has_tx_id : Option ℕ → Transaction → Bool
has_tx_id none t = false
has_tx_id (some id) t = t.id == id

unfoldable pub mark_reversed : Option ℕ → Handler (Unit {0})
mark_reversed target = modify (λ db. record db {
  transactions =
      update_where (has_tx_id target) (λ t. record t { status = reversed }) db.transactions;
})

abbrev pub new_transaction : Env → PostingPlan → CreateTransactionDto → ℕ → ℕ → Text → Transaction
new_transaction env plan dto key account public_ref = record {
  id = env.transaction_id;
  public_ref = public_ref;
  idempotency_key = key;
  kind = plan.kind;
  status = posted;
  account_id = account;
  category_id = dto.category_id;
  description = dto.description;
  occurred_at = env.executed_at;
  posted_at = env.executed_at;
  reversal_of = plan.reversal_of;
}

-- The steps after the wallets are locked and loaded.
unfoldable pub write_posting :
    Env → PostingPlan → CreateTransactionDto → ℕ → List Wallet → Handler TransactionSnapshot
write_posting env plan dto key wallets = do
  assert_sufficient_balance wallets plan.legs
  account ← or_raise (owner_account plan wallets) record_not_found
  public_ref ← next_public_ref env
  create_transaction_row env (new_transaction env plan dto key account public_ref)
  write_balanced_ledger env plan wallets
  apply_balance_deltas plan.legs
  mark_reversed plan.mark_reversed_tx_id
  pure (record {
    id = env.transaction_id;
    public_ref = public_ref;
    amount_minor = decimal plan.amount_minor;
    currency = plan.currency;
    posted_at = env.executed_at;
  })

unfoldable pub execute_plan :
    Env → PostingPlan → CreateTransactionDto → ℕ → Handler TransactionSnapshot
execute_plan env plan dto key = lock_and_load_wallets plan >>= write_posting env plan dto key
