-- ===== src/Ledger/Store.antt =====
-- The tables that a posting reads and writes (Api/prisma/schema.prisma), with the UNIQUE
-- constraints that an insert may trip. Ids and the texts that the code only stores or compares
-- (currencies, descriptions, request keys) are numbers; amounts are positive BigInts.
use vaultchain_fintech_dashb.Prelude.{
  ℕ, ◌+◌, Bool, true, false, ◌&&◌, ◌||◌, Option, none, some, List, [], ◌∷◌, ◌==◌, if◌then◌else◌,
  find, any, ℤ, Action,
}
use vaultchain_fintech_dashb.Prelude.Text.{Text, text_eq}

pub data Kind : Type 0 where
  deposit withdrawal transfer fee adjustment reversal : Kind

pub data Leg : Type 0 where
  debit credit : Leg

pub data TransactionStatus : Type 0 where
  pending posted failed reversed : TransactionStatus

pub data SystemPurpose : Type 0 where
  clearing revenue : SystemPurpose

pub data KeyState : Type 0 where
  in_progress completed : KeyState

abbrev pub is_debit : Leg → Bool
is_debit debit = true
is_debit credit = false

abbrev pub is_credit : Leg → Bool
is_credit debit = false
is_credit credit = true

abbrev pub purpose_eq : SystemPurpose → SystemPurpose → Bool
purpose_eq clearing clearing = true
purpose_eq revenue revenue = true
purpose_eq _ _ = false

pub record Balance : Type 0 where
  pub balance_minor : ℤ
  pub available_balance_minor : ℤ

-- A wallet joined with its row of `wallet_balances`, if it has one.
pub record Wallet : Type 0 where
  pub id : ℕ
  pub account_id : ℕ
  pub currency : ℕ
  pub is_system : Bool
  pub system_purpose : Option SystemPurpose
  pub balance : Option Balance

pub record Transaction : Type 0 where
  pub id : ℕ
  pub public_ref : Text
  pub idempotency_key : ℕ
  pub kind : Kind
  pub status : TransactionStatus
  pub account_id : ℕ
  pub category_id : Option ℕ
  pub description : Option ℕ
  pub occurred_at : ℕ
  pub posted_at : ℕ
  pub reversal_of : Option ℕ

pub record LedgerEntry : Type 0 where
  pub id : ℕ
  pub transaction_id : ℕ
  pub wallet_id : ℕ
  pub account_id : ℕ
  pub leg : Leg
  pub amount_minor : ℕ
  pub currency : ℕ
  pub entry_seq : ℕ

-- What a posting returns; its status is always 'POSTED'.
pub record TransactionSnapshot : Type 0 where
  pub id : ℕ
  pub public_ref : Text
  pub amount_minor : Text
  pub currency : ℕ
  pub posted_at : ℕ

pub record IdempotencyKey : Type 0 where
  pub key : ℕ
  pub client_id : ℕ
  pub request_fingerprint : ℕ
  pub state : KeyState
  pub response_status : Option ℕ
  pub response_body_json : Option TransactionSnapshot
  pub created_at : ℕ
  pub expires_at : ℕ

pub record Db : Type 0 where
  pub wallets : List Wallet
  pub transactions : List Transaction
  pub entries : List LedgerEntry
  pub keys : List IdempotencyKey
  -- The last value of `transaction_public_ref_seq`.
  pub public_ref_seq : ℕ
  -- The ids whose rows `SELECT ... FOR UPDATE` has asked to lock, in the order of the statements.
  pub lock_log : List ℕ

pub data UniqueIndex : Type 0 where
  transactions_pkey transactions_public_ref_key transactions_idempotency_key_key : UniqueIndex
  transactions_reversal_of_key ledger_entries_wallet_id_entry_seq_key : UniqueIndex
  idempotency_keys_pkey : UniqueIndex

-- The exceptions, named for their codes; the last three are not HttpExceptions.
pub data LedgerError : Type 0 where
  kind_not_implemented key_conflict in_flight validation_failed same_wallet : LedgerError
  system_wallet_missing original_not_found already_reversed not_reversible : LedgerError
  reversal_mismatch wallet_not_found cross_currency insufficient_balance : LedgerError
  invariant_violated record_not_found : LedgerError
  unique_violation : UniqueIndex → LedgerError

abbrev pub Handler : Type 0 → Type 0
Handler A = Action LedgerError Db A

-- A rollback restores every table; a sequence and the log of the statements do not go back.
abbrev pub roll_back : Db → Db → Db
roll_back before at_throw = record before {
  public_ref_seq = at_throw.public_ref_seq;
  lock_log = at_throw.lock_log;
}

abbrev pub has_id : ℕ → Wallet → Bool
has_id id w = w.id == id

-- The index that an INSERT into `transactions` trips, if any; NULLs are distinct.
abbrev pub same_reversal : Option ℕ → Option ℕ → Bool
same_reversal (some a) (some b) = a == b
same_reversal _ _ = false

unfoldable pub transaction_conflict : Transaction → List Transaction → Option UniqueIndex
transaction_conflict row txs =
    if any (λ t. t.id == row.id) txs
    then some transactions_pkey
    else if any (λ t. text_eq t.public_ref row.public_ref) txs
    then some transactions_public_ref_key
    else if any (λ t. t.idempotency_key == row.idempotency_key) txs
    then some transactions_idempotency_key_key
    else if any (λ t. same_reversal t.reversal_of row.reversal_of) txs
    then some transactions_reversal_of_key
    else none

abbrev pub same_slot : LedgerEntry → LedgerEntry → Bool
same_slot e f = e.wallet_id == f.wallet_id && e.entry_seq == f.entry_seq

-- INSERT of many rows into `ledger_entries`, one after the other.
unfoldable pub entries_conflict : List LedgerEntry → List LedgerEntry → Bool
entries_conflict [] old = false
entries_conflict (e ∷ es) old = any (same_slot e) old || entries_conflict es (e ∷ old)

abbrev pub find_key : ℕ → List IdempotencyKey → Option IdempotencyKey
find_key k rows = find (λ r. r.key == k) rows

abbrev pub entries_of : ℕ → List LedgerEntry → List LedgerEntry
entries_of tx [] = []
entries_of tx (e ∷ es) =
    let rest = entries_of tx es in if e.transaction_id == tx then e ∷ rest else rest

abbrev pub amounts_on : (Leg → Bool) → List LedgerEntry → ℕ
amounts_on side [] = 0
amounts_on side (e ∷ es) = (if side e.leg then e.amount_minor else 0) + amounts_on side es
