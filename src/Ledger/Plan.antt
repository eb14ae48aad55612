-- ===== src/Ledger/Plan.antt =====
-- `planFor` and the five planners of Api/src/modules/transactions/transactions.service.ts: each
-- turns a request into a list of legs, or throws.
use vaultchain_fintech_dashb.Prelude.{
  ℕ, Bool, true, false, not, ◌&&◌, ◌||◌, Option, none, some, List, [], ◌∷◌, map, ◌==◌, find, pure,
  raise, gets, raise_if, or_raise, ◌>>=◌, ◌>>◌,
}
use vaultchain_fintech_dashb.Ledger.Store.{
  Kind, deposit, withdrawal, transfer, fee, adjustment, reversal, Leg, debit, credit,
  TransactionStatus, posted, reversed, SystemPurpose, clearing, revenue, is_debit, is_credit,
  purpose_eq, Wallet, LedgerEntry, Handler, kind_not_implemented, validation_failed, same_wallet,
  system_wallet_missing, original_not_found, already_reversed, not_reversible, reversal_mismatch,
  entries_of, amounts_on,
}

pub record CreateTransactionDto : Type 0 where
  pub kind : Kind
  pub source_wallet_id : Option ℕ
  pub target_wallet_id : Option ℕ
  pub original_transaction_id : Option ℕ
  pub amount_minor : ℕ
  pub currency : ℕ
  pub category_id : Option ℕ
  pub description : Option ℕ

pub record PlannedLeg : Type 0 where
  pub wallet_id : ℕ
  pub leg : Leg
  pub amount : ℕ
  pub balance_checked : Bool

pub record PostingPlan : Type 0 where
  pub kind : Kind
  pub currency : ℕ
  pub amount_minor : ℕ
  pub legs : List PlannedLeg
  pub owner_wallet_id : Option ℕ
  pub owner_account_id : Option ℕ
  pub reversal_of : Option ℕ
  pub mark_reversed_tx_id : Option ℕ

abbrev pub a_leg : ℕ → Leg → ℕ → Bool → PlannedLeg
a_leg wallet leg amount checked = record {
  wallet_id = wallet;
  leg = leg;
  amount = amount;
  balance_checked = checked;
}

abbrev pub wallet_plan : Kind → CreateTransactionDto → ℕ → PlannedLeg → PlannedLeg → PostingPlan
wallet_plan kind dto owner first second = record {
  kind = kind;
  currency = dto.currency;
  amount_minor = dto.amount_minor;
  legs = first ∷ second ∷ [];
  owner_wallet_id = some owner;
  owner_account_id = none;
  reversal_of = none;
  mark_reversed_tx_id = none;
}

abbrev pub serves : ℕ → SystemPurpose → Wallet → Bool
serves currency purpose w =
    w.is_system
    && (w.currency == currency)
    && elim w.system_purpose [ none ↦ false | some p ↦ purpose_eq p purpose ]

unfoldable pub lookup_system_wallet : ℕ → SystemPurpose → Handler ℕ
lookup_system_wallet currency purpose = do
  wallet ← or_raise (← gets (λ db. find (serves currency purpose) db.wallets)) system_wallet_missing
  pure wallet.id

unfoldable pub plan_transfer : CreateTransactionDto → Handler PostingPlan
plan_transfer dto = do
  source ← or_raise dto.source_wallet_id validation_failed
  target ← or_raise dto.target_wallet_id validation_failed
  raise_if (source == target) same_wallet
  pure (
      wallet_plan transfer dto source (a_leg source debit dto.amount_minor true)
        (a_leg target credit dto.amount_minor false))

unfoldable pub plan_deposit : CreateTransactionDto → Handler PostingPlan
plan_deposit dto = do
  target ← or_raise dto.target_wallet_id validation_failed
  system ← lookup_system_wallet dto.currency clearing
  pure (
      wallet_plan deposit dto target (a_leg system debit dto.amount_minor false)
        (a_leg target credit dto.amount_minor false))

-- A withdrawal and a fee differ in the kind and in the system wallet that receives the money.
unfoldable pub plan_outgoing : Kind → SystemPurpose → CreateTransactionDto → Handler PostingPlan
plan_outgoing kind purpose dto = do
  source ← or_raise dto.source_wallet_id validation_failed
  system ← lookup_system_wallet dto.currency purpose
  pure (
      wallet_plan kind dto source (a_leg source debit dto.amount_minor true)
        (a_leg system credit dto.amount_minor false))

unfoldable pub plan_withdrawal : CreateTransactionDto → Handler PostingPlan
plan_withdrawal dto = plan_outgoing withdrawal clearing dto

unfoldable pub plan_fee : CreateTransactionDto → Handler PostingPlan
plan_fee dto = plan_outgoing fee revenue dto

abbrev pub is_reversed : TransactionStatus → Bool
is_reversed reversed = true
is_reversed _ = false

abbrev pub is_posted : TransactionStatus → Bool
is_posted posted = true
is_posted _ = false

abbrev pub mirror : Leg → Leg
mirror debit = credit
mirror credit = debit

abbrev pub mirror_entry : LedgerEntry → PlannedLeg
mirror_entry e = a_leg e.wallet_id (mirror e.leg) e.amount_minor (is_credit e.leg)

-- `original.entries.length === 0`, and else the currency of the first entry.
abbrev pub first_currency : List LedgerEntry → Option ℕ
first_currency [] = none
first_currency (e ∷ es) = some e.currency

unfoldable pub plan_reversal : CreateTransactionDto → Handler PostingPlan
plan_reversal dto = do
  original_id ← or_raise dto.original_transaction_id validation_failed
  original ←
      or_raise (← gets (λ db. find (λ t. t.id == original_id) db.transactions)) original_not_found
  entries ← gets (λ db. entries_of original_id db.entries)
  raise_if (is_reversed original.status) already_reversed
  raise_if (not (is_posted original.status)) not_reversible
  currency ← or_raise (first_currency entries) not_reversible
  raise_if (not (dto.amount_minor == amounts_on is_debit entries) || not (dto.currency == currency))
      reversal_mismatch
  pure (record {
    kind = reversal;
    currency = currency;
    amount_minor = amounts_on is_debit entries;
    legs = map mirror_entry entries;
    owner_wallet_id = none;
    owner_account_id = some original.account_id;
    reversal_of = some original.id;
    mark_reversed_tx_id = some original.id;
  })

unfoldable pub plan_kind : Kind → CreateTransactionDto → Handler PostingPlan
plan_kind transfer dto = plan_transfer dto
plan_kind deposit dto = plan_deposit dto
plan_kind withdrawal dto = plan_withdrawal dto
plan_kind fee dto = plan_fee dto
plan_kind reversal dto = plan_reversal dto
plan_kind adjustment dto = raise kind_not_implemented

unfoldable pub plan_for : CreateTransactionDto → Handler PostingPlan
plan_for dto = plan_kind dto.kind dto
