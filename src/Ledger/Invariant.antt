-- ===== src/Ledger/Invariant.antt =====
-- What holds of the ledger's tables between two requests.
pub mod Wallets
pub mod Rows
pub mod Plans
pub mod Posting
use vaultchain_fintech_dashb.Prelude.{
  ℕ, ◌+◌, Bool, true, false, not, ◌&&◌, Option, none, some, List, [], ◌∷◌, ◌≡◌, ◌==◌, if◌then◌else◌,
  any, ℤ, pos, ◌+ℤ◌, ◌≤ℤ◌,
}
use vaultchain_fintech_dashb.Ledger.Store.{
  Balance, Wallet, Transaction, LedgerEntry, Db, has_id, same_reversal, entries_of,
}
use vaultchain_fintech_dashb.Ledger.Plan.{mirror}
use vaultchain_fintech_dashb.Ledger.Execute.{available, moved}

-- No two wallets have one id.
abbrev pub IsKeyed : List Wallet → Type 0
IsKeyed [] = Unit
IsKeyed (w ∷ ws) = (any (has_id w.id) ws ≡ false) × IsKeyed ws

-- The balance of a wallet, and the sum over all wallets.
abbrev pub balance_of : Option Balance → ℤ
balance_of none = pos 0
balance_of (some b) = b.balance_minor

abbrev pub total : List Wallet → ℤ
total [] = pos 0
total (w ∷ ws) = balance_of w.balance +ℤ total ws

-- What the entries of a wallet sum to: credits less debits.
abbrev pub net : ℕ → List LedgerEntry → ℤ
net id [] = pos 0
net id (e ∷ es) = if e.wallet_id == id then moved e.leg e.amount_minor (net id es) else net id es

abbrev pub BalanceIs : ℤ → Option Balance → Type 0
BalanceIs n none = Unit
BalanceIs n (some b) = b.balance_minor ≡ n

-- Every stored balance is the sum of the wallet's ledger entries.
abbrev pub IsReconciled : List LedgerEntry → List Wallet → Type 0
IsReconciled es [] = Unit
IsReconciled es (w ∷ ws) = BalanceIs (net w.id es) w.balance × IsReconciled es ws

-- No customer wallet is overdrawn.
abbrev pub IsCovered : List Wallet → Type 0
IsCovered [] = Unit
IsCovered (w ∷ ws) = (w.is_system ≡ false → pos 0 ≤ℤ available w) × IsCovered ws

-- The entries of one transaction are a debit and a credit of one amount (or there are none).
abbrev pub IsPaired : List LedgerEntry → Type 0
IsPaired [] = Unit
IsPaired (e ∷ []) = ⊥
IsPaired (e ∷ f ∷ []) = (f.leg ≡ mirror e.leg) × (f.amount_minor ≡ e.amount_minor)
IsPaired (e ∷ f ∷ g ∷ es) = ⊥

-- Every entry belongs to a stored transaction.
abbrev pub IsOwned : List Transaction → List LedgerEntry → Type 0
IsOwned txs [] = Unit
IsOwned txs (e ∷ es) = (any (λ t. t.id == e.transaction_id) txs ≡ true) × IsOwned txs es

-- One transaction for each idempotency key, and one reversal of each transaction.
abbrev pub HasOnePerKey : List Transaction → Type 0
HasOnePerKey [] = Unit
HasOnePerKey (t ∷ ts) =
    (any (λ u. u.idempotency_key == t.idempotency_key) ts ≡ false) × HasOnePerKey ts

abbrev pub HasOneReversal : List Transaction → Type 0
HasOneReversal [] = Unit
HasOneReversal (t ∷ ts) =
    (any (λ u. same_reversal u.reversal_of t.reversal_of) ts ≡ false) × HasOneReversal ts

pub record IsSound (db : Db) : Type 0 where
  pub keyed : IsKeyed db.wallets
  pub reconciled : IsReconciled db.entries db.wallets
  pub covered : IsCovered db.wallets
  pub paired : (id : ℕ) → IsPaired (entries_of id db.entries)
  pub owned : IsOwned db.transactions db.entries
  pub one_per_key : HasOnePerKey db.transactions
  pub one_reversal : HasOneReversal db.transactions
