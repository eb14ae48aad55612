-- ===== src/Ledger/Invariant/Wallets.antt =====
-- What one leg does to the wallets: ids stay, the total moves by the amount, the balance follows
-- its entries, and a covered debit leaves no customer wallet below zero.
use vaultchain_fintech_dashb.Prelude.{
  ℕ, true, false, List, [], ◌∷◌, ◌≡◌, refl, arith, ◌==◌, any, update_where, ℤ, pos, ◌+ℤ◌, ◌≤ℤ◌,
  int_laws, Bool-cases, inl, inr, Option-cases, +ℤ_parts, -ℤ_parts,
}
use vaultchain_fintech_dashb.Ledger.Store.{Leg, debit, credit, Wallet, LedgerEntry, has_id}
use vaultchain_fintech_dashb.Ledger.Execute.{available, moved, move_wallet, has_balance}
use vaultchain_fintech_dashb.Ledger.Invariant.{IsKeyed, total, IsReconciled, IsCovered, balance_of}

moved-+ℤ_left : (leg : Leg) (n : ℕ) (a b : ℤ) → moved leg n a +ℤ b ≡ moved leg n (a +ℤ b)
moved-+ℤ_left debit n a b = omega int_laws
moved-+ℤ_left credit n a b = omega int_laws

moved-+ℤ_right : (leg : Leg) (n : ℕ) (a b : ℤ) → a +ℤ moved leg n b ≡ moved leg n (a +ℤ b)
moved-+ℤ_right debit n a b = omega int_laws
moved-+ℤ_right credit n a b = omega int_laws

any-has_balance :
    (id : ℕ) (ws : List Wallet) → any (has_id id) ws ≡ false → any (has_balance id) ws ≡ false
any-has_balance id [] h = refl
any-has_balance id (w ∷ ws) h = ground (arith, any-has_balance id ws)

-- A credit lowers no balance, and a covered debit takes none below zero.
available-move_credit : (n : ℕ) (w : Wallet) → available w ≤ℤ available (move_wallet credit n w)
available-move_credit n w = elim (Option-cases w.balance) [
  | inl e ↦ ground arith
  | inr (b, e) ↦ ground (arith, +ℤ_parts b.available_balance_minor (pos n))
]

available-move_debit :
    (n : ℕ) (w : Wallet)
    → pos 0 ≤ℤ available w
    → pos n ≤ℤ available w
    → pos 0 ≤ℤ available (move_wallet debit n w)
available-move_debit n w p q = elim (Option-cases w.balance) [
  | inl e ↦ ground arith
  | inr (b, e) ↦ ground (arith, -ℤ_parts b.available_balance_minor (pos n))
]

module _ (id : ℕ) (leg : Leg) (amount : ℕ) where
  -- The write of one leg.
  abbrev pub step : List Wallet → List Wallet
  step ws = update_where (has_id id) (move_wallet leg amount) ws

  pub any-step : (k : ℕ) (ws : List Wallet) → any (has_id k) (step ws) ≡ any (has_id k) ws
  any-step k [] = refl
  any-step k (w ∷ ws) = ground (arith, any-step k ws)

  pub step-IsKeyed : (ws : List Wallet) → IsKeyed ws → IsKeyed (step ws)
  step-IsKeyed [] h = tt
  step-IsKeyed (w ∷ ws) h = ground (arith, any-step w.id ws, step-IsKeyed ws h.1)

  step_absent : (ws : List Wallet) → any (has_id id) ws ≡ false → step ws ≡ ws
  step_absent [] h = refl
  step_absent (w ∷ ws) h = ground (arith, step_absent ws)

  pub total-step :
      (ws : List Wallet)
      → IsKeyed ws
      → any (has_balance id) ws ≡ true
      → total (step ws) ≡ moved leg amount (total ws)
  total-step [] h e = cc
  total-step (w ∷ ws) h e = elim (Bool-cases (w.id == id)) [
    | inl same ↦ ground (
      arith,
      step_absent ws,
      any-has_balance id ws,
      moved-+ℤ_left leg amount (balance_of w.balance) (total ws),
    )
    | inr other ↦
        ground
          (arith, total-step ws h.1, moved-+ℤ_right leg amount (balance_of w.balance) (total ws))
  ]

  pub step-IsReconciled :
      (e : LedgerEntry) (es : List LedgerEntry) (ws : List Wallet)
      → e.wallet_id ≡ id
      → e.leg ≡ leg
      → e.amount_minor ≡ amount
      → IsReconciled es ws
      → IsReconciled (e ∷ es) (step ws)
  step-IsReconciled e es [] p q r h = tt
  step-IsReconciled e es (w ∷ ws) p q r h = ground (arith, step-IsReconciled e es ws p q r h.1)

  -- Money that comes in covers what was covered.
  pub step-IsCovered_credit : (ws : List Wallet) → leg ≡ credit → IsCovered ws → IsCovered (step ws)
  step-IsCovered_credit [] e h = tt
  step-IsCovered_credit (w ∷ ws) e h =
      ground (arith, available-move_credit amount w, step-IsCovered_credit ws e h.1)

-- Every customer wallet of this id can pay the amount.
abbrev pub CanPay : ℕ → ℕ → List Wallet → Type 0
CanPay id amount [] = Unit
CanPay id amount (w ∷ ws) =
    (w.id ≡ id → w.is_system ≡ false → pos amount ≤ℤ available w) × CanPay id amount ws

module _ (id : ℕ) (amount : ℕ) where
  pub step-IsCovered_debit :
      (ws : List Wallet) → CanPay id amount ws → IsCovered ws → IsCovered (step id debit amount ws)
  step-IsCovered_debit [] c h = tt
  step-IsCovered_debit (w ∷ ws) c h =
      ground (arith, available-move_debit amount w, step-IsCovered_debit ws c.1 h.1)

  pub step-CanPay :
      (k n : ℕ) (ws : List Wallet) → CanPay id amount ws → CanPay id amount (step k credit n ws)
  step-CanPay k n [] c = tt
  step-CanPay k n (w ∷ ws) c = ground (arith, available-move_credit n w, step-CanPay k n ws c.1)
