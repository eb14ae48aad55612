-- ===== src/Ledger/Invariant/Plans.antt =====
-- What every planner guarantees: two mirrored legs of one amount, and a debit that is either
-- checked against the balance or taken from a system wallet.
use mathlib.Core.Path.{subst, ap}
use mathlib.Core.Option.{some-injective}
use vaultchain_fintech_dashb.Prelude.{
  ℕ, true, false, none, some, List, [], ◌∷◌, map, ◌≡◌, arith, ◌==◌, any, find, Bool-cases,
  Option-cases, inl, inr, ◌⊎◌, ok, &&_left,
}
use vaultchain_fintech_dashb.Ledger.Store.{
  Kind, deposit, withdrawal, transfer, fee, adjustment, reversal, debit, SystemPurpose, LedgerEntry,
  Wallet, Db, has_id, entries_of, clearing, revenue,
}
use vaultchain_fintech_dashb.Ledger.Plan.{
  CreateTransactionDto, PlannedLeg, PostingPlan, mirror, mirror_entry, serves, lookup_system_wallet,
  plan_transfer, plan_deposit, plan_outgoing, plan_withdrawal, plan_fee, plan_reversal, plan_kind,
  plan_for, first_currency,
}
use vaultchain_fintech_dashb.Ledger.Invariant.{IsKeyed, IsPaired, Bool}

-- Two legs, the second the mirror of the first.
abbrev pub IsMirrored : List PlannedLeg → Type 0
IsMirrored [] = ⊥
IsMirrored (l ∷ []) = ⊥
IsMirrored (l ∷ m ∷ []) = (m.leg ≡ mirror l.leg) × (m.amount ≡ l.amount)
IsMirrored (l ∷ m ∷ k ∷ ls) = ⊥

-- All wallets of this id are the bank's own.
abbrev pub IsSystem : ℕ → List Wallet → Type 0
IsSystem id [] = Unit
IsSystem id (w ∷ ws) = (w.id ≡ id → w.is_system ≡ true) × IsSystem id ws

abbrev pub IsGuarded : List Wallet → List PlannedLeg → Type 0
IsGuarded ws [] = Unit
IsGuarded ws (l ∷ ls) =
    (l.leg ≡ debit → (l.balance_checked ≡ true) ⊎ IsSystem l.wallet_id ws) × IsGuarded ws ls

no_other-IsSystem : (id : ℕ) (ws : List Wallet) → any (has_id id) ws ≡ false → IsSystem id ws
no_other-IsSystem id [] h = tt
no_other-IsSystem id (w ∷ ws) h = ground (arith, no_other-IsSystem id ws)

any-find :
    (p : Wallet → Bool) (ws : List Wallet) {w : Wallet}
    → find p ws ≡ some w
    → any (has_id w.id) ws ≡ true
any-find p [] h = cc
any-find p (v ∷ ws) {w} h = elim (Bool-cases (p v)) [
  | inl e ↦ let same : v ≡ w = some-injective v w (rw e at h) in ground (arith, ap (λ x. x.id) same)
  | inr e ↦ ground (arith, any-find p ws {w = w} (rw e at h))
]

-- A system wallet that is looked up is one.
serves-IsSystem :
    (currency : ℕ) (purpose : SystemPurpose) (ws : List Wallet) {w : Wallet}
    → IsKeyed ws
    → find (serves currency purpose) ws ≡ some w
    → IsSystem w.id ws
serves-IsSystem currency purpose [] k h = cc
serves-IsSystem currency purpose (v ∷ ws) {w} k h = elim (Bool-cases (serves currency purpose v)) [
  | inl e ↦
      let is_own = &&_left v.is_system (v.currency == currency) (&&_left _ _ e) in
      subst (λ x. IsSystem x.id (v ∷ ws)) (some-injective v w (rw e at h))
        ((λ same. is_own), no_other-IsSystem v.id ws k.0)
  | inr e ↦
      let there = any-find (serves currency purpose) ws (rw e at h) in
      (
        (λ same. cc (k.0, there, ap (λ id. any (has_id id) ws) same)),
        serves-IsSystem currency purpose ws k.1 (rw e at h),
      )
]

-- What a planner returns, and that it writes nothing.
abbrev pub IsPlanned : PostingPlan → Db → Db → Type 0
IsPlanned plan db u = (u ≡ db) × IsMirrored plan.legs × IsGuarded db.wallets plan.legs

plan_transfer-IsPlanned :
    (dto : CreateTransactionDto) (db u : Db) (plan : PostingPlan)
    → plan_transfer dto db ≡ (ok plan, u)
    → IsPlanned plan db u
unfolding plan_transfer
plan_transfer-IsPlanned dto db u plan h = ground arith

plan_deposit-IsPlanned :
    (dto : CreateTransactionDto) (db u : Db) (plan : PostingPlan)
    → IsKeyed db.wallets
    → plan_deposit dto db ≡ (ok plan, u)
    → IsPlanned plan db u
unfolding plan_deposit lookup_system_wallet
plan_deposit-IsPlanned dto db u plan k h =
    elim (Option-cases (find (serves dto.currency clearing) db.wallets)) [
      | inl e ↦ ground arith
      | inr (w, e) ↦ ground (arith, serves-IsSystem dto.currency clearing db.wallets {w = w} k)
    ]

plan_outgoing-IsPlanned :
    (kind : Kind) (purpose : SystemPurpose) (dto : CreateTransactionDto) (db u : Db)
    (plan : PostingPlan)
    → plan_outgoing kind purpose dto db ≡ (ok plan, u)
    → IsPlanned plan db u
unfolding plan_outgoing lookup_system_wallet
plan_outgoing-IsPlanned kind purpose dto db u plan h =
    elim (Option-cases (find (serves dto.currency purpose) db.wallets)) [
      | inl e ↦ ground arith
      | inr (w, e) ↦ ground arith
    ]

mirror_entries-IsMirrored :
    (es : List LedgerEntry) {c : ℕ}
    → first_currency es ≡ some c
    → IsPaired es
    → IsMirrored (map mirror_entry es)
mirror_entries-IsMirrored [] e h = cc
mirror_entries-IsMirrored (e ∷ []) c h = h
mirror_entries-IsMirrored (e ∷ f ∷ []) c h = ground arith
mirror_entries-IsMirrored (e ∷ f ∷ g ∷ es) c h = h

mirror_entries-IsGuarded :
    (ws : List Wallet) (es : List LedgerEntry) → IsGuarded ws (map mirror_entry es)
mirror_entries-IsGuarded ws [] = tt
mirror_entries-IsGuarded ws (e ∷ es) = ground (arith, mirror_entries-IsGuarded ws es)

reversal_needs_entries :
    (dto : CreateTransactionDto) (db u : Db) (plan : PostingPlan) (id : ℕ)
    → dto.original_transaction_id ≡ some id
    → first_currency (entries_of id db.entries) ≡ none
    → plan_reversal dto db ≡ (ok plan, u)
    → IsPlanned plan db u
unfolding plan_reversal
reversal_needs_entries dto db u plan id e none_left h =
    elim (Option-cases (find (λ t. t.id == id) db.transactions)) [
      | inl missing ↦ ground arith
      | inr (t, there) ↦ ground arith
    ]

plan_reversal-IsPlanned :
    (dto : CreateTransactionDto) (db u : Db) (plan : PostingPlan)
    → ((id : ℕ) → IsPaired (entries_of id db.entries))
    → plan_reversal dto db ≡ (ok plan, u)
    → IsPlanned plan db u
unfolding plan_reversal
plan_reversal-IsPlanned dto db u plan paired h = elim (Option-cases dto.original_transaction_id) [
  | inl e ↦ ground arith
  | inr (id, e) ↦ elim (Option-cases (first_currency (entries_of id db.entries))) [
    | inl none_left ↦ reversal_needs_entries dto db u plan id e none_left h
    | inr (c, first) ↦ ground (
      arith,
      mirror_entries-IsMirrored (entries_of id db.entries) first (paired id),
      mirror_entries-IsGuarded db.wallets (entries_of id db.entries),
    )
  ]
]

plan_kind-IsPlanned :
    (kind : Kind) (dto : CreateTransactionDto) (db u : Db) (plan : PostingPlan)
    → IsKeyed db.wallets
    → ((id : ℕ) → IsPaired (entries_of id db.entries))
    → plan_kind kind dto db ≡ (ok plan, u)
    → IsPlanned plan db u
unfolding plan_kind plan_withdrawal plan_fee
plan_kind-IsPlanned transfer dto db u plan keyed paired h = plan_transfer-IsPlanned dto db u plan h
plan_kind-IsPlanned deposit dto db u plan keyed paired h =
    plan_deposit-IsPlanned dto db u plan keyed h
plan_kind-IsPlanned withdrawal dto db u plan keyed paired h =
    plan_outgoing-IsPlanned withdrawal clearing dto db u plan h
plan_kind-IsPlanned fee dto db u plan keyed paired h =
    plan_outgoing-IsPlanned fee revenue dto db u plan h
plan_kind-IsPlanned reversal dto db u plan keyed paired h =
    plan_reversal-IsPlanned dto db u plan paired h
plan_kind-IsPlanned adjustment dto db u plan keyed paired h = cc

-- Every planner, with what it needs of the tables.
pub plan_for-IsPlanned :
    (dto : CreateTransactionDto) (db u : Db) (plan : PostingPlan)
    → IsKeyed db.wallets
    → ((id : ℕ) → IsPaired (entries_of id db.entries))
    → plan_for dto db ≡ (ok plan, u)
    → IsPlanned plan db u
unfolding plan_for
plan_for-IsPlanned dto db u plan keyed paired h =
    plan_kind-IsPlanned dto.kind dto db u plan keyed paired h
