-- ===== src/Ledger/Invariant/Posting.antt =====
-- A posting keeps the ledger sound, whatever plan it executes, and moves no money in or out.
use mathlib.Core.List.{append-nil}
use mathlib.Core.Path.{subst}
use vaultchain_fintech_dashb.Prelude.{
  ℕ, true, false, List, [], ◌∷◌, ◌≡◌, refl, arith, ◌==◌, any, find, filter, Bool-cases, inl, inr,
  ◌||◌, ◌⊎◌, int_laws, ==_refl, suc, ||_left, ◌++◌, ||_right, ==_iff, ok, after-eq-ok,
}
use vaultchain_fintech_dashb.Ledger.Store.{Wallet, has_id, Leg, debit, credit, TransactionSnapshot}
use vaultchain_fintech_dashb.Ledger.Execute.{
  insert_id, contains, short_of, overdraws, has_balance, moved, Env, lock_order, plan_entries,
  new_transaction,
}
use vaultchain_fintech_dashb.Ledger.Invariant.{
  IsKeyed, IsCovered, total, ℤ, mirror, LedgerEntry, Db, IsPaired, IsSound, Transaction, entries_of,
  IsOwned,
}
use vaultchain_fintech_dashb.Ledger.Invariant.Wallets.{
  CanPay, step-IsKeyed, step, step-IsCovered_debit, total-step, step-IsCovered_credit, step-CanPay,
}
use vaultchain_fintech_dashb.Ledger.Invariant.Plans.{
  IsSystem, IsMirrored, IsGuarded, plan_for-IsPlanned,
}
use vaultchain_fintech_dashb.Ledger.Plan.{PlannedLeg, PostingPlan, CreateTransactionDto, plan_for}
use vaultchain_fintech_dashb.Ledger.Execute.Outcome.{
  move_all, all_present, Executed, loaded, execute_plan-Executed,
}
use vaultchain_fintech_dashb.Ledger.Invariant.Rows.{
  move_all-IsReconciled, entries_of-append, marked-IsOwned, cons-IsOwned, marked-HasOnePerKey,
  fresh_key, marked-HasOneReversal, fresh_reversal, entries_of_fresh, fresh_id,
}
use vaultchain_fintech_dashb.Ledger.Post.{post_by_kind, Request}

-- Every wallet of a plan is locked.
contains-insert_id :
    (x y : ℕ) (ids : List ℕ) → contains x (insert_id y ids) ≡ (x == y || contains x ids)
contains-insert_id x y [] = refl
contains-insert_id x y (z ∷ ids) = ground (arith, contains-insert_id x y ids)

-- A locked wallet is loaded as it is stored.
find-loaded :
    (k : ℕ) (ids : List ℕ) (ws : List Wallet)
    → contains k ids ≡ true
    → find (has_id k) (filter (λ w. contains w.id ids) ws) ≡ find (has_id k) ws
find-loaded k ids [] h = refl
find-loaded k ids (w ∷ ws) h = ground (arith, find-loaded k ids ws h)

module _ (k n : ℕ) where
  absent-CanPay : (ws : List Wallet) → any (has_id k) ws ≡ false → CanPay k n ws
  absent-CanPay [] h = tt
  absent-CanPay (w ∷ ws) h = ground (arith, absent-CanPay ws)

  system-CanPay : (ws : List Wallet) → IsSystem k ws → CanPay k n ws
  system-CanPay [] h = tt
  system-CanPay (w ∷ ws) h = ground (arith, system-CanPay ws h.1)

  -- The balance check on the stored wallet.
  short_of-CanPay :
      (ws : List Wallet) → IsKeyed ws → short_of n (find (has_id k) ws) ≡ false → CanPay k n ws
  short_of-CanPay [] h s = tt
  short_of-CanPay (w ∷ ws) h s = elim (Bool-cases (w.id == k)) [
    | inl same ↦ ground (arith, absent-CanPay ws)
    | inr other ↦ ground (arith, short_of-CanPay ws h.1)
  ]

-- Every debit of the legs is covered, in the wallets as they are stored.
abbrev AllPay : List PlannedLeg → List Wallet → Type 0
AllPay [] ws = Unit
AllPay (l ∷ ls) ws = (l.leg ≡ debit → CanPay l.wallet_id l.amount ws) × AllPay ls ws

overdraws_checked :
    (l : PlannedLeg) (ws : List Wallet)
    → l.leg ≡ debit
    → l.balance_checked ≡ true
    → overdraws ws l ≡ false
    → short_of l.amount (find (has_id l.wallet_id) ws) ≡ false
unfolding overdraws
overdraws_checked l ws e checked covered = ground arith

leg-CanPay :
    (l : PlannedLeg) (ids : List ℕ) (ws : List Wallet)
    → IsKeyed ws
    → contains l.wallet_id ids ≡ true
    → overdraws (filter (λ w. contains w.id ids) ws) l ≡ false
    → (l.leg ≡ debit → (l.balance_checked ≡ true) ⊎ IsSystem l.wallet_id ws)
    → l.leg ≡ debit
    → CanPay l.wallet_id l.amount ws
unfolding overdraws
leg-CanPay l ids ws keyed locked covered guarded e = elim (guarded e) [
  | inl checked ↦ short_of-CanPay l.wallet_id l.amount ws keyed (
      rw (find-loaded l.wallet_id ids ws locked) at
        (overdraws_checked l (filter (λ w. contains w.id ids) ws) e checked covered))
  | inr system ↦ system-CanPay l.wallet_id l.amount ws system
]

Leg-cases : (k : Leg) → (k ≡ debit) ⊎ (k ≡ credit)
Leg-cases debit = inl refl
Leg-cases credit = inr refl

move_all-IsKeyed : (ls : List PlannedLeg) (ws : List Wallet) → IsKeyed ws → IsKeyed (move_all ls ws)
move_all-IsKeyed [] ws h = h
move_all-IsKeyed (l ∷ ls) ws h = elim (Bool-cases (any (has_balance l.wallet_id) ws)) [
  | inl e ↦ rw e (move_all-IsKeyed ls _ (step-IsKeyed l.wallet_id l.leg l.amount ws h))
  | inr e ↦ rw e h
]

moved-mirror : (k : Leg) (n : ℕ) (a : ℤ) → moved (mirror k) n (moved k n a) ≡ a
moved-mirror debit n a = omega int_laws
moved-mirror credit n a = omega int_laws

-- Two mirrored legs move no money in or out.
move_all-total :
    (ls : List PlannedLeg) (ws : List Wallet)
    → IsMirrored ls
    → IsKeyed ws
    → all_present ls ws ≡ true
    → total (move_all ls ws) ≡ total ws
move_all-total [] ws m k p = elim m [ ]
move_all-total (l ∷ []) ws m k p = elim m [ ]
move_all-total (l ∷ j ∷ []) ws m k p =
    let ws' = step l.wallet_id l.leg l.amount ws in
    ground (
      arith,
      total-step l.wallet_id l.leg l.amount ws k,
      total-step j.wallet_id j.leg j.amount ws' (step-IsKeyed l.wallet_id l.leg l.amount ws k),
      moved-mirror l.leg l.amount (total ws),
    )
move_all-total (l ∷ j ∷ i ∷ ls) ws m k p = elim m [ ]

move_all-IsCovered :
    (ls : List PlannedLeg) (ws : List Wallet)
    → IsMirrored ls
    → AllPay ls ws
    → IsCovered ws
    → IsCovered (move_all ls ws)
move_all-IsCovered [] ws m a c = c
move_all-IsCovered (l ∷ []) ws m a c = elim m [ ]
move_all-IsCovered (l ∷ j ∷ []) ws m a c = elim (Leg-cases l.leg) [
  | inl out ↦
      let ws' = step l.wallet_id debit l.amount ws in
      ground (
        arith,
        step-IsCovered_debit l.wallet_id l.amount ws (a.0 out) c,
        step-IsCovered_credit j.wallet_id credit j.amount ws' refl,
      )
  | inr into ↦
      let ws' = step l.wallet_id credit l.amount ws in
      ground (
        arith,
        step-IsCovered_credit l.wallet_id credit l.amount ws refl c,
        step-CanPay j.wallet_id j.amount l.wallet_id l.amount ws,
        step-IsCovered_debit j.wallet_id j.amount ws',
      )
]
move_all-IsCovered (l ∷ j ∷ i ∷ ls) ws m a c = elim m [ ]

module _ (env : Env) (plan : PostingPlan) (ws : List Wallet) (old : List LedgerEntry) where
  -- The rows of a posting belong to its transaction, and to no other.
  entries_of-plan_entries :
      (ls : List PlannedLeg) (n : ℕ)
      → IsMirrored ls
      → IsPaired (entries_of env.transaction_id (plan_entries env plan ws old n ls))
  unfolding plan_entries
  entries_of-plan_entries [] n m = tt
  entries_of-plan_entries (l ∷ []) n m = elim m [ ]
  entries_of-plan_entries (l ∷ j ∷ []) n m = ground (arith, ==_refl env.transaction_id)
  entries_of-plan_entries (l ∷ j ∷ i ∷ ls) n m = elim m [ ]

  entries_of-plan_entries_other :
      (id : ℕ) (ls : List PlannedLeg) (n : ℕ)
      → (env.transaction_id == id) ≡ false
      → entries_of id (plan_entries env plan ws old n ls) ≡ []
  unfolding plan_entries
  entries_of-plan_entries_other id [] n e = refl
  entries_of-plan_entries_other id (l ∷ ls) n e =
      rw e (entries_of-plan_entries_other id ls (suc n) e)

  plan_entries-IsOwned :
      (txs : List Transaction) (es : List LedgerEntry) (ls : List PlannedLeg) (n : ℕ)
      → any (λ t. t.id == env.transaction_id) txs ≡ true
      → IsOwned txs es
      → IsOwned txs (plan_entries env plan ws old n ls ++ es)
  unfolding plan_entries
  plan_entries-IsOwned txs es [] n e h = h
  plan_entries-IsOwned txs es (l ∷ ls) n e h = (e, plan_entries-IsOwned txs es ls (suc n) e h)

-- The wallets of the legs are locked, so every debit has passed its check.
legs-AllPay :
    (ls : List PlannedLeg) (ids : List ℕ) (ws : List Wallet)
    → IsKeyed ws
    → ((k : ℕ) → contains k (lock_order ls) ≡ true → contains k ids ≡ true)
    → any (overdraws (filter (λ w. contains w.id ids) ws)) ls ≡ false
    → IsGuarded ws ls
    → AllPay ls ws
unfolding lock_order
legs-AllPay [] ids ws keyed sub covered g = tt
legs-AllPay (l ∷ ls) ids ws keyed sub covered g =
    let found = contains-insert_id l.wallet_id l.wallet_id (lock_order ls) in
    (
      leg-CanPay l ids ws keyed (sub l.wallet_id (ground (arith, found, ==_refl l.wallet_id)))
          (||_left _ _ covered) g.0,
      legs-AllPay ls ids ws keyed
          (λ k there. sub k (ground (arith, contains-insert_id k l.wallet_id (lock_order ls))))
          (||_right (overdraws (filter (λ w. contains w.id ids) ws) l) _ covered) g.1,
    )

module _ (env : Env) (plan : PostingPlan) (dto : CreateTransactionDto) (key : ℕ) (db t : Db)
    (sound : IsSound db) (mirrored : IsMirrored plan.legs)
    (guarded : IsGuarded db.wallets plan.legs) (run : Executed env plan dto key db t) where
  -- The transaction that the posting has stored.
  abbrev stored : Transaction
  stored = new_transaction env plan dto key run.account run.public_ref

  abbrev rows : List LedgerEntry
  rows = plan_entries env plan (loaded plan db.wallets) db.entries 0 plan.legs

  executed-IsPaired : (id : ℕ) → IsPaired (entries_of id (rows ++ db.entries))
  executed-IsPaired id = elim (Bool-cases (env.transaction_id == id)) [
    | inl same ↦
        subst (λ k. IsPaired (entries_of k (rows ++ db.entries)))
          ((==_iff env.transaction_id id).0 same)
          (rw
            (
              entries_of-append env.transaction_id rows db.entries,
              entries_of_fresh env.transaction_id db.transactions db.entries
                  (fresh_id stored db.transactions run.fresh) sound.owned,
              append-nil,
            )
            (entries_of-plan_entries env plan (loaded plan db.wallets) db.entries plan.legs 0
              mirrored))
    | inr other ↦ rw (entries_of-append id rows db.entries) (
        rw
          (entries_of-plan_entries_other env plan (loaded plan db.wallets) db.entries id plan.legs 0
            other)
          (sound.paired id))
  ]

  pub executed-IsSound : IsSound t
  executed-IsSound = record {
    keyed = rw run.wallets (move_all-IsKeyed plan.legs db.wallets sound.keyed);
    reconciled =
        rw (run.wallets, run.entries)
          (move_all-IsReconciled env plan (loaded plan db.wallets) db.entries 0 plan.legs db.entries
            db.wallets run.present sound.reconciled);
    covered = rw run.wallets (
        move_all-IsCovered plan.legs db.wallets mirrored
          (legs-AllPay plan.legs (lock_order plan.legs) db.wallets sound.keyed (λ k there. there)
            run.covered guarded)
          sound.covered);
    paired = λ id. rw run.entries (executed-IsPaired id);
    owned =
        rw (run.transactions, run.entries)
          (marked-IsOwned plan.mark_reversed_tx_id (stored ∷ db.transactions) (rows ++ db.entries) (
            plan_entries-IsOwned env plan (loaded plan db.wallets) db.entries
              (stored ∷ db.transactions) db.entries plan.legs 0
              (ground (arith, ==_refl env.transaction_id))
              (cons-IsOwned stored db.transactions db.entries sound.owned)));
    one_per_key = rw run.transactions (
        marked-HasOnePerKey plan.mark_reversed_tx_id (stored ∷ db.transactions)
          (fresh_key stored db.transactions run.fresh, sound.one_per_key));
    one_reversal = rw run.transactions (
        marked-HasOneReversal plan.mark_reversed_tx_id (stored ∷ db.transactions)
          (fresh_reversal stored db.transactions run.fresh, sound.one_reversal));
  }

  pub executed-total : total t.wallets ≡ total db.wallets
  executed-total =
      rw run.wallets (move_all-total plan.legs db.wallets mirrored sound.keyed run.present)

-- A request that is posted leaves a sound ledger, in which the total is what it was.
pub post_by_kind-IsSound :
    (env : Env) (req : Request) (db t : Db) (snap : TransactionSnapshot)
    → IsSound db
    → post_by_kind env req db ≡ (ok snap, t)
    → IsSound t × (total t.wallets ≡ total db.wallets) × (t.keys ≡ db.keys)
unfolding post_by_kind
post_by_kind-IsSound env req db t snap sound h =
    let (plan, u, planned, executed) = after-eq-ok (plan_for req.dto db) _ h in
    let (same, mirrored, guarded) =
      plan_for-IsPlanned req.dto db u plan sound.keyed sound.paired planned in
    let run = execute_plan-Executed env plan req.dto req.key db t snap (rw same at executed) in
    (
      executed-IsSound env plan req.dto req.key db t sound mirrored guarded run,
      executed-total env plan req.dto req.key db t sound mirrored guarded run,
      run.keys,
    )
