-- ===== src/Ledger/Transfers.antt =====
-- What a transfer through Api/src/modules/transactions/transactions.service.ts does to the
-- balances.
use vaultchain_fintech_dashb.Prelude.{
  ℕ, true, false, some, List, [], ◌∷◌, ◌≡◌, refl, arith, ap, ◌∙◌, any, update_where, ◌==◌, ok,
  Bool-cases, inl, inr, after-eq-ok, Bool, find, not, ◌&&◌, ◌-ℤ◌, pos, ◌+ℤ◌, filter,
  find-update_where, find_fits, find-update_where_other, filter-update_where,
}
use vaultchain_fintech_dashb.Ledger.Store.{
  Db, Wallet, TransactionSnapshot, debit, credit, transfer, has_id, Balance,
}
use vaultchain_fintech_dashb.Ledger.Plan.{
  CreateTransactionDto, PlannedLeg, PostingPlan, plan_transfer, plan_kind, plan_for, a_leg,
}
use vaultchain_fintech_dashb.Ledger.Execute.{Env, move_wallet, has_balance}
use vaultchain_fintech_dashb.Ledger.Execute.Outcome.{execute_plan-Executed, move_all, all_present}
use vaultchain_fintech_dashb.Ledger.Post.{Request, post_by_kind}
use vaultchain_fintech_dashb.Ledger.Invariant.{IsSound}
use vaultchain_fintech_dashb.Ledger.Invariant.Plans.{plan_for-IsPlanned}

abbrev move_each : List PlannedLeg → List Wallet → List Wallet
move_each [] ws = ws
move_each (l ∷ ls) ws =
    move_each ls (update_where (has_id l.wallet_id) (move_wallet l.leg l.amount) ws)

move_all-present :
    (ls : List PlannedLeg) (ws : List Wallet)
    → all_present ls ws ≡ true
    → move_all ls ws ≡ move_each ls ws
move_all-present [] ws h = refl
move_all-present (l ∷ ls) ws h = elim (Bool-cases (any (has_balance l.wallet_id) ws)) [
  | inl e ↦ rw e (move_all-present ls _ (rw e at h))
  | inr e ↦ cc (rw e at h)
]

plan_transfer-legs :
    (dto : CreateTransactionDto) (a b : ℕ) (db u : Db) (plan : PostingPlan)
    → dto.source_wallet_id ≡ some a
    → dto.target_wallet_id ≡ some b
    → plan_transfer dto db ≡ (ok plan, u)
    → ((a == b) ≡ false)
      × (plan.legs
          ≡ a_leg a debit dto.amount_minor true ∷ a_leg b credit dto.amount_minor false ∷ [])
unfolding plan_transfer
plan_transfer-legs dto a b db u plan from to h = ground arith

plan_for-legs :
    (dto : CreateTransactionDto) (a b : ℕ) (db u : Db) (plan : PostingPlan)
    → dto.kind ≡ transfer
    → dto.source_wallet_id ≡ some a
    → dto.target_wallet_id ≡ some b
    → plan_for dto db ≡ (ok plan, u)
    → ((a == b) ≡ false)
      × (plan.legs
          ≡ a_leg a debit dto.amount_minor true ∷ a_leg b credit dto.amount_minor false ∷ [])
unfolding plan_for plan_kind plan_transfer
plan_for-legs dto a b db u plan kind from to h =
    plan_transfer-legs dto a b db u plan from to (rw kind at h)

-- The wallets that are neither of the two.
abbrev pub is_third : ℕ → ℕ → Wallet → Bool
is_third a b w = not (w.id == a) && not (w.id == b)

two_moves :
    (a b amount : ℕ) (ws : List Wallet) {source target : Wallet} {s c : Balance}
    → a == b ≡ false
    → find (has_id a) ws ≡ some source
    → source.balance ≡ some s
    → find (has_id b) ws ≡ some target
    → target.balance ≡ some c
    → (find (has_id a) (move_each (a_leg a debit amount true ∷ a_leg b credit amount false ∷ []) ws)
        ≡ some (record source {
          balance = some (record {
            balance_minor = s.balance_minor -ℤ pos amount;
            available_balance_minor = s.available_balance_minor -ℤ pos amount;
          });
        }))
      × (find
            (has_id b)
            (move_each (a_leg a debit amount true ∷ a_leg b credit amount false ∷ []) ws)
          ≡ some (record target {
            balance = some (record {
              balance_minor = c.balance_minor +ℤ pos amount;
              available_balance_minor = c.available_balance_minor +ℤ pos amount;
            });
          }))
      × (filter
            (is_third a b)
            (move_each (a_leg a debit amount true ∷ a_leg b credit amount false ∷ []) ws)
          ≡ filter (is_third a b) ws)
two_moves a b amount ws {source} {target} differ from held to kept =
    let taken = update_where (has_id a) (move_wallet debit amount) ws in
    let apart : (w : Wallet) → has_id a w ≡ true → has_id b w ≡ false = λ w h. ground arith in
    let apart' : (w : Wallet) → has_id b w ≡ true → has_id a w ≡ false = λ w h. ground arith in
    let source_at =
      find-update_where (has_id a) (has_id a) (move_wallet debit amount) ws (λ w. refl) from
        (find_fits (has_id a) ws from) in
    let source_stays =
      find-update_where_other (has_id a) (has_id b) (move_wallet credit amount) taken (λ w. refl)
        apart' in
    let target_stays =
      find-update_where_other (has_id b) (has_id a) (move_wallet debit amount) ws (λ w. refl)
        apart in
    let target_at =
      find-update_where (has_id b) (has_id b) (move_wallet credit amount) taken (λ w. refl)
        (target_stays ∙ to) (find_fits (has_id b) ws to) in
    let thirds =
      filter-update_where (is_third a b) (has_id a) (move_wallet debit amount) ws (λ w. refl)
        (λ w h. ground arith) in
    let thirds' =
      filter-update_where (is_third a b) (has_id b) (move_wallet credit amount) taken (λ w. refl)
        (λ w h. ground arith) in
    (rw held at (source_stays ∙ source_at), rw kept at target_at, thirds' ∙ thirds)

-- A transfer that posts in a sound ledger has two different wallets; the balance and the available
-- balance of the source are smaller by the amount afterwards, those of the target greater by it, and
-- the rows of all other wallets are as they were; where both wallets have balances.
pub transfer_moves :
    (env : Env) (req : Request) (a b : ℕ) (source target : Wallet) (s c : Balance) (db t : Db)
    (snap : TransactionSnapshot)
    → IsSound db
    → req.dto.kind ≡ transfer
    → req.dto.source_wallet_id ≡ some a
    → req.dto.target_wallet_id ≡ some b
    → find (has_id a) db.wallets ≡ some source
    → source.balance ≡ some s
    → find (has_id b) db.wallets ≡ some target
    → target.balance ≡ some c
    → post_by_kind env req db ≡ (ok snap, t)
    → ((a == b) ≡ false)
      × (find (has_id a) t.wallets
          ≡ some (record source {
            balance = some (record {
              balance_minor = s.balance_minor -ℤ pos req.dto.amount_minor;
              available_balance_minor = s.available_balance_minor -ℤ pos req.dto.amount_minor;
            });
          }))
      × (find (has_id b) t.wallets
          ≡ some (record target {
            balance = some (record {
              balance_minor = c.balance_minor +ℤ pos req.dto.amount_minor;
              available_balance_minor = c.available_balance_minor +ℤ pos req.dto.amount_minor;
            });
          }))
      × (filter (is_third a b) t.wallets ≡ filter (is_third a b) db.wallets)
unfolding post_by_kind
transfer_moves env req a b source target s c db t snap sound kind from to held_at held kept_at kept
      h =
    let (plan, u, planned, executed) = after-eq-ok (plan_for req.dto db) _ h in
    let (same, _, _) = plan_for-IsPlanned req.dto db u plan sound.keyed sound.paired planned in
    let run = execute_plan-Executed env plan req.dto req.key db t snap (rw same at executed) in
    let (differ, legs) = plan_for-legs req.dto a b db u plan kind from to planned in
    let written =
      run.wallets
      ∙ (move_all-present plan.legs db.wallets run.present
          ∙ ap (λ ls. move_each ls db.wallets) legs) in
    let (taken, added, thirds) =
      two_moves a b req.dto.amount_minor db.wallets differ held_at held kept_at kept in
    (
      differ,
      ap (λ ws. find (has_id a) ws) written ∙ taken,
      ap (λ ws. find (has_id b) ws) written ∙ added,
      ap (λ ws. filter (is_third a b) ws) written ∙ thirds,
    )
