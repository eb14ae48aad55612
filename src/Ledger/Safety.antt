-- ===== src/Ledger/Safety.antt =====
-- What a request may do to the ledger, on every path through `post` and under every interleaving
-- with other requests at its awaits.
use vaultchain_fintech_dashb.Prelude.{
  not, Option, none, some, ◌≡◌, refl, arith, ◌==◌, any, ok, err, Result, rolled_back, Bool-cases,
  Option-cases, inl, inr, after-eq-ok, handled, update_where, ap, modify, raise_if, ◌∙◌,
  if◌then◌else◌, gets, raise, pure, ℤ, ◌>>◌, ◌>>=◌,
}
use vaultchain_fintech_dashb.Ledger.Store.{
  Db, LedgerError, TransactionSnapshot, find_key, roll_back, Handler, record_not_found,
  IdempotencyKey,
}
use vaultchain_fintech_dashb.Ledger.Execute.{Env}
use vaultchain_fintech_dashb.Ledger.Post.{
  Others, Request, post_by_kind, post_and_complete, in_transaction, run_claimed, claim, look_up,
  post, delete_key, complete_key, is_implemented, is_stale_in_progress,
}
use vaultchain_fintech_dashb.Ledger.Invariant.{IsSound, total}
use vaultchain_fintech_dashb.Ledger.Invariant.Posting.{post_by_kind-IsSound}
use mathlib.Core.Path.{ap}

-- The keys and the sequence are no part of the ledger.
pub keys-IsSound :
    (db t : Db)
    → t.wallets ≡ db.wallets
    → t.transactions ≡ db.transactions
    → t.entries ≡ db.entries
    → IsSound db
    → IsSound t
keys-IsSound db t w x e sound = record {
  keyed = rw w sound.keyed;
  reconciled = rw (w, e) sound.reconciled;
  covered = rw w sound.covered;
  paired = λ id. rw e (sound.paired id);
  owned = rw (x, e) sound.owned;
  one_per_key = rw x sound.one_per_key;
  one_reversal = rw x sound.one_reversal;
}

-- What the ledger of `t` keeps of the ledger of `db`.
abbrev IsKept : Db → Db → Type 0
IsKept db t = IsSound t × (total t.wallets ≡ total db.wallets)

rolled_back-IsKept :
    (db : Db) (r : Result LedgerError TransactionSnapshot × Db)
    → IsSound db
    → ((t : Db) (snap : TransactionSnapshot) → r ≡ (ok snap, t) → IsKept db t)
    → IsKept db (rolled_back roll_back db r).1
rolled_back-IsKept db (ok snap, t) sound h = h t snap refl
rolled_back-IsKept db (err e, t) sound h =
    (keys-IsSound db (roll_back db t) refl refl refl sound, refl)

-- The completion of the key, after the posting.
abbrev pub completion : Request → TransactionSnapshot → Handler TransactionSnapshot
completion req snapshot = do
  raise_if (not (← gets (λ db. any (λ r. r.key == req.key) db.keys))) record_not_found
  modify (λ db. record db {
    keys = update_where (λ r. r.key == req.key) (complete_key snapshot) db.keys;
  })
  pure snapshot

pub completion_lem :
    (req : Request) (s : TransactionSnapshot) (db t : Db) (snap : TransactionSnapshot)
    → completion req s db ≡ (ok snap, t)
    → (t ≡ record db { keys = update_where (λ r. r.key == req.key) (complete_key s) db.keys })
      × (snap ≡ s)
completion_lem req s db t snap h = ground arith

module _ (env : Env) (req : Request) where
  post_and_complete-IsKept :
      (db t : Db) (snap : TransactionSnapshot)
      → IsSound db
      → post_and_complete env req db ≡ (ok snap, t)
      → IsKept db t
  unfolding post_and_complete
  post_and_complete-IsKept db t snap sound h =
      let (s, u, posted, rest) = after-eq-ok (post_by_kind env req db) _ h in
      let (kept, same, _) = post_by_kind-IsSound env req db u s sound posted in
      let (e, _) = completion_lem req s u t snap rest in
      (
        keys-IsSound u t (ap (λ d. d.wallets) e) (ap (λ d. d.transactions) e)
            (ap (λ d. d.entries) e) kept,
        ap (λ d. total d.wallets) e ∙ same,
      )

-- The interactive transaction keeps the ledger sound and the total what it was, whether it commits
-- or is rolled back.
pub in_transaction-IsSound :
    (env : Env) (req : Request) (db : Db)
    → IsSound db
    → IsSound (in_transaction env req db).1
      × (total (in_transaction env req db).1.wallets ≡ total db.wallets)
unfolding in_transaction
in_transaction-IsSound env req db sound =
    rolled_back-IsKept db (post_and_complete env req db) sound
      (λ t snap h. post_and_complete-IsKept env req db t snap sound h)

-- A sound ledger whose balances sum to `τ`.
abbrev pub IsLedger : ℤ → Db → Type 0
IsLedger τ db = IsSound db × (total db.wallets ≡ τ)

keys-IsLedger :
    (τ : ℤ) (db t : Db)
    → t.wallets ≡ db.wallets
    → t.transactions ≡ db.transactions
    → t.entries ≡ db.entries
    → IsLedger τ db
    → IsLedger τ t
keys-IsLedger τ db t w x e (sound, same) = (keys-IsSound db t w x e sound, ap total w ∙ same)

in_transaction-IsLedger :
    (τ : ℤ) (env : Env) (req : Request) (db : Db)
    → IsLedger τ db
    → IsLedger τ (in_transaction env req db).1
in_transaction-IsLedger τ env req db (sound, same) =
    let (kept, total_kept) = in_transaction-IsSound env req db sound in (kept, total_kept ∙ same)

-- Other requests that keep this up at each await.
pub record KeepLedger (τ : ℤ) (others : Others) : Type 0 where
  pub at_claim : (db : Db) → IsLedger τ db → IsLedger τ (others.before_claim db)
  pub at_reread : (db : Db) → IsLedger τ db → IsLedger τ (others.before_reread db)
  pub at_posting : (db : Db) → IsLedger τ db → IsLedger τ (others.before_posting db)
  pub at_release : (db : Db) → IsLedger τ db → IsLedger τ (others.before_release db)

module _ (env : Env) (others : Others) (req : Request) (τ : ℤ) (keep : KeepLedger τ others) where
  handled-IsLedger :
      (r : Result LedgerError TransactionSnapshot × Db)
      → IsLedger τ r.1
      → IsLedger τ
          (handled r λ e. do
            modify others.before_release
            modify (if req.release_works then delete_key req.key else λ db. db)
            raise e).1
  handled-IsLedger (ok snap, t) h = h
  handled-IsLedger (err e, t) h =
      let u = others.before_release t in
      let sound = keep.at_release t h in
      elim (Bool-cases req.release_works) [
        | inl e ↦ rw e (keys-IsLedger τ u (delete_key req.key u) refl refl refl sound)
        | inr e ↦ rw e sound
      ]

  run_claimed-IsLedger : (db : Db) → IsLedger τ db → IsLedger τ (run_claimed env others req db).1
  unfolding run_claimed
  run_claimed-IsLedger db sound =
      handled-IsLedger (in_transaction env req (others.before_posting db))
        (in_transaction-IsLedger τ env req (others.before_posting db) (keep.at_posting db sound))

  claim-IsLedger : (db : Db) → IsLedger τ db → IsLedger τ (claim env others req db).1
  unfolding claim
  claim-IsLedger db sound =
      let u = others.before_claim db in
      let v = others.before_reread u in
      let claimed = keep.at_claim db sound in
      elim (Option-cases (find_key req.key u.keys)) [
        | inl e ↦ rw e (run_claimed-IsLedger _ (keys-IsLedger τ u _ refl refl refl claimed))
        | inr (r, e) ↦ elim (Option-cases (find_key req.key v.keys)) [
          | inl e' ↦ rw (e, e') (keep.at_reread u claimed)
          | inr (r', e') ↦ rw (e, e') (keep.at_reread u claimed)
        ]
      ]

  look_up-IsLedger :
      (existing : Option IdempotencyKey) (db : Db)
      → IsLedger τ db
      → IsLedger τ (look_up env others req existing db).1
  unfolding look_up
  look_up-IsLedger none db sound = claim-IsLedger db sound
  look_up-IsLedger (some row) db sound =
      elim (Bool-cases (is_stale_in_progress env.checked_at row)) [
        | inl e ↦
            rw e
              (claim-IsLedger _ (keys-IsLedger τ db (delete_key req.key db) refl refl refl sound))
        | inr e ↦ rw e sound
      ]

-- A request that starts on a sound ledger leaves a sound ledger with the same sum of balances,
-- whatever it returns or throws, if the other requests that run at its awaits do so too.
pub post-IsLedger :
    (env : Env) (others : Others) (req : Request) (τ : ℤ) (db : Db)
    → KeepLedger τ others
    → IsLedger τ db
    → IsLedger τ (post env others req db).1
unfolding post
post-IsLedger env others req τ db keep sound = elim (Bool-cases (is_implemented req.dto.kind)) [
  | inl e ↦ rw e (look_up-IsLedger env others req τ keep (find_key req.key db.keys) db sound)
  | inr e ↦ rw e sound
]
