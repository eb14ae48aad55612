-- ===== src/Ledger/Post.antt =====
-- `post` of Api/src/modules/transactions/transactions.service.ts: the idempotency key around a
-- posting. At each `await` outside the transaction other requests may run: `Others` says what they
-- do to the tables there.
use vaultchain_fintech_dashb.Prelude.{
  ℕ, ◌+◌, ◌-◌, ◌*◌, Bool, true, false, not, ◌&&◌, Option, none, some, ◌∷◌, ltb, ◌==◌, if◌then◌else◌,
  any, update_where, remove_where, Result, ok, err, ◌>>◌, pure, raise, gets, modify, raise_if, lift,
  transaction, catch_error, ◌>>=◌,
}
use vaultchain_fintech_dashb.Ledger.Store.{
  Kind, adjustment, KeyState, in_progress, completed, TransactionSnapshot, IdempotencyKey, Db,
  LedgerError, kind_not_implemented, key_conflict, in_flight, record_not_found, unique_violation,
  idempotency_keys_pkey, Handler, roll_back, find_key,
}
use vaultchain_fintech_dashb.Ledger.Plan.{CreateTransactionDto, plan_for}
use vaultchain_fintech_dashb.Ledger.Execute.{Env, execute_plan}

pub record Others : Type 0 where
  pub before_claim : Db → Db
  pub before_reread : Db → Db
  pub before_posting : Db → Db
  pub before_release : Db → Db

-- A request alone: nobody else writes.
abbrev pub nobody : Others
nobody = record {
  before_claim = λ db. db;
  before_reread = λ db. db;
  before_posting = λ db. db;
  before_release = λ db. db;
}

-- One request: its body, its key, its client, the SHA-256 of its canonical JSON, and whether the
-- database answers the best-effort release of the key.
pub record Request : Type 0 where
  pub dto : CreateTransactionDto
  pub key : ℕ
  pub client_id : ℕ
  pub fingerprint : ℕ
  pub release_works : Bool

abbrev pub idempotency_ttl_ms : ℕ
idempotency_ttl_ms = 24 * 60 * 60 * 1000

abbrev pub idempotency_stale_ms : ℕ
idempotency_stale_ms = 60 * 1000

abbrev pub is_implemented : Kind → Bool
is_implemented adjustment = false
is_implemented _ = true

abbrev pub is_in_progress : KeyState → Bool
is_in_progress in_progress = true
is_in_progress completed = false

-- `now - created` is negative, hence not stale, where `-` stops at 0.
abbrev pub is_stale_in_progress : ℕ → IdempotencyKey → Bool
is_stale_in_progress now row =
    is_in_progress row.state && ltb idempotency_stale_ms (now - row.created_at)

abbrev pub cached : KeyState → Option TransactionSnapshot → Result LedgerError TransactionSnapshot
cached completed (some body) = ok body
cached _ _ = err in_flight

unfoldable pub resolve_existing : IdempotencyKey → ℕ → Result LedgerError TransactionSnapshot
resolve_existing row fingerprint =
    if row.request_fingerprint == fingerprint
    then cached row.state row.response_body_json
    else err key_conflict

abbrev pub delete_key : ℕ → Db → Db
delete_key key db = record db { keys = remove_where (λ r. r.key == key) db.keys }

abbrev pub complete_key : TransactionSnapshot → IdempotencyKey → IdempotencyKey
complete_key snapshot row = record row {
  state = completed;
  response_status = some 201;
  response_body_json = some snapshot;
}

unfoldable pub post_by_kind : Env → Request → Handler TransactionSnapshot
post_by_kind env req = do plan ← plan_for req.dto; execute_plan env plan req.dto req.key

-- The body of the interactive transaction: the posting and the completion of its key.
unfoldable pub post_and_complete : Env → Request → Handler TransactionSnapshot
post_and_complete env req = do
  snapshot ← post_by_kind env req
  raise_if (not (← gets (λ db. any (λ r. r.key == req.key) db.keys))) record_not_found
  modify (λ db. record db {
    keys = update_where (λ r. r.key == req.key) (complete_key snapshot) db.keys;
  })
  pure snapshot

unfoldable pub in_transaction : Env → Request → Handler TransactionSnapshot
in_transaction env req = transaction roll_back (post_and_complete env req)

unfoldable pub run_claimed : Env → Others → Request → Handler TransactionSnapshot
run_claimed env others req = do
  modify others.before_posting
  catch_error (in_transaction env req) λ e. do
    modify others.before_release
    modify (if req.release_works then delete_key req.key else λ db. db)
    raise e

abbrev pub claimed_key : Env → Request → IdempotencyKey
claimed_key env req = record {
  key = req.key;
  client_id = req.client_id;
  request_fingerprint = req.fingerprint;
  state = in_progress;
  response_status = none;
  response_body_json = none;
  created_at = env.claimed_at;
  expires_at = env.claimed_at + idempotency_ttl_ms;
}

-- The INSERT of the key; where another request has claimed it, its row is read again.
unfoldable pub claim : Env → Others → Request → Handler TransactionSnapshot
claim env others req = do
  modify others.before_claim
  taken ← gets (λ db. find_key req.key db.keys)
  elim taken [
    | none ↦
        modify (λ db. record db { keys = claimed_key env req ∷ db.keys })
        >> run_claimed env others req
    | some _ ↦ do
      modify others.before_reread
      row ← gets (λ db. find_key req.key db.keys)
      elim row [
        | none ↦ raise (unique_violation idempotency_keys_pkey)
        | some r ↦ lift (resolve_existing r req.fingerprint)
      ]
  ]

unfoldable pub look_up :
    Env → Others → Request → Option IdempotencyKey → Handler TransactionSnapshot
look_up env others req none = claim env others req
look_up env others req (some row) =
    if is_stale_in_progress env.checked_at row
    then modify (delete_key req.key) >> claim env others req
    else lift (resolve_existing row req.fingerprint)

unfoldable pub post : Env → Others → Request → Handler TransactionSnapshot
post env others req = do
  raise_if (not (is_implemented req.dto.kind)) kind_not_implemented
  existing ← gets (λ db. find_key req.key db.keys)
  look_up env others req existing
