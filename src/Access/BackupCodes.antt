-- ===== src/Access/BackupCodes.antt =====
-- Api/src/modules/mfa/backup-code.service.ts: one-time recovery codes.
pub mod Once
use vaultchain_fintech_dashb.Prelude.{
  ℕ, suc, ◌+◌, ◌-◌, Bool, true, false, ◌&&◌, ◌||◌, Option, none, some, List, [], ◌∷◌, ◌++◌, map,
  filter, count_where, update_where, remove_where, gets, modify, pure, is_none, ◌==◌, leb, find,
  if◌then◌else◌, ◌>>=◌, ◌>>◌,
}
use vaultchain_fintech_dashb.Prelude.Text.{Text, is_digit, is_upper, is_lower}
use vaultchain_fintech_dashb.Challenge.Mfa.{Crypto, verifies}
use vaultchain_fintech_dashb.Access.Store.{BackupCode, AccessDb, Handler}

-- `toUpperCase` on ASCII, and the characters that `/[^A-Z0-9]/g` leaves.
abbrev pub to_upper : ℕ → ℕ
to_upper c = if is_lower c then c - 32 else c

abbrev pub is_code_char : ℕ → Bool
is_code_char c = is_upper c || is_digit c

unfoldable pub normalize : Text → Text
normalize code = filter is_code_char (map to_upper code)

abbrev pub is_unused_of : ℕ → BackupCode → Bool
is_unused_of user c = c.user_id == user && is_none c.used_at

-- A plaintext code with the id of its row, as the row that is stored.
abbrev pub code_row : Crypto → ℕ → ℕ × Text → BackupCode
code_row crypto user (id, code) = record {
  id = id;
  user_id = user;
  code_hash = crypto.hash (normalize code);
  used_at = none;
}

abbrev pub code_rows : Crypto → ℕ → List (ℕ × Text) → List BackupCode
code_rows crypto user [] = []
code_rows crypto user (c ∷ cs) = code_row crypto user c ∷ code_rows crypto user cs

-- The fresh codes, which the random source makes, replace every code of the user.
unfoldable pub generate : Crypto → ℕ → List (ℕ × Text) → List BackupCode → List BackupCode
generate crypto user fresh rows =
    code_rows crypto user fresh ++ remove_where (λ c. c.user_id == user) rows

abbrev pub is_unused_row : ℕ → BackupCode → Bool
is_unused_row id c = c.id == id && is_none c.used_at

-- The stamp on the first unused code that the candidate verifies against.
abbrev pub redeem : ℕ → List BackupCode → Option BackupCode → Bool × List BackupCode
redeem now rows none = (false, rows)
redeem now rows (some row) = (
  count_where (is_unused_row row.id) rows == 1,
  update_where (is_unused_row row.id) (λ c. record c { used_at = some now }) rows,
)

abbrev pub redeem_matching : Crypto → ℕ → ℕ → Text → List BackupCode → Bool × List BackupCode
redeem_matching crypto now user [] rows = (false, rows)
redeem_matching crypto now user (c ∷ s) rows =
    redeem now rows
      (find (λ r. verifies crypto r.code_hash (c ∷ s)) (filter (is_unused_of user) rows))

unfoldable pub verify : Crypto → ℕ → ℕ → Text → List BackupCode → Bool × List BackupCode
verify crypto now user code rows = redeem_matching crypto now user (normalize code) rows

unfoldable pub remaining : ℕ → List BackupCode → ℕ
remaining user rows = count_where (is_unused_of user) rows

unfoldable pub verify_code : Crypto → ℕ → ℕ → Text → Handler Bool
verify_code crypto now user code = do
  checked ← gets (λ db. verify crypto now user code db.backup_codes)
  modify (λ db. record db { backup_codes = checked.1 })
  pure checked.0
