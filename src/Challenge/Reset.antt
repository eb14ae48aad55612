-- ===== src/Challenge/Reset.antt =====
-- Api/src/modules/password-reset/password-reset-challenge.service.ts: the table of reset challenges,
-- whose second factor is stamped before the challenge is consumed.
use vaultchain_fintech_dashb.Prelude.{
  ℕ, suc, ◌+◌, ◌*◌, Bool, not, ◌&&◌, ◌||◌, Option, none, some, List, ◌∷◌, count_where, find,
  if◌then◌else◌, is_none, is_some, update_where, any, leb, ltb, ◌==◌,
}
use vaultchain_fintech_dashb.Prelude.Text.{Text, text_eq}
use vaultchain_fintech_dashb.Challenge.Mfa.{Crypto, verifies, fingerprint}
use vaultchain_fintech_dashb.Challenge.Token.{parse_reset_token, print_token, reset_prefix}

-- The factor that was proven: 'totp', 'backup_code' or 'admin_approval'.
pub data ResetMethod : Type 0 where
  totp : ResetMethod
  backup_code : ResetMethod
  admin_approval : ResetMethod

pub record ResetChallenge : Type 0 where
  pub id : Text
  pub token_hash : Text
  pub user_id : ℕ
  pub purpose : ℕ
  pub expires_at : ℕ
  pub attempt_count : ℕ
  pub max_attempts : ℕ
  pub consumed_at : Option ℕ
  pub factor_verified_at : Option ℕ
  pub factor_method : Option ResetMethod
  pub created_ip_hash : Option Text
  pub ua_hash : Option Text

pub record CreateResetChallengeInput : Type 0 where
  pub user_id : ℕ
  pub purpose : ℕ
  pub ttl_seconds : ℕ
  pub max_attempts : ℕ
  pub ip : Option Text
  pub user_agent : Option Text

pub record IssuedResetChallenge : Type 0 where
  pub token : Text
  pub challenge_id : Text
  pub expires_at : ℕ

pub record OpenResetChallenge : Type 0 where
  pub id : Text
  pub user_id : ℕ
  pub purpose : ℕ
  pub attempt_count : ℕ
  pub max_attempts : ℕ
  pub created_ip_hash : Option Text
  pub ua_hash : Option Text
  pub factor_verified_at : Option ℕ
  pub factor_method : Option ResetMethod

abbrev pub row_id : Text → ResetChallenge → Bool
row_id id row = text_eq row.id id

abbrev pub new_challenge : Crypto → ℕ → Text → Text → CreateResetChallengeInput → ResetChallenge
new_challenge crypto now id secret input = record {
  id = id;
  token_hash = crypto.hash secret;
  user_id = input.user_id;
  purpose = input.purpose;
  expires_at = now + input.ttl_seconds * 1000;
  attempt_count = 0;
  max_attempts = input.max_attempts;
  consumed_at = none;
  factor_verified_at = none;
  factor_method = none;
  created_ip_hash = fingerprint crypto input.ip;
  ua_hash = fingerprint crypto input.user_agent;
}

-- The INSERT fails, and the call throws, where the id is taken.
unfoldable pub create :
    Crypto
    → ℕ
    → Text
    → Text
    → CreateResetChallengeInput
    → List ResetChallenge
    → Option IssuedResetChallenge × List ResetChallenge
create crypto now id secret input rows = if any (row_id id) rows then (none, rows) else (
  some (record {
    token = print_token reset_prefix id secret;
    challenge_id = id;
    expires_at = now + input.ttl_seconds * 1000;
  }),
  new_challenge crypto now id secret input ∷ rows,
)

abbrev pub open_of : ResetChallenge → OpenResetChallenge
open_of row = record {
  id = row.id;
  user_id = row.user_id;
  purpose = row.purpose;
  attempt_count = row.attempt_count;
  max_attempts = row.max_attempts;
  created_ip_hash = row.created_ip_hash;
  ua_hash = row.ua_hash;
  factor_verified_at = row.factor_verified_at;
  factor_method = row.factor_method;
}

-- A row that is consumed, expired or out of attempts.
abbrev pub is_shut : ℕ → ResetChallenge → Bool
is_shut now row =
    is_some row.consumed_at || (leb row.expires_at now || leb row.max_attempts row.attempt_count)

abbrev pub open_row : Crypto → ℕ → Text → Option ResetChallenge → Option OpenResetChallenge
open_row crypto now secret none = none
open_row crypto now secret (some row) =
    if is_shut now row || not (verifies crypto row.token_hash secret)
    then none
    else some (open_of row)

abbrev pub load_parsed :
    Crypto → ℕ → Option (Text × Text) → List ResetChallenge → Option OpenResetChallenge
load_parsed crypto now none rows = none
load_parsed crypto now (some (id, secret)) rows = open_row crypto now secret (find (row_id id) rows)

unfoldable pub load_open : Crypto → ℕ → Text → List ResetChallenge → Option OpenResetChallenge
load_open crypto now presented rows = load_parsed crypto now (parse_reset_token presented) rows

-- A row that is not consumed, not expired and has attempts left.
abbrev pub is_live : ℕ → Text → ℕ → ResetChallenge → Bool
is_live now id max_attempts row =
    row_id id row
    && (is_none row.consumed_at && (ltb now row.expires_at && ltb row.attempt_count max_attempts))

abbrev pub is_unverified : ℕ → Text → ℕ → ResetChallenge → Bool
is_unverified now id max_attempts row =
    is_live now id max_attempts row && is_none row.factor_verified_at

abbrev pub is_verified : ℕ → Text → ℕ → ResetChallenge → Bool
is_verified now id max_attempts row =
    is_live now id max_attempts row && is_some row.factor_verified_at

abbrev pub stamp : ℕ → ResetMethod → ResetChallenge → ResetChallenge
stamp now method row = record row { factor_verified_at = some now; factor_method = some method }

unfoldable pub mark_factor_verified :
    ℕ → Text → ResetMethod → ℕ → List ResetChallenge → Bool × List ResetChallenge
mark_factor_verified now id method max_attempts rows = (
  count_where (is_unverified now id max_attempts) rows == 1,
  update_where (is_unverified now id max_attempts) (stamp now method) rows,
)

unfoldable pub consume : ℕ → Text → ℕ → List ResetChallenge → Bool × List ResetChallenge
consume now id max_attempts rows = (
  count_where (is_verified now id max_attempts) rows == 1,
  update_where (is_verified now id max_attempts) (λ r. record r { consumed_at = some now }) rows,
)

unfoldable pub register_failed_attempt : ℕ → Text → ℕ → List ResetChallenge → List ResetChallenge
register_failed_attempt now id max_attempts rows =
    update_where (is_live now id max_attempts)
      (λ r. record r { attempt_count = suc r.attempt_count }) rows
