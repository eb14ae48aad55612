-- ===== src/Challenge/Mfa.antt =====
-- Api/src/modules/mfa/mfa-challenge.service.ts: the table of challenges and the queries on it.
-- Argon2, SHA-256 and the random bytes are parameters.
use vaultchain_fintech_dashb.Prelude.{
  ℕ, suc, ◌+◌, ◌*◌, Bool, false, not, ◌&&◌, ◌||◌, Option, none, some, List, [], ◌∷◌, count_where,
  find, if◌then◌else◌, is_none, is_some, or_else, update_where, any, leb, ltb, ◌==◌,
}
use vaultchain_fintech_dashb.Prelude.Text.{Text, text_eq}
use vaultchain_fintech_dashb.Challenge.Token.{parse_mfa_token, print_token, mfa_prefix}

pub record MfaChallenge : Type 0 where
  pub id : Text
  pub token_hash : Text
  pub user_id : ℕ
  pub purpose : ℕ
  pub expires_at : ℕ
  pub attempt_count : ℕ
  pub max_attempts : ℕ
  pub consumed_at : Option ℕ
  pub created_ip_hash : Option Text
  pub ua_hash : Option Text

pub record CreateChallengeInput : Type 0 where
  pub user_id : ℕ
  pub purpose : ℕ
  pub ttl_seconds : ℕ
  pub max_attempts : ℕ
  pub ip : Option Text
  pub user_agent : Option Text

pub record IssuedChallenge : Type 0 where
  pub token : Text
  pub challenge_id : Text
  pub expires_at : ℕ

pub record OpenChallenge : Type 0 where
  pub id : Text
  pub user_id : ℕ
  pub purpose : ℕ
  pub attempt_count : ℕ
  pub max_attempts : ℕ

-- The functions of the libraries that the services call. `verify` may throw: `none`.
pub record Crypto : Type 0 where
  pub hash : Text → Text
  pub verify : Text → Text → Option Bool
  pub sha256 : Text → Text

-- `await verify(hash, secret).catch(() => false)`.
abbrev pub verifies : Crypto → Text → Text → Bool
verifies crypto token_hash secret = or_else (crypto.verify token_hash secret) false

-- `value ? sha256(value) : null`, where the empty text is false.
abbrev pub fingerprint : Crypto → Option Text → Option Text
fingerprint crypto none = none
fingerprint crypto (some []) = none
fingerprint crypto (some (c ∷ s)) = some (crypto.sha256 (c ∷ s))

abbrev pub row_id : Text → MfaChallenge → Bool
row_id id row = text_eq row.id id

abbrev pub new_challenge : Crypto → ℕ → Text → Text → CreateChallengeInput → MfaChallenge
new_challenge crypto now id secret input = record {
  id = id;
  token_hash = crypto.hash secret;
  user_id = input.user_id;
  purpose = input.purpose;
  expires_at = now + input.ttl_seconds * 1000;
  attempt_count = 0;
  max_attempts = input.max_attempts;
  consumed_at = none;
  created_ip_hash = fingerprint crypto input.ip;
  ua_hash = fingerprint crypto input.user_agent;
}

-- The INSERT fails, and the call throws, where the id is taken.
unfoldable pub create :
    Crypto
    → ℕ
    → Text
    → Text
    → CreateChallengeInput
    → List MfaChallenge
    → Option IssuedChallenge × List MfaChallenge
create crypto now id secret input rows = if any (row_id id) rows then (none, rows) else (
  some (record {
    token = print_token mfa_prefix id secret;
    challenge_id = id;
    expires_at = now + input.ttl_seconds * 1000;
  }),
  new_challenge crypto now id secret input ∷ rows,
)

abbrev pub open_of : MfaChallenge → OpenChallenge
open_of row = record {
  id = row.id;
  user_id = row.user_id;
  purpose = row.purpose;
  attempt_count = row.attempt_count;
  max_attempts = row.max_attempts;
}

-- A row that is consumed, expired or out of attempts.
abbrev pub is_shut : ℕ → MfaChallenge → Bool
is_shut now row =
    is_some row.consumed_at || (leb row.expires_at now || leb row.max_attempts row.attempt_count)

abbrev pub open_row : Crypto → ℕ → Text → Option MfaChallenge → Option OpenChallenge
open_row crypto now secret none = none
open_row crypto now secret (some row) =
    if is_shut now row || not (verifies crypto row.token_hash secret)
    then none
    else some (open_of row)

abbrev pub load_parsed :
    Crypto → ℕ → Option (Text × Text) → List MfaChallenge → Option OpenChallenge
load_parsed crypto now none rows = none
load_parsed crypto now (some (id, secret)) rows = open_row crypto now secret (find (row_id id) rows)

unfoldable pub load_open : Crypto → ℕ → Text → List MfaChallenge → Option OpenChallenge
load_open crypto now presented rows = load_parsed crypto now (parse_mfa_token presented) rows

-- The WHERE clause of `consume` and of `registerFailedAttempt`.
abbrev pub is_live : ℕ → Text → ℕ → MfaChallenge → Bool
is_live now id max_attempts row =
    row_id id row
    && (is_none row.consumed_at && (ltb now row.expires_at && ltb row.attempt_count max_attempts))

unfoldable pub consume : ℕ → Text → ℕ → List MfaChallenge → Bool × List MfaChallenge
consume now id max_attempts rows = (
  count_where (is_live now id max_attempts) rows == 1,
  update_where (is_live now id max_attempts) (λ r. record r { consumed_at = some now }) rows,
)

unfoldable pub register_failed_attempt : ℕ → Text → ℕ → List MfaChallenge → List MfaChallenge
register_failed_attempt now id max_attempts rows =
    update_where (is_live now id max_attempts)
      (λ r. record r { attempt_count = suc r.attempt_count }) rows
