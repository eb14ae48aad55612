-- ===== src/Auth/Store.antt =====
-- The tables that Api/src/modules/auth/auth.service.ts reads and writes, and what a request takes
-- from outside.
use vaultchain_fintech_dashb.Prelude.{ℕ, Bool, Option, none, some, List, ◌==◌, Action, true, false}
use vaultchain_fintech_dashb.Prelude.Text.{Text}
use vaultchain_fintech_dashb.Challenge.Mfa.{MfaChallenge, Crypto}

pub record User : Type 0 where
  pub id : ℕ
  pub email : Text
  pub display_name : Text
  pub password_hash : Text
  -- Whether its status is ACTIVE.
  pub is_active : Bool
  pub failed_login_count : ℕ
  pub locked_until : Option ℕ
  pub last_login_at : Option ℕ
  pub mfa_enabled : Bool
  pub mfa_confirmed_at : Option ℕ
  pub totp_secret_enc : Option Text
  pub last_used_totp_step : Option ℕ
  pub permission_version : ℕ
  -- The permission codes of each of the user's roles.
  pub user_roles : List (List ℕ)

pub record RefreshToken : Type 0 where
  pub id : Text
  pub token_hash : Text
  pub user_id : ℕ
  pub session_id : Text
  pub expires_at : ℕ
  pub revoked_at : Option ℕ
  pub replaced_by_id : Option Text

pub data FailureReason : Type 0 where
  locked : FailureReason
  unknown_user : FailureReason
  bad_password : FailureReason

pub record LoginAttempt : Type 0 where
  pub user_id : Option ℕ
  pub email_hash : Option Text
  pub success : Bool
  pub failure_reason : Option FailureReason
  pub ip_hash : Option Text

pub record AuthDb : Type 0 where
  pub users : List User
  pub tokens : List RefreshToken
  pub attempts : List LoginAttempt
  pub challenges : List MfaChallenge
  -- The users whose lockout was announced to them.
  pub lockout_alerts : List ℕ

pub data AuthError : Type 0 where
  account_locked : AuthError
  invalid_credentials : AuthError
  mfa_enrollment_required : AuthError
  invalid_token : AuthError
  token_reused : AuthError
  -- What Prisma throws for a missing row and for a taken key.
  record_not_found : AuthError
  unique_violation : AuthError

abbrev pub Handler : Type 0 → Type 0
Handler A = Action AuthError AuthDb A

-- What other requests do to the tables at the two places where a decision is awaited.
pub record AuthOthers : Type 0 where
  pub before_lock : AuthDb → AuthDb
  pub before_rotate : AuthDb → AuthDb

abbrev pub alone : AuthOthers
alone = record { before_lock = λ db. db; before_rotate = λ db. db }

-- The clock, the ids and secrets of the request, the configuration, and the services it calls:
-- `remembered` is `RememberedDeviceService.verify` with the client's address and agent, `sign` the
-- JWT.
pub record AuthEnv : Type 0 where
  pub now : ℕ
  pub crypto : Crypto
  pub token_id : Text
  pub token_secret : Text
  pub session_id : Text
  pub challenge_id : Text
  pub challenge_secret : Text
  pub remember_device_enabled : Bool
  pub mfa_required : Bool
  pub challenge_ttl : ℕ
  pub max_verify_attempts : ℕ
  pub login_purpose : ℕ
  pub remembered : Text → Option ℕ
  pub sign : ℕ → List ℕ → ℕ → Text
  -- Whether the lockout alert is delivered.
  pub alert_works : Bool

abbrev pub user_id : ℕ → User → Bool
user_id id u = u.id == id

-- A nullable time that equals another.
abbrev pub same_time : Option ℕ → Option ℕ → Bool
same_time none none = true
same_time (some a) (some b) = a == b
same_time _ _ = false
