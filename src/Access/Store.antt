-- ===== src/Access/Store.antt =====
-- The tables of Api/src/modules/mfa and Api/src/modules/password-reset beside those of the
-- sessions, and what a request takes from outside.
use vaultchain_fintech_dashb.Prelude.{
  ℕ, Bool, Option, List, ◌∷◌, ◌++◌, Action, Result, ok, err, modify, if◌then◌else◌,
}
use vaultchain_fintech_dashb.Prelude.Text.{Text}
use vaultchain_fintech_dashb.Challenge.Reset.{ResetChallenge, ResetMethod}
use vaultchain_fintech_dashb.Auth.Store.{AuthDb, AuthError, AuthEnv}

pub record RememberedDevice : Type 0 where
  pub id : Text
  pub user_id : ℕ
  pub token_hash : Text
  pub ua_hash : Text
  pub ip_prefix : Text
  pub expires_at : ℕ
  pub revoked_at : Option ℕ

pub record BackupCode : Type 0 where
  pub id : ℕ
  pub user_id : ℕ
  pub code_hash : Text
  pub used_at : Option ℕ

pub data RequestStatus : Type 0 where
  pending : RequestStatus
  approved : RequestStatus
  denied : RequestStatus
  expired : RequestStatus

pub record ResetRequest : Type 0 where
  pub id : Text
  pub user_id : ℕ
  pub token_hash : Text
  pub status : RequestStatus
  pub ip_hash : Option Text
  pub ip_prefix : Option Text
  pub user_agent : Option Text
  pub expires_at : ℕ
  pub decided_by : Option ℕ
  pub decided_at : Option ℕ
  pub challenge_id : Option Text
  pub completed_at : Option ℕ
  pub created_at : ℕ

-- The `action` of an audit row, with the context that it carries.
pub data AccessAction : Type 0 where
  mfa_verify : ResetMethod → AccessAction
  reset_initiate : Text → Bool → AccessAction
  reset_verify_code : ResetMethod → AccessAction
  reset_verify : AccessAction
  reset_complete : Option ResetMethod → AccessAction
  admin_reset : ℕ → AccessAction
  mfa_enroll_start : AccessAction
  mfa_enroll_confirm : AccessAction
  mfa_disable : AccessAction
  mfa_regenerate : AccessAction
  mfa_admin_reset : ℕ → AccessAction
  mfa_revoke_device : AccessAction
  request_create : Text → Bool → AccessAction
  request_approve : ℕ → AccessAction
  request_deny : ℕ → AccessAction
  request_claim : AccessAction
  request_complete : AccessAction

-- The `resourceId` of an audit row: a user's id, or that of another row.
pub data ResourceId : Type 0 where
  of_user : ℕ → ResourceId
  of_row : Text → ResourceId

pub record AccessAudit : Type 0 where
  pub actor_user_id : Option ℕ
  pub action : AccessAction
  pub resource_id : Option ResourceId
  pub success : Bool
  pub ip_hash : Option Text

pub record AccessDb : Type 0 where
  pub auth : AuthDb
  pub devices : List RememberedDevice
  pub backup_codes : List BackupCode
  pub reset_challenges : List ResetChallenge
  pub reset_requests : List ResetRequest
  pub audit : List AccessAudit
  -- The users that a security alert was sent to.
  pub alerts : List ℕ

-- The exceptions, named for their codes; the last two are not HttpExceptions.
pub data AccessError : Type 0 where
  wrong_challenge : AccessError
  invalid_code : AccessError
  challenge_consumed : AccessError
  reset_invalid_code : AccessError
  reset_challenge_consumed : AccessError
  reset_factor_required : AccessError
  already_enrolled : AccessError
  no_setup_in_progress : AccessError
  not_enabled : AccessError
  invalid_password : AccessError
  weak_password : AccessError
  same_password : AccessError
  self_reset_forbidden : AccessError
  user_not_found : AccessError
  request_not_found : AccessError
  request_expired : AccessError
  request_already_decided : AccessError
  auth_error : AuthError → AccessError
  missing_row : AccessError
  taken_key : AccessError
  undecryptable : AccessError

abbrev pub Handler : Type 0 → Type 0
Handler A = Action AccessError AccessDb A

-- The request's clock, ids and secrets, the configuration, and the libraries that it calls. `totp`
-- is otplib's verification with the code, and the step above which it accepts; it returns the step
-- that it accepted. `decrypt` throws (`none`) where the ciphertext is bound to another user.
pub record AccessEnv : Type 0 where
  pub auth : AuthEnv
  pub totp : Text → Text → Option ℕ → Option ℕ
  pub decrypt : Text → ℕ → Option Text
  pub device_id : Text
  pub device_secret : Text
  pub remember_ttl : ℕ
  pub reset_id : Text
  pub reset_secret : Text
  pub reset_ttl : ℕ
  pub reset_max_attempts : ℕ
  pub reset_purpose : ℕ
  pub request_id : Text
  pub request_secret : Text
  pub request_ttl : ℕ
  pub request_cooldown : ℕ
  -- The id and the secret of a decoy.
  pub decoy_id : Text
  pub decoy_secret : Text
  -- Whether the database has the partial unique index on the pending requests of a user.
  pub pending_index : Bool
  -- The users that hold the permission to reset passwords.
  pub reset_admins : List ℕ
  -- Whether the alerts of the request are delivered.
  pub alerts_work : Bool

-- A call of another service, whose exception passes through.
abbrev pub in_auth :
    {A : Type 0} → AccessDb → Result AuthError A × AuthDb → Result AccessError A × AccessDb
in_auth db (ok a, t) = (ok a, record db { auth = t })
in_auth db (err e, t) = (err (auth_error e), record db { auth = t })

abbrev pub call_auth : {A : Type 0} → Action AuthError AuthDb A → Handler A
call_auth m db = in_auth db (m db.auth)

abbrev pub audit_row :
    Option ℕ → AccessAction → Option ResourceId → Bool → Option Text → Handler (Unit {0})
audit_row actor action resource success ip_hash = modify (λ db. record db {
  audit =
      (record {
        actor_user_id = actor;
        action = action;
        resource_id = resource;
        success = success;
        ip_hash = ip_hash;
      })
      ∷ db.audit;
})

-- Best effort: an alert that is not delivered changes nothing.
abbrev pub send_alert : Bool → ℕ → Handler (Unit {0})
send_alert works id = modify (λ db. if works then record db { alerts = id ∷ db.alerts } else db)

abbrev pub send_alerts : Bool → List ℕ → Handler (Unit {0})
send_alerts works ids = modify (λ db. if works then record db { alerts = ids ++ db.alerts } else db)
