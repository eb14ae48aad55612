-- ===== src/Customers/Store.antt =====
-- The tables and the request data of Api/src/modules/customers/customers.service.ts, and the KYC
-- matrix of Api/src/modules/customers/kyc-transitions.ts.
use vaultchain_fintech_dashb.Prelude.{
  ℕ, Bool, true, false, ◌&&◌, Option, none, some, List, [], ◌∷◌, Action, map, is_none, any,
  if◌then◌else◌, modify, transaction, ◌==◌, ◌||◌,
}
use vaultchain_fintech_dashb.Prelude.Text.{Text, text_eq, to_lower, codes, includes}

pub data KycStatus : Type 0 where
  not_started : KycStatus
  pending : KycStatus
  in_review : KycStatus
  verified : KycStatus
  rejected : KycStatus
  expired : KycStatus

abbrev pub same_kyc : KycStatus → KycStatus → Bool
same_kyc not_started not_started = true
same_kyc pending pending = true
same_kyc in_review in_review = true
same_kyc verified verified = true
same_kyc rejected rejected = true
same_kyc expired expired = true
same_kyc _ _ = false

-- `ALLOWED`: the next statuses of each status.
abbrev pub allowed : KycStatus → List KycStatus
allowed not_started = pending ∷ in_review ∷ verified ∷ rejected ∷ []
allowed pending = not_started ∷ in_review ∷ verified ∷ rejected ∷ expired ∷ []
allowed in_review = not_started ∷ pending ∷ verified ∷ rejected ∷ expired ∷ []
allowed verified = in_review ∷ rejected ∷ expired ∷ []
allowed rejected = not_started ∷ pending ∷ in_review ∷ []
allowed expired = not_started ∷ pending ∷ in_review ∷ []

unfoldable pub is_kyc_transition_allowed : KycStatus → KycStatus → Bool
is_kyc_transition_allowed from to = same_kyc from to || any (same_kyc to) (allowed from)

pub data CustomerStatus : Type 0 where
  active : CustomerStatus
  inactive : CustomerStatus
  closed : CustomerStatus

abbrev pub is_closed : CustomerStatus → Bool
is_closed closed = true
is_closed _ = false

pub record Address : Type 0 where
  pub country : Option Text
  pub city : Option Text
  pub postal_code : Option Text
  pub line1 : Option Text

pub record Customer : Type 0 where
  pub id : ℕ
  pub full_name : Text
  pub email : Text
  pub phone : Option Text
  pub national_id_enc : Text
  pub national_id_last4 : Text
  pub national_id_hash : Text
  pub date_of_birth : Option ℕ
  pub address : Address
  pub wallet_number : Text
  pub kyc_status : KycStatus
  pub risk_level : ℕ
  pub status : CustomerStatus
  pub contract_signed : Bool
  pub row_version : ℕ
  pub deleted_at : Option ℕ

-- The default wallet of a customer, with its account and its balance row.
pub record DefaultWallet : Type 0 where
  pub account_id : ℕ
  pub customer_id : ℕ
  pub wallet_id : ℕ
  pub daily_limit_minor : ℕ
  pub monthly_limit_minor : ℕ
  pub balance_minor : ℕ
  pub available_balance_minor : ℕ

pub record KycVerification : Type 0 where
  pub customer_id : ℕ
  pub status : KycStatus
  pub decided_by : ℕ
  pub decided_at : ℕ

pub data AuditAction : Type 0 where
  customer_create : Text → AuditAction
  customer_kyc_change : KycStatus → KycStatus → AuditAction
  customer_update : Text → AuditAction
  customer_delete : AuditAction
  pii_reveal : AuditAction

pub record AuditRow : Type 0 where
  pub actor_user_id : ℕ
  pub action : AuditAction
  pub resource_id : ℕ

pub record CustomerDb : Type 0 where
  pub customers : List Customer
  pub wallets : List DefaultWallet
  pub kyc_verifications : List KycVerification
  pub audit : List AuditRow

-- The partial UNIQUE indexes over the customers that are not deleted.
pub data CustomerIndex : Type 0 where
  email_index : CustomerIndex
  national_id_index : CustomerIndex

pub data CustomerError : Type 0 where
  not_found : CustomerError
  duplicate_email : CustomerError
  duplicate_national_id : CustomerError
  illegal_kyc_transition : CustomerError
  illegal_status_transition : CustomerError
  conflict : CustomerError
  unique_violation : CustomerIndex → CustomerError

abbrev pub Handler : Type 0 → Type 0
Handler A = Action CustomerError CustomerDb A

pub record AuthPrincipal : Type 0 where
  pub sub : ℕ
  pub permissions : List Text

-- The clock, the ids, the encryptor, and the index name that the driver reports.
pub record CustomerEnv : Type 0 where
  pub now : ℕ
  pub customer_id : ℕ
  pub account_id : ℕ
  pub wallet_id : ℕ
  pub wallet_number : Text
  pub parse_date : Text → ℕ
  pub encrypt : Text → ℕ → Text
  pub blind_index : Text → Text
  pub target : CustomerIndex → Text

-- Equality with `mode: 'insensitive'`.
abbrev pub same_email : Text → Text → Bool
same_email a b = text_eq (map to_lower a) (map to_lower b)

abbrev pub is_live : ℕ → Customer → Bool
is_live id c = c.id == id && is_none c.deleted_at

-- `toDuplicateCustomerError`, on a UNIQUE violation.
unfoldable pub to_duplicate_customer_error : CustomerEnv → CustomerIndex → CustomerError
to_duplicate_customer_error env index =
    if includes (codes "national_id") (env.target index)
    then duplicate_national_id
    else if includes (codes "email") (env.target index)
    then duplicate_email
    else unique_violation index

-- The index that a live row trips against the other live rows.
abbrev pub tripped_index : Customer → List Customer → Option CustomerIndex
tripped_index c others =
    if any (λ d. is_none d.deleted_at && same_email d.email c.email) others
    then some email_index
    else if any (λ d. is_none d.deleted_at && text_eq d.national_id_hash c.national_id_hash) others
    then some national_id_index
    else none

abbrev pub record_audit : ℕ → AuditAction → ℕ → Handler (Unit {0})
record_audit actor action resource = modify (λ db. record db {
  audit = (record { actor_user_id = actor; action = action; resource_id = resource }) ∷ db.audit;
})

-- A transaction restores every table where it throws.
abbrev pub in_transaction : {A : Type 0} → Handler A → Handler A
in_transaction body = transaction (λ before after. before) body
