-- ===== src/Customers/Update.antt =====
-- `update` of Api/src/modules/customers/customers.service.ts.
use vaultchain_fintech_dashb.Prelude.{
  ℕ, suc, Bool, true, false, not, ◌&&◌, Option, none, some, [], ◌∷◌, find, any, raise_if, gets,
  pure, modify, count_where, update_where, or_raise, or_else, if◌then◌else◌, is_none, ◌==◌, ◌>>◌,
  filter, ◌>>=◌,
}
use vaultchain_fintech_dashb.Prelude.Text.{Text}
use vaultchain_fintech_dashb.Mask.{mask_email, trim}
use vaultchain_fintech_dashb.Customers.Store.{
  verified, rejected, Customer, Handler, Address, CustomerEnv, KycStatus, CustomerStatus, is_live,
  same_email, same_kyc, not_found, tripped_index, duplicate_email, in_transaction, record_audit,
  customer_kyc_change, customer_update, is_kyc_transition_allowed, conflict, illegal_kyc_transition,
  is_closed, illegal_status_transition,
}
use vaultchain_fintech_dashb.Customers.Create.{trimmed, trimmed_address, raise_index}
use vaultchain_fintech_dashb.Customers.Read.{CustomerDetailDto, get_by_id}

pub record UpdateCustomerDto : Type 0 where
  pub full_name : Option Text
  pub email : Option Text
  pub phone : Option Text
  pub date_of_birth : Option Text
  pub address : Option Address
  pub kyc_status : Option KycStatus
  pub status : Option CustomerStatus
  pub contract_signed : Option Bool
  pub row_version : ℕ

-- `email && email.toLowerCase() !== existing.email.toLowerCase()`, and a live row of another
-- customer that has it.
abbrev pub takes_email : ℕ → Text → Customer → Bool
takes_email id email c = is_none c.deleted_at && (same_email c.email email && not (c.id == id))

abbrev pub email_changed : Option Text → Customer → Bool
email_changed none existing = false
email_changed (some []) existing = false
email_changed (some (c ∷ s)) existing = not (same_email (c ∷ s) existing.email)

-- `dto.phone.trim() || null`.
abbrev pub phone_of : Text → Option Text
phone_of [] = none
phone_of (c ∷ s) = some (c ∷ s)

abbrev pub next_phone : Option Text → Customer → Option Text
next_phone none existing = existing.phone
next_phone (some s) existing = phone_of (trim s)

abbrev pub next_date : CustomerEnv → Option Text → Customer → Option ℕ
next_date env none existing = existing.date_of_birth
next_date env (some s) existing = some (env.parse_date s)

abbrev pub next_address : Option Address → Customer → Address
next_address none existing = existing.address
next_address (some a) existing = trimmed_address (some a)

abbrev pub next_kyc : UpdateCustomerDto → Customer → KycStatus
next_kyc dto existing = or_else dto.kyc_status existing.kyc_status

abbrev pub next_status : UpdateCustomerDto → Customer → CustomerStatus
next_status dto existing = or_else dto.status existing.status

-- The columns that the UPDATE sets, from the row that was read and the request; the version is
-- counted from the stored row.
abbrev pub updated : CustomerEnv → UpdateCustomerDto → Customer → Customer → Customer
updated env dto existing c = record c {
  full_name = or_else (trimmed dto.full_name) existing.full_name;
  email = or_else (trimmed dto.email) existing.email;
  phone = next_phone dto.phone existing;
  date_of_birth = next_date env dto.date_of_birth existing;
  address = next_address dto.address existing;
  kyc_status = next_kyc dto existing;
  status = next_status dto existing;
  contract_signed = or_else dto.contract_signed existing.contract_signed;
  row_version = suc c.row_version;
}

-- `where: { id, deletedAt: null, rowVersion: dto.rowVersion }`.
abbrev pub is_version : ℕ → ℕ → Customer → Bool
is_version id version c = is_live id c && c.row_version == version

abbrev pub kyc_changed : UpdateCustomerDto → Customer → Bool
kyc_changed dto existing = not (same_kyc (next_kyc dto existing) existing.kyc_status)

abbrev pub is_decision : KycStatus → Bool
is_decision verified = true
is_decision rejected = true
is_decision _ = false

-- The rows of other customers, against whose live ones the UPDATE may trip an index.
abbrev pub is_other : ℕ → Customer → Bool
is_other id c = not (c.id == id)

unfoldable pub write_update : CustomerEnv → ℕ → UpdateCustomerDto → Customer → Handler (Unit {0})
write_update env id dto existing = do
  count ← gets (λ db. count_where (is_version id dto.row_version) db.customers)
  index ←
      gets (λ db.
        tripped_index (updated env dto existing existing) (filter (is_other id) db.customers))
  raise_index env (if count == 0 then none else index)
  modify (λ db. record db {
    customers =
        update_where (is_version id dto.row_version) (updated env dto existing) db.customers;
  })
  raise_if (count == 0) conflict

abbrev pub store_decision : CustomerEnv → ℕ → KycStatus → ℕ → Handler (Unit {0})
store_decision env id status actor =
    if is_decision status
    then modify (λ db. record db {
      kyc_verifications =
          (record { customer_id = id; status = status; decided_by = actor; decided_at = env.now })
          ∷ db.kyc_verifications;
    })
    else pure tt

unfoldable pub record_kyc_change :
    CustomerEnv → ℕ → UpdateCustomerDto → Customer → ℕ → Handler (Unit {0})
record_kyc_change env id dto existing actor =
    if kyc_changed dto existing
    then store_decision env id (next_kyc dto existing) actor
      >> record_audit actor (customer_kyc_change existing.kyc_status (next_kyc dto existing)) id
    else pure tt

unfoldable pub check_update : ℕ → UpdateCustomerDto → Customer → Handler (Unit {0})
check_update id dto existing = do
  taken ← gets (λ db. any (takes_email id (or_else (trimmed dto.email) [])) db.customers)
  raise_if (email_changed (trimmed dto.email) existing && taken) duplicate_email
  raise_if
      (kyc_changed dto existing
        && not (is_kyc_transition_allowed existing.kyc_status (next_kyc dto existing)))
      illegal_kyc_transition
  raise_if (is_closed existing.status && not (is_closed (next_status dto existing)))
      illegal_status_transition

unfoldable pub update_rows : CustomerEnv → ℕ → UpdateCustomerDto → ℕ → Handler (Unit {0})
update_rows env id dto actor = do
  found ← gets (λ db. find (is_live id) db.customers)
  existing ← or_raise found not_found
  check_update id dto existing
  write_update env id dto existing
  record_kyc_change env id dto existing actor
  record_audit actor (customer_update (mask_email (or_else (trimmed dto.email) existing.email))) id

unfoldable pub update : CustomerEnv → ℕ → UpdateCustomerDto → ℕ → Handler CustomerDetailDto
update env id dto actor = do in_transaction (update_rows env id dto actor); get_by_id id false none
