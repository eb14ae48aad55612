-- ===== src/Customers/Create.antt =====
-- `create` and `softDelete` of Api/src/modules/customers/customers.service.ts.
use vaultchain_fintech_dashb.Prelude.{
  ℕ, suc, Bool, false, ◌&&◌, Option, none, some, [], ◌∷◌, any, raise_if, gets, pure, modify,
  count_where, update_where, is_none, raise, ◌==◌, ◌>>=◌, ◌>>◌,
}
use vaultchain_fintech_dashb.Prelude.Text.{Text, text_eq, take_last}
use vaultchain_fintech_dashb.Mask.{mask_email, trim}
use vaultchain_fintech_dashb.Customers.Store.{
  Customer, Handler, Address, CustomerEnv, CustomerIndex, DefaultWallet, in_transaction,
  not_started, active, duplicate_email, is_live, same_email, to_duplicate_customer_error,
  tripped_index, duplicate_national_id, not_found, record_audit, customer_create, customer_delete,
}
use vaultchain_fintech_dashb.Customers.Read.{CustomerDetailDto, get_by_id}

pub record CreateCustomerDto : Type 0 where
  pub full_name : Text
  pub email : Text
  pub phone : Option Text
  pub national_id : Text
  pub date_of_birth : Option Text
  pub address : Option Address

abbrev pub default_daily_limit_minor : ℕ
default_daily_limit_minor = 1000000

abbrev pub default_monthly_limit_minor : ℕ
default_monthly_limit_minor = 10000000

-- `value?.trim() ?? null`.
abbrev pub trimmed : Option Text → Option Text
trimmed none = none
trimmed (some s) = some (trim s)

-- `value ? new Date(value) : null`.
abbrev pub date_of : CustomerEnv → Option Text → Option ℕ
date_of env none = none
date_of env (some []) = none
date_of env (some (c ∷ s)) = some (env.parse_date (c ∷ s))

abbrev pub trimmed_address : Option Address → Address
trimmed_address none = record { country = none; city = none; postal_code = none; line1 = none }
trimmed_address (some a) = record {
  country = trimmed a.country;
  city = trimmed a.city;
  postal_code = trimmed a.postal_code;
  line1 = trimmed a.line1;
}

abbrev pub new_customer : CustomerEnv → CreateCustomerDto → Customer
new_customer env dto =
    let national_id = trim dto.national_id in
    record {
      id = env.customer_id;
      full_name = trim dto.full_name;
      email = trim dto.email;
      phone = trimmed dto.phone;
      national_id_enc = env.encrypt national_id env.customer_id;
      national_id_last4 = take_last 4 national_id;
      national_id_hash = env.blind_index national_id;
      date_of_birth = date_of env dto.date_of_birth;
      address = trimmed_address dto.address;
      wallet_number = env.wallet_number;
      kyc_status = not_started;
      risk_level = 0;
      status = active;
      contract_signed = false;
      row_version = 0;
      deleted_at = none;
    }

abbrev pub default_wallet : CustomerEnv → DefaultWallet
default_wallet env = record {
  account_id = env.account_id;
  customer_id = env.customer_id;
  wallet_id = env.wallet_id;
  daily_limit_minor = default_daily_limit_minor;
  monthly_limit_minor = default_monthly_limit_minor;
  balance_minor = 0;
  available_balance_minor = 0;
}

abbrev pub has_email : Text → Customer → Bool
has_email email c = is_none c.deleted_at && same_email c.email email

abbrev pub has_national_id : Text → Customer → Bool
has_national_id hash c = is_none c.deleted_at && text_eq c.national_id_hash hash

-- The INSERT, which trips an index where a live row has the same e-mail or national id.
abbrev pub raise_index : CustomerEnv → Option CustomerIndex → Handler (Unit {0})
raise_index env none = pure tt
raise_index env (some index) = raise (to_duplicate_customer_error env index)

unfoldable pub insert_customer : CustomerEnv → Customer → Handler (Unit {0})
insert_customer env c = do
  index ← gets (λ db. tripped_index c db.customers)
  raise_index env index
  modify (λ db. record db { customers = c ∷ db.customers })

unfoldable pub create_rows : CustomerEnv → CreateCustomerDto → ℕ → Handler (Unit {0})
create_rows env dto actor = do
  let c = new_customer env dto
  raise_if (← gets (λ db. any (has_email c.email) db.customers)) duplicate_email
  raise_if (← gets (λ db. any (has_national_id c.national_id_hash) db.customers))
      duplicate_national_id
  insert_customer env c
  modify (λ db. record db { wallets = default_wallet env ∷ db.wallets })
  record_audit actor (customer_create (mask_email c.email)) env.customer_id

unfoldable pub create : CustomerEnv → CreateCustomerDto → ℕ → Handler CustomerDetailDto
create env dto actor = do
  in_transaction (create_rows env dto actor)
  get_by_id env.customer_id false none

abbrev pub delete_row : ℕ → Customer → Customer
delete_row now c = record c { deleted_at = some now; row_version = suc c.row_version }

unfoldable pub soft_delete_rows : CustomerEnv → ℕ → ℕ → Handler (Unit {0})
soft_delete_rows env id actor = do
  count ← gets (λ db. count_where (is_live id) db.customers)
  modify
      (λ db. record db { customers = update_where (is_live id) (delete_row env.now) db.customers })
  raise_if (count == 0) not_found
  record_audit actor customer_delete id

unfoldable pub soft_delete : CustomerEnv → ℕ → ℕ → Handler (Unit {0})
soft_delete env id actor = in_transaction (soft_delete_rows env id actor)
