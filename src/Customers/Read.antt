-- ===== src/Customers/Read.antt =====
-- The reads of Api/src/modules/customers/customers.service.ts: who sees a contact field unmasked.

use vaultchain_fintech_dashb.Prelude.{
  ℕ, Bool, false, ◌&&◌, Option, none, some, find, any, or_raise, gets, pure, if◌then◌else◌, ◌>>=◌,
  ◌>>◌,
}
use vaultchain_fintech_dashb.Prelude.Text.{Text, text_eq, codes}
use vaultchain_fintech_dashb.Mask.{
  mask_email, mask_phone, mask_name, mask_wallet_number, mask_address,
}
use vaultchain_fintech_dashb.Customers.Store.{
  Customer, Handler, AuthPrincipal, KycStatus, CustomerStatus, Address, is_live, not_found,
  record_audit, pii_reveal,
}

pub record CustomerListItemDto : Type 0 where
  pub id : ℕ
  pub full_name : Text
  pub email : Text
  pub phone : Option Text
  pub wallet_number : Option Text
  pub national_id_last4 : Text
  pub kyc_status : KycStatus
  pub risk_level : ℕ
  pub status : CustomerStatus

pub record CustomerDetailDto : Type 0 where
  pub item : CustomerListItemDto
  pub date_of_birth : Option ℕ
  pub address : Address
  pub contract_signed : Bool
  pub row_version : ℕ

abbrev pub pii_reveal_permission : Text
pii_reveal_permission = codes "customers.pii.reveal"

-- Nobody, and whoever lacks the permission, sees masked fields.
unfoldable pub can_reveal_pii : Option AuthPrincipal → Bool
can_reveal_pii none = false
can_reveal_pii (some p) = any (λ code. text_eq code pii_reveal_permission) p.permissions

unfoldable pub map_customer_list_item : Customer → Bool → CustomerListItemDto
map_customer_list_item c reveal = record {
  id = c.id;
  full_name = if reveal then c.full_name else mask_name c.full_name;
  email = if reveal then c.email else mask_email c.email;
  phone = if reveal then c.phone else mask_phone c.phone;
  wallet_number =
      if reveal then some c.wallet_number else mask_wallet_number (some c.wallet_number);
  national_id_last4 = c.national_id_last4;
  kyc_status = c.kyc_status;
  risk_level = c.risk_level;
  status = c.status;
}

unfoldable pub map_customer_detail : Customer → Bool → CustomerDetailDto
map_customer_detail c reveal = record {
  item = map_customer_list_item c reveal;
  date_of_birth = c.date_of_birth;
  address = record {
    country = c.address.country;
    city = if reveal then c.address.city else none;
    postal_code = if reveal then c.address.postal_code else none;
    line1 = if reveal then c.address.line1 else mask_address c.address.line1;
  };
  contract_signed = c.contract_signed;
  row_version = c.row_version;
}

abbrev pub actor_of : Option AuthPrincipal → ℕ
actor_of none = 0
actor_of (some p) = p.sub

unfoldable pub get_by_id : ℕ → Bool → Option AuthPrincipal → Handler CustomerDetailDto
get_by_id id requested principal = do
  found ← gets (λ db. find (is_live id) db.customers)
  customer ← or_raise found not_found
  if requested && can_reveal_pii principal
      then record_audit (actor_of principal) pii_reveal id
      else pure tt
  pure (map_customer_detail customer (requested && can_reveal_pii principal))

unfoldable pub assert_customer_exists : ℕ → Handler (Unit {0})
assert_customer_exists id = do
  found ← gets (λ db. find (is_live id) db.customers)
  customer ← or_raise found not_found
  pure tt
