-- ===== src/Scenarios/Edits.antt =====
-- Two operators edit one customer from one version.
use vaultchain_fintech_dashb.Prelude.{
  true, false, none, some, [], ◌∷◌, ◌≡◌, refl, ok, is_ok, find, count_where, filter, ◌<◌, arith,
}
use vaultchain_fintech_dashb.Prelude.Text.{codes}
use vaultchain_fintech_dashb.Customers.Store.{
  Customer, CustomerDb, CustomerEnv, verified, not_started, active, is_live,
  is_kyc_transition_allowed, AuthPrincipal,
}
use vaultchain_fintech_dashb.Customers.Read.{get_by_id, CustomerDetailDto, map_customer_detail}
use vaultchain_fintech_dashb.Customers.Hiding.{get_by_id_hides, with_contact}
use vaultchain_fintech_dashb.Customers.Update.{
  UpdateCustomerDto, update, update_rows, check_update, write_update, record_kyc_change, is_other,
}
use vaultchain_fintech_dashb.Customers.Versions.{update_once_per_version}
use vaultchain_fintech_dashb.Customers.States.{update-IsNext, IsNext}

abbrev env : CustomerEnv
env = record {
  now = 50;
  customer_id = 8;
  account_id = 81;
  wallet_id = 82;
  wallet_number = codes "1234567890123456";
  parse_date = λ s. 0;
  encrypt = λ s id. s;
  blind_index = λ s. s;
  target = λ index. [];
}

abbrev grace : Customer
grace = record {
  id = 6;
  full_name = codes "Grace Hopper";
  email = codes "grace@navy.test";
  phone = none;
  national_id_enc = codes "sealed";
  national_id_last4 = codes "0146";
  national_id_hash = codes "hash";
  date_of_birth = none;
  address = record {
    country = some (codes "US");
    city = some (codes "NY");
    postal_code = none;
    line1 = none;
  };
  wallet_number = codes "1234567890123456";
  kyc_status = not_started;
  risk_level = 0;
  status = active;
  contract_signed = false;
  row_version = 3;
  deleted_at = none;
}

abbrev db : CustomerDb
db = record { customers = grace ∷ []; wallets = []; kyc_verifications = []; audit = [] }

-- A verification of the customer, from its version 3.
abbrev edit : UpdateCustomerDto
edit = record {
  full_name = none;
  email = none;
  phone = none;
  date_of_birth = none;
  address = none;
  kyc_status = some verified;
  status = none;
  contract_signed = none;
  row_version = 3;
}

abbrev edited : CustomerDb
edited = (update env 6 edit 2 db).1

abbrev shown : CustomerDetailDto
shown = map_customer_detail (record grace { kyc_status = verified; row_version = 4 }) false

edit-returns : update env 6 edit 2 db ≡ (ok shown, edited)
unfolding update update_rows check_update write_update record_kyc_change is_kyc_transition_allowed
    get_by_id
edit-returns = refl

one_live : count_where (is_live 6) db.customers < 2
one_live = omega arith

update-IsNext_example :
    (old : Customer) × (new : Customer) × (find (is_live 6) db.customers ≡ some old)
    × (find (is_live 6) edited.customers ≡ some new)
    × IsNext edit old new
    × (filter (is_other 6) edited.customers ≡ filter (is_other 6) db.customers)
update-IsNext_example = update-IsNext env 6 edit 2 db edited shown one_live edit-returns

update_once_per_version_example :
    is_ok (update env 6 (record edit { contract_signed = some true }) 3 edited).0 ≡ false
update_once_per_version_example =
    update_once_per_version env env 6 edit (record edit { contract_signed = some true }) 2 3 db
      edited shown edit-returns refl

-- A reader without the permission asks for unmasked fields of two customers.
abbrev reader : AuthPrincipal
reader = record { sub = 3; permissions = codes "customers.read" ∷ [] }

abbrev hopper : CustomerDb
hopper = record db {
  customers =
      with_contact grace (codes "1234567890123456") (codes "555 123 4567") (some (codes "NY")) none
      ∷ [];
}

abbrev other_hopper : CustomerDb
other_hopper = record db {
  customers =
      with_contact grace (codes "9876543210983456") (codes "44 20 7946 4567") none
        (some (codes "E1"))
      ∷ [];
}

get_by_id_hides_example :
    (get_by_id 6 true (some reader) hopper).0 ≡ (get_by_id 6 true (some reader) other_hopper).0
get_by_id_hides_example =
    get_by_id_hides 6 true (some reader) hopper other_hopper grace b'1' b'9' b'5' b'4'
      (codes "234567890123456") (codes "876543210983456") (codes "55 123 4567")
      (codes "4 20 7946 4567") (some (codes "NY")) none none (some (codes "E1")) refl refl refl refl
      refl refl refl refl
