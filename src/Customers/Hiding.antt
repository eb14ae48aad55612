-- ===== src/Customers/Hiding.antt =====
-- What a read of Api/src/modules/customers/customers.service.ts tells whoever may not see unmasked
-- contact fields.
use vaultchain_fintech_dashb.Prelude.{
  ℕ, Bool, false, ◌&&◌, Option, none, some, List, [], ◌∷◌, ◌≡◌, refl, find, any, ltb, length,
  filter,
}
use vaultchain_fintech_dashb.Prelude.Text.{Text, codes, text_eq, take_last, is_digit}
use vaultchain_fintech_dashb.Mask.{trim, mask_wallet_number_hides, mask_phone_hides}
use vaultchain_fintech_dashb.Customers.Store.{Customer, CustomerDb, AuthPrincipal, is_live}
use vaultchain_fintech_dashb.Customers.Read.{
  get_by_id, can_reveal_pii, map_customer_detail, map_customer_list_item,
}

-- The permissions of the reader, if there is one.
abbrev pub permissions_of : Option AuthPrincipal → List Text
permissions_of none = []
permissions_of (some p) = p.permissions

abbrev pub may_reveal : Option AuthPrincipal → Bool
may_reveal principal =
    any (λ code. text_eq code (codes "customers.pii.reveal")) (permissions_of principal)

reveals_by_permission :
    (principal : Option AuthPrincipal) → can_reveal_pii principal ≡ may_reveal principal
unfolding can_reveal_pii
reveals_by_permission none = refl
reveals_by_permission (some p) = refl

-- The customer with another wallet number, phone number, city and postal code.
abbrev pub with_contact : Customer → Text → Text → Option Text → Option Text → Customer
with_contact c number phone city postal_code = record c {
  wallet_number = number;
  phone = some phone;
  address = record c.address { city = city; postal_code = postal_code };
}

-- A detail that was not asked for unmasked, or by a reader without the permission
-- customers.pii.reveal, tells nothing of a customer's city and postal code, of a wallet number but
-- its length and its last four characters, and of a phone number of at least four digits but the last
-- four: it is the same for two customers that differ in no more than that.
pub get_by_id_hides :
    (id : ℕ) (requested : Bool) (principal : Option AuthPrincipal) (db db' : CustomerDb)
    (customer : Customer) (c d p q : ℕ) (s t u v : Text) (city city' post post' : Option Text)
    → requested && may_reveal principal ≡ false
    → find (is_live id) db.customers ≡ some (with_contact customer (c ∷ s) (p ∷ u) city post)
    → find (is_live id) db'.customers ≡ some (with_contact customer (d ∷ t) (q ∷ v) city' post')
    → length (trim (c ∷ s)) ≡ length (trim (d ∷ t))
    → take_last 4 (trim (c ∷ s)) ≡ take_last 4 (trim (d ∷ t))
    → ltb (length (filter is_digit (p ∷ u))) 4 ≡ false
    → ltb (length (filter is_digit (q ∷ v))) 4 ≡ false
    → take_last 4 (filter is_digit (p ∷ u)) ≡ take_last 4 (filter is_digit (q ∷ v))
    → (get_by_id id requested principal db).0 ≡ (get_by_id id requested principal db').0
unfolding get_by_id map_customer_detail map_customer_list_item
get_by_id_hides id requested principal db db' customer c d p q s t u v city city' post post' hidden
      here there long last many many' last' =
    let number = mask_wallet_number_hides c d s t long last in
    let phone = mask_phone_hides p q u v many many' last' in
    rw (reveals_by_permission principal, here, there, hidden, number, phone) refl
