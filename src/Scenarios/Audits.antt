-- ===== src/Scenarios/Audits.antt =====
-- The audit chain at concrete values.
use vaultchain_fintech_dashb.Prelude.{
  true, false, Option, none, some, List, [], ◌∷◌, ◌≡◌, refl, Bool,
}
use vaultchain_fintech_dashb.Prelude.Text.{Text, codes, text_eq, take}
use vaultchain_fintech_dashb.Common.AuditChain.Evidence.{IsChain, append-IsChain, is_ordered}
use vaultchain_fintech_dashb.Common.Canonical.{
  Json, Primitive, stable_stringify, object, string, field, primitive, null, no_fields,
}
use vaultchain_fintech_dashb.Common.AuditChain.{
  AuditLog, Hashing, append, AuditEntry, compute_entry_hash, success,
}
use vaultchain_fintech_dashb.Common.Canonical.Order.{
  stable_stringify-Reorders, in_object, fields_swap,
}

-- Any function serves as the hash here: this one keeps the first two characters.
abbrev short_hash : Text → Text
short_hash s = take 2 s

abbrev print_primitive : Primitive → Text
print_primitive (string s) = b'"' ∷ s
print_primitive _ = codes "null"

abbrev hashing : Hashing
hashing = record { sha256 = short_hash; to_iso = λ t. codes "t"; print = print_primitive }

abbrev login_entry : Option Json → AuditEntry
login_entry context = record {
  actor_user_id = some (codes "u1");
  action = codes "auth.login";
  resource_type = codes "auth.session";
  resource_id = none;
  outcome = success;
  context = context;
  ip_hash = none;
  correlation_id = none;
}

abbrev pair : Json
pair = object (
    field (codes "b") (primitive (string (codes "1")))
      (field (codes "a") (primitive null) no_fields))

abbrev pair_swapped : Json
pair_swapped = object (
    field (codes "a") (primitive null)
      (field (codes "b") (primitive (string (codes "1"))) no_fields))

stable_stringify-Reorders_example :
    stable_stringify print_primitive pair ≡ stable_stringify print_primitive pair_swapped
stable_stringify-Reorders_example =
    stable_stringify-Reorders print_primitive pair pair_swapped (in_object (fields_swap refl))

abbrev first_log : List AuditLog
first_log = append hashing (codes "1") 100 (login_entry (some pair)) []

first_ordered : is_ordered first_log ≡ true
unfolding append
first_ordered = refl

first_log-IsChain : IsChain hashing first_log
first_log-IsChain = append-IsChain hashing (codes "1") 100 (login_entry (some pair)) [] refl tt

append-IsChain_example :
    IsChain hashing (append hashing (codes "2") 200 (login_entry none) first_log)
append-IsChain_example =
    append-IsChain hashing (codes "2") 200 (login_entry none) first_log first_ordered
      first_log-IsChain

-- A row whose time is before that of the row that it continues is not found as the newest: the next
-- row continues from the older one too.
abbrev out_of_order : List AuditLog
out_of_order =
    append hashing (codes "3") 300 (login_entry none)
      (append hashing (codes "2") 50 (login_entry none) first_log)

first_two_of : List AuditLog → Bool
first_two_of (r ∷ s ∷ rest) = text_eq r.prev_hash s.prev_hash
first_two_of _ = false

forks : first_two_of out_of_order ≡ true
unfolding first_two_of append compute_entry_hash stable_stringify
forks = refl
