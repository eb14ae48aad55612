-- ===== src/Common/AuditChain.antt =====
-- Api/src/common/audit/audit.service.ts: the chain of hashes over the audit log. SHA-256, the printing
-- of a time and JSON.stringify are parameters.
pub mod Evidence
use vaultchain_fintech_dashb.Prelude.{
  ℕ, Bool, true, false, ◌&&◌, ◌||◌, Option, none, some, List, [], ◌∷◌, ◌++◌, ltb, ◌==◌,
  if◌then◌else◌, ◌≡◌,
}
use vaultchain_fintech_dashb.Prelude.Text.{Text, codes}
use vaultchain_fintech_dashb.Common.Canonical.{
  string, null, Json, Primitive, text_lt, object, primitive, stable_stringify, field, no_fields,
}

pub data Outcome : Type 0 where
  success : Outcome
  denied : Outcome
  fail : Outcome

pub record AuditEntry : Type 0 where
  pub actor_user_id : Option Text
  pub action : Text
  pub resource_type : Text
  pub resource_id : Option Text
  pub outcome : Outcome
  pub context : Option Json
  pub ip_hash : Option Text
  pub correlation_id : Option Text

pub record AuditLog : Type 0 where
  pub id : Text
  pub entry : AuditEntry
  pub prev_hash : Text
  pub entry_hash : Text
  pub created_at : ℕ

pub record Hashing : Type 0 where
  pub sha256 : Text → Text
  pub to_iso : ℕ → Text
  pub print : Primitive → Text

abbrev pub genesis_seed : Text
genesis_seed = codes "ftd-audit-genesis-v1"

abbrev pub outcome_text : Outcome → Text
outcome_text success = codes "SUCCESS"
outcome_text denied = codes "DENIED"
outcome_text fail = codes "FAIL"

abbrev pub text_or_null : Option Text → Json
text_or_null none = primitive null
text_or_null (some s) = primitive (string s)

abbrev pub json_or_null : Option Json → Json
json_or_null none = primitive null
json_or_null (some j) = j

abbrev pub payload_of : Hashing → Text → ℕ → AuditEntry → Json
payload_of hashing id created_at e = object (
    field (codes "id") (primitive (string id)) (
      field (codes "actorUserId") (text_or_null e.actor_user_id) (
        field (codes "action") (primitive (string e.action)) (
          field (codes "resourceType") (primitive (string e.resource_type)) (
            field (codes "resourceId") (text_or_null e.resource_id) (
              field (codes "outcome") (primitive (string (outcome_text e.outcome))) (
                field (codes "context") (json_or_null e.context) (
                  field (codes "ipHash") (text_or_null e.ip_hash) (
                    field (codes "correlationId") (text_or_null e.correlation_id) (
                      field (codes "createdAt") (primitive (string (hashing.to_iso created_at)))
                        no_fields))))))))))

-- `${prevHash}|${stableStringify(payload)}`.
abbrev pub hash_input : Hashing → Text → Json → Text
hash_input hashing prev payload = prev ++ (b'|' ∷ stable_stringify hashing.print payload)

unfoldable pub compute_entry_hash : Hashing → Text → Json → Text
compute_entry_hash hashing prev payload = hashing.sha256 (hash_input hashing prev payload)

-- `ORDER BY created_at DESC, id DESC LIMIT 1`.
abbrev pub is_later : AuditLog → AuditLog → Bool
is_later r s = ltb s.created_at r.created_at || (s.created_at == r.created_at && text_lt s.id r.id)

abbrev pub later_of : AuditLog → Option AuditLog → AuditLog
later_of r none = r
later_of r (some s) = if is_later s r then s else r

abbrev pub latest : List AuditLog → Option AuditLog
latest [] = none
latest (r ∷ rs) = some (later_of r (latest rs))

abbrev pub hash_or_seed : Option AuditLog → Text
hash_or_seed none = genesis_seed
hash_or_seed (some r) = r.entry_hash

-- `append`, with the id and the time of the row; the advisory lock makes it one step.
unfoldable pub append : Hashing → Text → ℕ → AuditEntry → List AuditLog → List AuditLog
append hashing id now entry rows =
    let prev = hash_or_seed (latest rows) in
    (record {
      id = id;
      entry = entry;
      prev_hash = prev;
      entry_hash = compute_entry_hash hashing prev (payload_of hashing id now entry);
      created_at = now;
    })
    ∷ rows
