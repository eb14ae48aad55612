-- ===== src/Common/AuditChain/Evidence.antt =====
-- What the chain of hashes shows: Api/src/common/audit/audit.service.ts.
use vaultchain_fintech_dashb.Prelude.{
  ℕ, Bool, true, false, ◌&&◌, Option, none, some, List, [], ◌∷◌, if◌then◌else◌, ◌≡◌, refl, arith,
  ap, ◌∙◌, sym, Bool-cases, Option-cases, inl, inr, all, &&_left, &&_right, some-injective,
}
use vaultchain_fintech_dashb.Prelude.Text.{Text}
use vaultchain_fintech_dashb.Common.AuditChain.{
  Hashing, compute_entry_hash, genesis_seed, is_later, latest, payload_of, AuditLog, append,
  AuditEntry, hash_or_seed, later_of,
}
use vaultchain_fintech_dashb.Common.Canonical.{text_lt}

-- The hash that the next row continues from, where the rows stand newest first.
abbrev pub head_hash : List AuditLog → Text
head_hash [] = genesis_seed
head_hash (r ∷ rs) = r.entry_hash

-- Each row continues from the row below it, and has the hash of its own content.
abbrev pub IsChain : Hashing → List AuditLog → Type 0
IsChain hashing [] = Unit {0}
IsChain hashing (r ∷ rs) =
    (r.prev_hash ≡ head_hash rs)
    × (r.entry_hash
        ≡ compute_entry_hash hashing r.prev_hash (payload_of hashing r.id r.created_at r.entry))
    × IsChain hashing rs

-- Each row is later than those below it.
abbrev pub is_ordered : List AuditLog → Bool
is_ordered [] = true
is_ordered (r ∷ rs) = all (is_later r) rs && is_ordered rs

text_lt_asym : (s t : Text) → text_lt s t ≡ true → text_lt t s ≡ false
text_lt_asym s [] h = cc
text_lt_asym [] (d ∷ t) h = refl
text_lt_asym (c ∷ s) (d ∷ t) h = ground (arith, text_lt_asym s t)

is_later_asym : (r s : AuditLog) → is_later r s ≡ true → is_later s r ≡ false
is_later_asym r s h = ground (arith, text_lt_asym s.id r.id)

later_of-keeps :
    (q : AuditLog → Bool) (r : AuditLog) (o : Option AuditLog)
    → q r ≡ true
    → ((s : AuditLog) → o ≡ some s → q s ≡ true)
    → q (later_of r o) ≡ true
later_of-keeps q r none h k = h
later_of-keeps q r (some s) h k = elim (Bool-cases (is_later s r)) [
  | inl e ↦ rw e (k s refl)
  | inr e ↦ rw e h
]

latest-all :
    (q : AuditLog → Bool) (rs : List AuditLog) (s : AuditLog)
    → all q rs ≡ true
    → latest rs ≡ some s
    → q s ≡ true
latest-all q [] s h e = cc e
latest-all q (r ∷ rs) s h e =
    let same = some-injective (later_of r (latest rs)) s e in
    let kept =
      later_of-keeps q r (latest rs) (&&_left (q r) (all q rs) h)
        (λ t there. latest-all q rs t (&&_right (q r) (all q rs) h) there) in
    ap q (sym same) ∙ kept

-- Where the rows are in order, the query finds the newest.
latest_is_head :
    (rows : List AuditLog) → is_ordered rows ≡ true → hash_or_seed (latest rows) ≡ head_hash rows
latest_is_head [] h = refl
latest_is_head (r ∷ rs) h = elim (Option-cases (latest rs)) [
  | inl e ↦ ap (λ o. (later_of r o).entry_hash) e
  | inr (s, e) ↦
      let after_s =
        latest-all (is_later r) rs s (&&_left (all (is_later r) rs) (is_ordered rs) h) e in
      let not_before = is_later_asym r s after_s in
      ap (λ o. (later_of r o).entry_hash) e
      ∙ ap (λ (b : Bool). (if b then s else r).entry_hash) not_before
]

-- An appended row extends a chain that verifies to one that verifies, where every row is later than
-- those before it.
pub append-IsChain :
    (hashing : Hashing) (id : Text) (now : ℕ) (entry : AuditEntry) (rows : List AuditLog)
    → is_ordered rows ≡ true
    → IsChain hashing rows
    → IsChain hashing (append hashing id now entry rows)
unfolding append
append-IsChain hashing id now entry rows ordered chain = (latest_is_head rows ordered, refl, chain)
