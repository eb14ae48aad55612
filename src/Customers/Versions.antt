-- ===== src/Customers/Versions.antt =====
-- Optimistic concurrency of `update` in Api/src/modules/customers/customers.service.ts.
use vaultchain_fintech_dashb.Prelude.{
  ℕ, false, not, ◌&&◌, none, some, List, [], ◌∷◌, ◌≡◌, refl, arith, count_where, find, update_where,
  Bool-cases, ◌==◌, inl, inr, ok, Option-cases, err-ne-ok, ap, after-eq-ok, Result, is_ok,
  rolled_back-eq-ok, Result-cases, after, err, sym, ◌∙◌,
}
use vaultchain_fintech_dashb.Customers.Store.{
  Customer, CustomerDb, CustomerError, CustomerEnv, is_kyc_transition_allowed, is_closed, is_live,
  in_transaction,
}
use vaultchain_fintech_dashb.Customers.Update.{
  UpdateCustomerDto, is_version, next_kyc, next_status, updated, check_update, record_kyc_change,
  update_rows, write_update, kyc_changed, update,
}
use vaultchain_fintech_dashb.Customers.Read.{CustomerDetailDto, get_by_id}

-- No row is left with the version that an update has replaced.
version-gone :
    (env : CustomerEnv) (dto : UpdateCustomerDto) (existing : Customer) (id v : ℕ)
    (rows : List Customer)
    → count_where (is_version id v) (update_where (is_version id v) (updated env dto existing) rows)
      ≡ 0
version-gone env dto existing id v [] = refl
version-gone env dto existing id v (c ∷ cs) = elim (Bool-cases (is_version id v c)) [
  | inl e ↦
      let gone : is_version id v (updated env dto existing c) ≡ false = ground arith in
      rw (e, gone) (version-gone env dto existing id v cs)
  | inr e ↦ rw (e, e) (version-gone env dto existing id v cs)
]

-- What an update that returned has checked, and what it has written.
pub record Accepted (env : CustomerEnv) (id : ℕ) (dto : UpdateCustomerDto) (db t : CustomerDb)
    : Type 0 where
  pub existing : Customer
  pub there : find (is_live id) db.customers ≡ some existing
  pub kyc :
      kyc_changed dto existing
        && not (is_kyc_transition_allowed existing.kyc_status (next_kyc dto existing))
      ≡ false
  pub terminal : is_closed existing.status && not (is_closed (next_status dto existing)) ≡ false
  pub matched : count_where (is_version id dto.row_version) db.customers == 0 ≡ false
  pub written :
      t.customers
      ≡ update_where (is_version id dto.row_version) (updated env dto existing) db.customers

check_update-ok :
    (id : ℕ) (dto : UpdateCustomerDto) (existing : Customer) (db t : CustomerDb)
    → check_update id dto existing db ≡ (ok tt, t)
    → (kyc_changed dto existing
          && not (is_kyc_transition_allowed existing.kyc_status (next_kyc dto existing))
        ≡ false)
      × (is_closed existing.status && not (is_closed (next_status dto existing)) ≡ false)
      × (t ≡ db)
unfolding check_update
check_update-ok id dto existing db t h = ground arith

write_update-ok :
    (env : CustomerEnv) (id : ℕ) (dto : UpdateCustomerDto) (existing : Customer) (db t : CustomerDb)
    → write_update env id dto existing db ≡ (ok tt, t)
    → (count_where (is_version id dto.row_version) db.customers == 0 ≡ false)
      × (t ≡ record db {
        customers =
            update_where (is_version id dto.row_version) (updated env dto existing) db.customers;
      })
unfolding write_update
write_update-ok env id dto existing db t h = ground arith

record_kyc_change-keeps :
    (env : CustomerEnv) (id : ℕ) (dto : UpdateCustomerDto) (existing : Customer) (actor : ℕ)
    (db t : CustomerDb)
    → record_kyc_change env id dto existing actor db ≡ (ok tt, t)
    → t.customers ≡ db.customers
unfolding record_kyc_change
record_kyc_change-keeps env id dto existing actor db t h = ground arith

update_rows-Accepted :
    (env : CustomerEnv) (id : ℕ) (dto : UpdateCustomerDto) (actor : ℕ) (db t : CustomerDb)
    → update_rows env id dto actor db ≡ (ok tt, t)
    → Accepted env id dto db t
unfolding update_rows
update_rows-Accepted env id dto actor db t h =
    elim (Option-cases (find (is_live id) db.customers)) [
      | inl e ↦ absurd (err-ne-ok (ap (λ r. r.0) (rw e at h)))
      | inr (existing, e) ↦
          let (_, u, checked, rest) = after-eq-ok (check_update id dto existing db) _ (rw e at h) in
          let (_, v, wrote, rest') = after-eq-ok (write_update env id dto existing u) _ rest in
          let (_, w, noted, last) =
            after-eq-ok (record_kyc_change env id dto existing actor v) _ rest' in
          let (kyc, terminal, same) = check_update-ok id dto existing db u checked in
          let (matched, written) = write_update-ok env id dto existing u v wrote in
          let kept = record_kyc_change-keeps env id dto existing actor v w noted in
          let stored =
            sym (ap (λ r. r.1.customers) last) ∙ (kept ∙ ap (λ d. d.customers) written) in
          record {
            existing = existing;
            there = e;
            kyc = kyc;
            terminal = terminal;
            matched = rw same at matched;
            written = rw same at stored;
          }
    ]

after_read :
    (r : Result CustomerError (Unit {0}) × CustomerDb) (id : ℕ) (t : CustomerDb)
    (d : CustomerDetailDto)
    → after r (λ _. get_by_id id false none) ≡ (ok d, t)
    → r ≡ (ok tt, t)
unfolding get_by_id
after_read (err e, u) id t d h = absurd (err-ne-ok (ap (λ r. r.0) h))
after_read (ok _, u) id t d h = elim (Option-cases (find (is_live id) u.customers)) [
  | inl e ↦ absurd (err-ne-ok (ap (λ r. r.0) (rw e at h)))
  | inr (c, e) ↦ ap (λ r. (ok tt, r.1)) (rw e at h)
]

pub update-Accepted :
    (env : CustomerEnv) (id : ℕ) (dto : UpdateCustomerDto) (actor : ℕ) (db t : CustomerDb)
    (d : CustomerDetailDto)
    → update env id dto actor db ≡ (ok d, t)
    → Accepted env id dto db t
unfolding update
update-Accepted env id dto actor db t d h = update_rows-Accepted env id dto actor db t (
    rolled_back-eq-ok (λ before after. before) db (update_rows env id dto actor db)
      (after_read (in_transaction (update_rows env id dto actor) db) id t d h))

zero-counted : (n : ℕ) → n == 0 ≡ false → n ≡ 0 → ⊥
zero-counted n h e = ground arith

-- No update is lost: once an update returned, no other update of the customer that was made from
-- the same version returns on the tables that one left, whoever makes it.
pub update_once_per_version :
    (env env' : CustomerEnv) (id : ℕ) (dto dto' : UpdateCustomerDto) (actor actor' : ℕ)
    (db t : CustomerDb) (d : CustomerDetailDto)
    → update env id dto actor db ≡ (ok d, t)
    → dto'.row_version ≡ dto.row_version
    → is_ok (update env' id dto' actor' t).0 ≡ false
update_once_per_version env env' id dto dto' actor actor' db t d h same =
    elim (Result-cases (update env' id dto' actor' t).0) [
      | inl (d', e) ↦
          let first = update-Accepted env id dto actor db t d h in
          let second =
            update-Accepted env' id dto' actor' t _ d'
              (λ i. (e i, (update env' id dto' actor' t).1)) in
          let gone = version-gone env dto first.existing id dto.row_version db.customers in
          absurd (zero-counted _ (rw (same, first.written) at second.matched) gone)
      | inr (e, refused) ↦ rw refused refl
    ]
