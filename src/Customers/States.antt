-- ===== src/Customers/States.antt =====
-- What `update` of Api/src/modules/customers/customers.service.ts leaves of the states of a customer:
-- the KYC status, along kyc-transitions.ts, the status and the version.
use vaultchain_fintech_dashb.Prelude.{
  ℕ, false, not, ◌&&◌, some, ◌≡◌, refl, arith, count_where, find, ◌==◌, ok, ap, ◌∙◌, Bool, suc, ◌<◌,
  filter, or_else, true, find-fits_narrower, &&_left, find-update_where, filter-update_where,
  ==_iff, &&_right,
}
use vaultchain_fintech_dashb.Customers.Store.{
  not_started, pending, in_review, verified, rejected, expired, KycStatus, same_kyc, Customer,
  CustomerDb, CustomerEnv, is_kyc_transition_allowed, is_closed, is_live,
}
use vaultchain_fintech_dashb.Customers.Update.{
  UpdateCustomerDto, is_version, next_kyc, updated, update, is_other,
}
use vaultchain_fintech_dashb.Customers.Read.{CustomerDetailDto}
use vaultchain_fintech_dashb.Customers.Versions.{update-Accepted}

-- The changes of the KYC status that the product rules out.
abbrev pub is_forbidden : KycStatus → KycStatus → Bool
is_forbidden not_started expired = true
is_forbidden verified not_started = true
is_forbidden verified pending = true
is_forbidden rejected verified = true
is_forbidden rejected expired = true
is_forbidden expired verified = true
is_forbidden expired rejected = true
is_forbidden _ _ = false

allowed_not_forbidden :
    (from to : KycStatus)
    → not (same_kyc to from) && not (is_kyc_transition_allowed from to) ≡ false
    → is_forbidden from to ≡ false
unfolding is_kyc_transition_allowed
allowed_not_forbidden not_started not_started h = refl
allowed_not_forbidden not_started pending h = refl
allowed_not_forbidden not_started in_review h = refl
allowed_not_forbidden not_started verified h = refl
allowed_not_forbidden not_started rejected h = refl
allowed_not_forbidden not_started expired h = cc h
allowed_not_forbidden pending to h = refl
allowed_not_forbidden in_review to h = refl
allowed_not_forbidden verified not_started h = cc h
allowed_not_forbidden verified pending h = cc h
allowed_not_forbidden verified in_review h = refl
allowed_not_forbidden verified verified h = refl
allowed_not_forbidden verified rejected h = refl
allowed_not_forbidden verified expired h = refl
allowed_not_forbidden rejected not_started h = refl
allowed_not_forbidden rejected pending h = refl
allowed_not_forbidden rejected in_review h = refl
allowed_not_forbidden rejected verified h = cc h
allowed_not_forbidden rejected rejected h = refl
allowed_not_forbidden rejected expired h = cc h
allowed_not_forbidden expired not_started h = refl
allowed_not_forbidden expired pending h = refl
allowed_not_forbidden expired in_review h = refl
allowed_not_forbidden expired verified h = cc h
allowed_not_forbidden expired rejected h = cc h
allowed_not_forbidden expired expired h = refl

-- What an update leaves of the customer that was stored as `old`: the row that is found has the KYC
-- status and the status that were asked for, or else the old ones, by a change that is not ruled out
-- and without reopening a closed customer, and the next version.
pub record IsNext (dto : UpdateCustomerDto) (old new : Customer) : Type 0 where
  pub version_read : old.row_version ≡ dto.row_version
  pub version : new.row_version ≡ suc dto.row_version
  pub kyc_asked : new.kyc_status ≡ or_else dto.kyc_status old.kyc_status
  pub kyc_moved : is_forbidden old.kyc_status new.kyc_status ≡ false
  pub status_asked : new.status ≡ or_else dto.status old.status
  pub closed_stays : is_closed old.status && not (is_closed new.status) ≡ false

-- An update of a customer whose id is unique among the live rows, if it returns, leaves the next
-- version of the row that it found: its statuses are those asked for or the old ones, its KYC status
-- has not changed in a way that is ruled out, a closed customer is still closed, the version asked
-- for was the stored one and is counted up, and the rows of all other customers are as they were.
pub update-IsNext :
    (env : CustomerEnv) (id : ℕ) (dto : UpdateCustomerDto) (actor : ℕ) (db t : CustomerDb)
    (d : CustomerDetailDto)
    → count_where (is_live id) db.customers < 2
    → update env id dto actor db ≡ (ok d, t)
    → (old : Customer) × (new : Customer) × (find (is_live id) db.customers ≡ some old)
      × (find (is_live id) t.customers ≡ some new)
      × IsNext dto old new
      × (filter (is_other id) t.customers ≡ filter (is_other id) db.customers)
update-IsNext env id dto actor db t d few h =
    let done = update-Accepted env id dto actor db t d h in
    let old = done.existing in
    let hit =
      find-fits_narrower (is_live id) (is_version id dto.row_version) db.customers
        (λ c k. &&_left (is_live id c) (c.row_version == dto.row_version) k) done.there few
        done.matched in
    let found =
      find-update_where (is_live id) (is_version id dto.row_version) (updated env dto old)
        db.customers (λ c. refl) done.there hit in
    let others =
      filter-update_where (is_other id) (is_version id dto.row_version) (updated env dto old)
        db.customers (λ c. refl) (λ c k. ground arith) in
    let read =
      (==_iff old.row_version dto.row_version).0
        (&&_right (is_live id old) (old.row_version == dto.row_version) hit) in
    (
      old,
      updated env dto old old,
      done.there,
      ap (λ cs. find (is_live id) cs) done.written ∙ found,
      record {
        version_read = read;
        version = ap (λ n. suc n) read;
        kyc_asked = refl;
        kyc_moved = allowed_not_forbidden old.kyc_status (next_kyc dto old) done.kyc;
        status_asked = refl;
        closed_stays = done.terminal;
      },
      ap (λ cs. filter (is_other id) cs) done.written ∙ others,
    )
