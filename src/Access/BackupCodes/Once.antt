-- ===== src/Access/BackupCodes/Once.antt =====
-- A backup code is good for one use: `verify`, `generate` and `remaining` of
-- Api/src/modules/mfa/backup-code.service.ts.
use vaultchain_fintech_dashb.Prelude.{
  ℕ, ◌+◌, Bool, true, ◌&&◌, Option, none, some, List, [], ◌∷◌, ◌≡◌, refl, arith, filter,
  count_where, update_where, is_none, ◌==◌, find, Bool-cases, inl, inr, all_at, ◌<◌, if◌then◌else◌,
  count_where-fewer, &&_left, ==_refl, &&_right,
}
use vaultchain_fintech_dashb.Prelude.Text.{Text}
use vaultchain_fintech_dashb.Challenge.Mfa.{Crypto, verifies}
use vaultchain_fintech_dashb.Access.Store.{BackupCode}
use vaultchain_fintech_dashb.Access.BackupCodes.{
  is_unused_of, is_unused_row, redeem, verify, remaining, redeem_matching, normalize,
}

some-eq : (c d : BackupCode) → some c ≡ some d → c ≡ d
some-eq c d h = cc h

-- The row that is found among the filtered ones is one of them.
found-unused :
    (user : ℕ) (p : BackupCode → Bool) (rows : List BackupCode) (row : BackupCode)
    → find p (filter (is_unused_of user) rows) ≡ some row
    → is_unused_of user row ≡ true
found-unused user p [] row h = cc h
found-unused user p (c ∷ cs) row h = elim (Bool-cases (is_unused_of user c)) [
  | inl e ↦ elim (Bool-cases (p c)) [
    | inl hit ↦ ground (arith, e, hit)
    | inr miss ↦ found-unused user p cs row (rw (e, miss) at h)
  ]
  | inr e ↦ found-unused user p cs row (rw e at h)
]

module _ (s t k q : BackupCode → Bool) where
  found-counted :
      (rows : List BackupCode) (row : BackupCode)
      → find s (filter t rows) ≡ some row
      → k row ≡ true
      → 0 < count_where k rows
  found-counted [] row h e = absurd (cc h)
  found-counted (c ∷ cs) row h e = elim (Bool-cases (t c)) [
    | inl kept ↦ elim (Bool-cases (s c)) [
      | inl hit ↦
          let same = some-eq c row (rw (kept, hit) at h) in
          let here : k c ≡ true = rw same e in rw here (omega arith)
      | inr miss ↦ ground (arith, found-counted cs row (rw (kept, miss) at h) e)
    ]
    | inr gone ↦ ground (arith, found-counted cs row (rw gone at h) e)
  ]

  none-counted : (rows : List BackupCode) → count_where k rows ≡ 0 → all_at k q rows ≡ true
  none-counted [] h = refl
  none-counted (c ∷ cs) h = elim (Bool-cases (k c)) [
    | inl e ↦ ground (arith, e)
    | inr e ↦ ground (arith, e, none-counted cs)
  ]

  -- The one row that `k` picks is the one that was found.
  lone_found :
      (rows : List BackupCode) (row : BackupCode)
      → find s (filter t rows) ≡ some row
      → k row ≡ true
      → q row ≡ true
      → count_where k rows < 2
      → all_at k q rows ≡ true
  lone_found [] row h e g few = refl
  lone_found (c ∷ cs) row h e g few = elim (Bool-cases (t c)) [
    | inl kept ↦ elim (Bool-cases (s c)) [
      | inl hit ↦
          let same = some-eq c row (rw (kept, hit) at h) in
          let here : k c ≡ true = rw same e in
          let good : q c ≡ true = rw same g in ground (arith, here, good, none-counted cs)
      | inr miss ↦
          let found = rw (kept, miss) at h in
          ground (arith, found-counted cs row found e, lone_found cs row found e g)
    ]
    | inr gone ↦
        let found = rw gone at h in
        ground (arith, found-counted cs row found e, lone_found cs row found e g)
  ]

-- The stamp takes from the unused codes of the owner those that it hits.
stamp-counts :
    (now user u id : ℕ) (rows : List BackupCode)
    → all_at (is_unused_row id) (λ c. c.user_id == user) rows ≡ true
    → count_where
          (is_unused_of u)
          (update_where (is_unused_row id) (λ c. record c { used_at = some now }) rows)
        + (if user == u then count_where (is_unused_row id) rows else 0)
      ≡ count_where (is_unused_of u) rows
stamp-counts now user u id [] h = ground arith
stamp-counts now user u id (c ∷ cs) h = elim (Bool-cases (is_unused_row id c)) [
  | inl e ↦ ground (arith, e, stamp-counts now user u id cs)
  | inr e ↦ ground (arith, e, stamp-counts now user u id cs)
]

-- The row that is redeemed is a live one of its owner, which no other row shares its id with.
redeem-counts :
    (s : BackupCode → Bool) (now user u : ℕ) (rows : List BackupCode) (o : Option BackupCode)
    → find s (filter (is_unused_of user) rows) ≡ o
    → ((id : ℕ) → count_where (λ c. c.id == id) rows < 2)
    → count_where (is_unused_of u) (redeem now rows o).1
        + (if (redeem now rows o).0 && user == u then 1 else 0)
      ≡ count_where (is_unused_of u) rows
redeem-counts s now user u rows none h distinct = omega arith
redeem-counts s now user u rows (some row) h distinct =
    let at_most =
      count_where-fewer (is_unused_row row.id) (λ c. c.id == row.id) rows
        (λ c e. &&_left (c.id == row.id) (is_none c.used_at) e) in
    let one_id = distinct row.id in
    let live = found-unused user s rows row h in
    let owner : (row.user_id == user) ≡ true =
      &&_left (row.user_id == user) (is_none row.used_at) live in
    let here : is_unused_row row.id row ≡ true =
      rw (==_refl row.id) (&&_right (row.user_id == user) (is_none row.used_at) live) in
    let few : count_where (is_unused_row row.id) rows < 2 = omega arith in
    let some_row =
      found-counted s (is_unused_of user) (is_unused_row row.id) (λ c. c.user_id == user) rows row h
        here in
    let owned =
      lone_found s (is_unused_of user) (is_unused_row row.id) (λ c. c.user_id == user) rows row h
        here owner few in
    let stamped = stamp-counts now user u row.id rows owned in
    let one : count_where (is_unused_row row.id) rows ≡ 1 = omega arith in
    let won : (count_where (is_unused_row row.id) rows == 1) ≡ true = rw one refl in
    rw won (rw one at stamped)

-- A code that verifies takes exactly one from the unused codes of its owner; a code that does not
-- takes none; and nobody else's codes change either way, where no two rows share an id.
pub verify-remaining :
    (crypto : Crypto) (now user u : ℕ) (code : Text) (rows : List BackupCode)
    → ((id : ℕ) → count_where (λ c. c.id == id) rows < 2)
    → remaining u (verify crypto now user code rows).1
        + (if (verify crypto now user code rows).0 && user == u then 1 else 0)
      ≡ remaining u rows
unfolding verify remaining
verify-remaining crypto now user u code rows distinct = helper (normalize code)
  where
    helper :
        (s : Text)
        → count_where (is_unused_of u) (redeem_matching crypto now user s rows).1
            + (if (redeem_matching crypto now user s rows).0 && user == u then 1 else 0)
          ≡ count_where (is_unused_of u) rows
    helper [] = omega arith
    helper (c ∷ s) =
        redeem-counts (λ r. verifies crypto r.code_hash (c ∷ s)) now user u rows
          (find (λ r. verifies crypto r.code_hash (c ∷ s)) (filter (is_unused_of user) rows)) refl
          distinct
