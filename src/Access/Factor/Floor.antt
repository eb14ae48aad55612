-- ===== src/Access/Factor/Floor.antt =====
-- The replay floor of the one-time passwords: the compare-and-set of
-- Api/src/modules/auth/mfa-login.service.ts and Api/src/modules/password-reset/password-reset.service.ts.
use vaultchain_fintech_dashb.Prelude.{
  ℕ, Bool, true, false, not, ◌||◌, Option, none, some, ◌≡◌, refl, arith, inl, inr, update_where,
  count_where, find, find-any, find-all, find_fits, ok, ap, ◌∙◌, ◌==◌, ◌==?◌, Result, Option-cases,
  ==_iff, err-ne-ok, ok-injective, updated_one, count_where-any, any-update_where, ltb, &&_left,
  ◌<◌, ==_refl,
}
use vaultchain_fintech_dashb.Prelude.Text.{Text}
use vaultchain_fintech_dashb.Auth.Store.{User}
use vaultchain_fintech_dashb.Access.Store.{AccessDb, AccessError}
use vaultchain_fintech_dashb.Access.Factor.{
  advance_floor, check_totp, AccessEnv, user_id, check_step, has_floor, set_floor, check_secret,
}

-- A step that the floor lets pass.
abbrev pub is_above : ℕ → Option ℕ → Bool
is_above step none = true
is_above step (some floor) = ltb floor step

abbrev pub floor_at : Option User → Option ℕ
floor_at none = none
floor_at (some u) = u.last_used_totp_step

abbrev pub floor_of : ℕ → AccessDb → Option ℕ
floor_of id db = floor_at (find (user_id id) db.auth.users)

at_step : ℕ → User → Bool
at_step step u = u.last_used_totp_step ==? some step

at_step_eq : (o : Option ℕ) (step : ℕ) → (o ==? some step) ≡ true → o ≡ some step
at_step_eq none step h = cc
at_step_eq (some a) step h = ground arith

floor_set :
    (id step : ℕ) (floor : Option ℕ) (db : AccessDb)
    → count_where (user_id id) db.auth.users < 2
    → (count_where (has_floor id floor) db.auth.users == 1) ≡ true
    → floor_at
        (find (user_id id) (update_where (has_floor id floor) (set_floor step) db.auth.users))
      ≡ some step
unfolding at_step
floor_set id step floor db few won =
    let picked = λ (u : User) (h : has_floor id floor u ≡ true).
      &&_left (u.id == id) (u.last_used_totp_step ==? floor) h in
    let users = update_where (has_floor id floor) (set_floor step) db.auth.users in
    let set =
      updated_one (user_id id) (at_step step) (has_floor id floor) (set_floor step) db.auth.users
        picked (λ u h. ==_refl step) few won in
    let there = count_where-any (has_floor id floor) (user_id id) db.auth.users picked won in
    let still =
      any-update_where (user_id id) (has_floor id floor) (set_floor step) db.auth.users (λ u. refl)
      ∙ there in
    let (u, found) = find-any (user_id id) users still in
    let here = find_fits (user_id id) users found in
    let has = find-all (λ v. not (user_id id v) || at_step step v) (user_id id) users set found in
    let same : (u.last_used_totp_step ==? some step) ≡ true = rw here at has in
    ap floor_at found ∙ at_step_eq u.last_used_totp_step step same

check_step_lem :
    (others : AccessDb → AccessDb) (id : ℕ) (floor step : Option ℕ) (db : AccessDb) {t : AccessDb}
    → count_where (user_id id) (others db).auth.users < 2
    → check_step others id floor step db ≡ (ok true, t)
    → (s : ℕ) × (step ≡ some s) × (floor_of id t ≡ some s)
unfolding advance_floor
check_step_lem others id floor none db few h =
    absurd (cc (ok-injective (ap (λ (p : Result AccessError Bool × AccessDb). p.0) h)))
check_step_lem others id floor (some s) db few h =
    let won = ok-injective (ap (λ (p : Result AccessError Bool × AccessDb). p.0) h) in
    let same = ap (λ (p : Result AccessError Bool × AccessDb). p.1) h in
    (s, refl, coe 0 1 (i. floor_of id (same i) ≡ some s) (floor_set id s floor (others db) few won))

-- An answer of `false` is not an acceptance.
not_accepted :
    {s t : AccessDb} → ◌≡◌ {A = Result AccessError Bool × AccessDb} (ok false, s) (ok true, t) → ⊥
not_accepted h = cc (ok-injective (ap (λ (p : Result AccessError Bool × AccessDb). p.0) h))

check_secret_lem :
    (env : AccessEnv) (others : AccessDb → AccessDb) (code : Text) (user : User) (enc : Option Text)
    (db : AccessDb) {t : AccessDb}
    → ((secret presented : Text) (floor : Option ℕ) (step : ℕ)
        → env.totp secret presented floor ≡ some step
        → is_above step floor ≡ true)
    → count_where (user_id user.id) (others db).auth.users < 2
    → check_secret env others code user enc db ≡ (ok true, t)
    → (step : ℕ) × (floor_of user.id t ≡ some step)
      × (is_above step user.last_used_totp_step ≡ true)
check_secret_lem env others code user none db above few h = absurd (not_accepted h)
check_secret_lem env others code user (some enc) db above few h =
    elim (Option-cases (env.decrypt enc user.id)) [
      | inl e ↦ absurd (err-ne-ok (ap (λ r. r.0) (rw e at h)))
      | inr (secret, e) ↦
          let (step, accepted, set) =
            check_step_lem others user.id user.last_used_totp_step
              (env.totp secret code user.last_used_totp_step) db few (rw e at h) in
          (step, set, above secret code user.last_used_totp_step step accepted)
    ]

-- A code that is accepted has raised the user's floor to its step, which is above the floor that
-- was read, whatever other requests wrote in between; if the library only accepts steps above the
-- floor it is given, and no two users share the id.
pub check_totp-floor_of :
    (env : AccessEnv) (others : AccessDb → AccessDb) (id : ℕ) (code : Text) (db : AccessDb)
    {t : AccessDb}
    → ((secret presented : Text) (floor : Option ℕ) (step : ℕ)
        → env.totp secret presented floor ≡ some step
        → is_above step floor ≡ true)
    → count_where (user_id id) (others db).auth.users < 2
    → check_totp env others id code db ≡ (ok true, t)
    → (step : ℕ) × (floor_of id t ≡ some step) × (is_above step (floor_of id db) ≡ true)
unfolding check_totp
check_totp-floor_of env others id code db above few h =
    elim (Option-cases (find (user_id id) db.auth.users)) [
      | inl gone ↦ absurd (not_accepted (rw gone at h))
      | inr (user, found) ↦
          let owner = (==_iff user.id id).0 (find_fits (user_id id) db.auth.users found) in
          let few_rows : count_where (user_id user.id) (others db).auth.users < 2 = rw owner few in
          let (step, set, high) =
            check_secret_lem env others code user user.totp_secret_enc db above few_rows
              (rw found at h) in
          (step, rw owner at set, rw found high)
    ]
