-- ===== src/Access/Manage/Cleared.antt =====
-- What is left of a second factor that is disabled or reset:
-- Api/src/modules/auth/mfa-management.service.ts.
use vaultchain_fintech_dashb.Prelude.{
  ℕ, Bool, true, false, not, ◌&&◌, none, some, List, [], ◌∷◌, ◌≡◌, refl, arith, Bool-cases, inl,
  inr, is_none, any, all_at, count_where, ok, ap, ◌==◌, Result, after-eq-ok, rolled_back-eq-ok,
  remove_where, update_where-none, update_where-all_at, ◌>>◌,
}
use vaultchain_fintech_dashb.Prelude.Text.{Text}
use vaultchain_fintech_dashb.Auth.Store.{User}
use vaultchain_fintech_dashb.Access.Store.{AccessDb, BackupCode, AccessError}
use vaultchain_fintech_dashb.Access.Manage.{
  clear_factors, disable, AccessEnv, update_user, user_id, authorize, send_alert, without_factor,
  missing_row, audit_row, close_sessions, is_active_of, reset_factors, is_open_login,
  mfa_admin_reset, revoke, self_reset_forbidden, load_user, of_user,
}
use vaultchain_fintech_dashb.Access.Devices.{revoke_all_devices, is_unrevoked_of, revoke_at}
use vaultchain_fintech_dashb.Access.Reset.Credentials.{guard_passed}

-- A user without the second factor: no secret, no floor, no backup code, no remembered device.
abbrev has_no_factor : User → Bool
has_no_factor u =
    not u.mfa_enabled
    && (is_none u.mfa_confirmed_at && (is_none u.totp_secret_enc && is_none u.last_used_totp_step))

abbrev pub HasNoFactor : ℕ → AccessDb → Type 0
HasNoFactor id db =
    (all_at (user_id id) has_no_factor db.auth.users ≡ true)
    × (count_where (λ (c : BackupCode). c.user_id == id) db.backup_codes ≡ 0)
    × (count_where (is_unrevoked_of id) db.devices ≡ 0)

removed_all : (p : BackupCode → Bool) (cs : List BackupCode) → count_where p (remove_where p cs) ≡ 0
removed_all p [] = refl
removed_all p (c ∷ cs) = elim (Bool-cases (p c)) [
  | inl e ↦ rw e (removed_all p cs)
  | inr e ↦ rw (e, e) (removed_all p cs)
]

clear_factors_lem :
    (env : AccessEnv) (id : ℕ) (db : AccessDb) {x : Unit {0}} {t : AccessDb}
    → clear_factors env id db ≡ (ok x, t)
    → HasNoFactor id t
unfolding clear_factors update_user revoke_all_devices
clear_factors_lem env id db h =
    let (y, u, updated, rest) = after-eq-ok (update_user id without_factor db) _ h in
    let (there, made) =
      guard_passed (not (any (user_id id) db.auth.users)) missing_row db _ updated in
    let users = ap (λ (p : Result AccessError (Unit {0}) × AccessDb). p.1) made in
    let same = ap (λ (p : Result AccessError (Unit {0}) × AccessDb). p.1) rest in
    coe 0 1 (i. HasNoFactor id (same i)) (
      coe 0 1 (i. all_at (user_id id) has_no_factor (users i).auth.users ≡ true) (
          update_where-all_at (user_id id) has_no_factor without_factor db.auth.users (λ u h. refl)
            (λ u. refl)),
      removed_all (λ c. c.user_id == id) u.backup_codes,
      update_where-none (is_unrevoked_of id) (revoke_at env.auth.now) u.devices
          (λ d h. ground arith),
    )

-- A call that disables the second factor and returns leaves its user without one: no secret and no
-- replay floor, no backup code, and no remembered device.
pub disable-HasNoFactor :
    (env : AccessEnv) (id : ℕ) (password code : Text) (db : AccessDb) {x : Unit {0}} {t : AccessDb}
    → disable env id password code db ≡ (ok x, t)
    → HasNoFactor id t
unfolding disable
disable-HasNoFactor env id password code db h =
    let (y, u, allowed, rest) = after-eq-ok (authorize env id password code db) _ h in
    let (z, v, cleared, end_of) = after-eq-ok _ _ rest in
    let same = ap (λ (p : Result AccessError (Unit {0}) × AccessDb). p.1) end_of in
    coe 0 1 (i. HasNoFactor id (same i))
      (clear_factors_lem env id u (rolled_back-eq-ok (λ b a. b) u _ cleared))

-- The user has no session and no login in progress.
abbrev pub IsLoggedOut : ℕ → AccessDb → Type 0
IsLoggedOut id db =
    (count_where (is_active_of id) db.auth.tokens ≡ 0)
    × (count_where (is_open_login id) db.auth.challenges ≡ 0)

close_sessions-IsLoggedOut :
    (now id : ℕ) (db : AccessDb) → IsLoggedOut id (close_sessions now id db)
close_sessions-IsLoggedOut now id db = (
  update_where-none (is_active_of id) (revoke now) db.auth.tokens (λ t h. ground arith),
  update_where-none (is_open_login id) (λ c. record c { consumed_at = some now }) db.auth.challenges
      (λ c h. ground arith),
)

reported_keeps :
    (works : Bool) (actor id : ℕ) (db : AccessDb) {x : Unit {0}} {t : AccessDb}
    → (audit_row (some actor) (mfa_admin_reset id) (some (of_user id)) true none
          >> send_alert works id)
        db
      ≡ (ok x, t)
    → HasNoFactor id db × IsLoggedOut id db
    → HasNoFactor id t × IsLoggedOut id t
reported_keeps true actor id db h have =
    let same = ap (λ (p : Result AccessError (Unit {0}) × AccessDb). p.1) h in
    coe 0 1 (i. HasNoFactor id (same i) × IsLoggedOut id (same i)) have
reported_keeps false actor id db h have =
    let same = ap (λ (p : Result AccessError (Unit {0}) × AccessDb). p.1) h in
    coe 0 1 (i. HasNoFactor id (same i) × IsLoggedOut id (same i)) have

-- An administrator's reset of a second factor that returns is of another user, and leaves that user
-- without a secret, a replay floor, a backup code, a remembered device, a session and a login in
-- progress.
pub reset_factors-HasNoFactor :
    (env : AccessEnv) (actor target : ℕ) (db : AccessDb) {x : Unit {0}} {t : AccessDb}
    → reset_factors env actor target db ≡ (ok x, t)
    → ((actor == target) ≡ false) × HasNoFactor target t × IsLoggedOut target t
unfolding reset_factors
reset_factors-HasNoFactor env actor target db h =
    let (other, e) = guard_passed (actor == target) self_reset_forbidden db _ h in
    let (user, u, loaded, f) = after-eq-ok (load_user target db) _ e in
    let (y, v, closed, g) = after-eq-ok _ _ f in
    let (z, w, cleared, k) =
      after-eq-ok (clear_factors env target u) _ (rolled_back-eq-ok (λ b a. b) u _ closed) in
    let same = ap (λ (p : Result AccessError (Unit {0}) × AccessDb). p.1) k in
    let have =
      coe 0 1 (i. HasNoFactor target (same i) × IsLoggedOut target (same i)) (
        clear_factors_lem env target u cleared,
        close_sessions-IsLoggedOut env.auth.now target w,
      ) in
    let (factor, out) = reported_keeps env.alerts_work actor target v g have in (other, factor, out)
