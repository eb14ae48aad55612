-- ===== src/Access/Reset/Trust.antt =====
-- What a reset of a password leaves: `verify` and `adminReset` of
-- Api/src/modules/password-reset/password-reset.service.ts.
use vaultchain_fintech_dashb.Prelude.{
  ℕ, Bool, true, false, not, ◌&&◌, none, some, ◌≡◌, refl, arith, Bool-cases, inl, inr, is_none,
  is_some, find, ok, ap, ◌==◌, Result, Option-cases, ==_iff, find_fits, err-ne-ok, after-eq-ok,
  rolled_back-eq-ok, ◌>>◌,
}
use vaultchain_fintech_dashb.Prelude.Text.{Text}
use vaultchain_fintech_dashb.Access.Store.{AccessDb, AccessError, AccessEnv, of_user}
use vaultchain_fintech_dashb.Auth.Store.{User, user_id}
use vaultchain_fintech_dashb.Access.Reset.Complete.{
  replace_password, admin_reset_user, verify_password, verify_user, complete_linked, reset_by_admin,
}
use vaultchain_fintech_dashb.Access.Devices.{DeviceContext}
use vaultchain_fintech_dashb.Challenge.Reset.{OpenResetChallenge, consume}
use vaultchain_fintech_dashb.Access.Reset.{
  fingerprint_matches, assert_strong_password, is_strong, reject_reset, weak_password, verifies,
  same_password, reset_challenge_consumed, audit_row, admin_reset, self_reset_forbidden, send_alert,
}
use vaultchain_fintech_dashb.Access.Reset.Credentials.{
  HasPassword, IsUntrusted, guard_passed, replace_password_done, set_password_lem, completed_keeps,
}

-- What the caller of a reset has shown.
abbrev pub is_allowed : AccessEnv → OpenResetChallenge → Text → DeviceContext → Bool
is_allowed env challenge password ctx =
    fingerprint_matches env.auth.crypto challenge ctx
    && (is_some challenge.factor_verified_at && is_strong password)

verify_user_lem :
    (env : AccessEnv) (challenge : OpenResetChallenge) (password : Text) (ctx : DeviceContext)
    (user : User) (db : AccessDb) {x : Unit {0}} {t : AccessDb}
    → verify_user env challenge password ctx (some user) db ≡ (ok x, t)
    → (is_strong password ≡ true)
      × (verifies env.auth.crypto user.password_hash password ≡ false)
      × ((consume env.auth.now challenge.id challenge.max_attempts db.reset_challenges).0 ≡ true)
      × HasPassword user.id (env.auth.crypto.hash password) t
      × IsUntrusted user.id (some challenge.id) t
unfolding verify_user assert_strong_password complete_linked
verify_user_lem env challenge password ctx user db h =
    let hash = env.auth.crypto.hash password in
    let (strong, e) = guard_passed (not (is_strong password)) weak_password db _ h in
    let (new, f) =
      guard_passed (verifies env.auth.crypto user.password_hash password) same_password db _ e in
    let (consumed, u, replaced, g) =
      after-eq-ok (replace_password env challenge user.id hash db) _ f in
    let (won, k) = guard_passed (not consumed) reset_challenge_consumed u _ g in
    let is_won : consumed ≡ true = ground (arith, won) in
    let (one, has, trust) =
      replace_password_done env challenge user.id hash db (rw is_won at replaced) in
    let (has_after, trust_after) =
      completed_keeps env user.id user.id hash (some challenge.id) ctx _ _ (has, trust) k in
    (ground (arith, strong), new, one, has_after, trust_after)

-- A reset that returns was asked for by the client that the challenge is bound to, after a factor
-- was stamped on it, with a strong password; it consumed the challenge; and it leaves the user with
-- the new password, unlocked, and without any session, remembered device, login in progress or
-- other reset in progress.
pub verify_password_resets :
    (env : AccessEnv) (challenge : OpenResetChallenge) (password : Text) (ctx : DeviceContext)
    (db : AccessDb) {x : Unit {0}} {t : AccessDb}
    → verify_password env challenge password ctx db ≡ (ok x, t)
    → (is_allowed env challenge password ctx ≡ true)
      × ((consume env.auth.now challenge.id challenge.max_attempts db.reset_challenges).0 ≡ true)
      × HasPassword challenge.user_id (env.auth.crypto.hash password) t
      × IsUntrusted challenge.user_id (some challenge.id) t
unfolding verify_password reject_reset verify_user
verify_password_resets env challenge password ctx db h =
    elim (Bool-cases (fingerprint_matches env.auth.crypto challenge ctx)) [
      | inr differs ↦ absurd (err-ne-ok (ap (λ r. r.0) (rw differs at h)))
      | inl same ↦ elim (Bool-cases (is_none challenge.factor_verified_at)) [
        | inl unproven ↦ absurd (err-ne-ok (ap (λ r. r.0) (rw (same, unproven) at h)))
        | inr proven ↦ elim (Option-cases (find (user_id challenge.user_id) db.auth.users)) [
          | inl gone ↦ absurd (err-ne-ok (ap (λ r. r.0) (rw (same, proven, gone) at h)))
          | inr (user, found) ↦
              let (strong, new, won, has, trust) =
                verify_user_lem env challenge password ctx user db
                  (rw (same, proven, found) at h) in
              let owner =
                (==_iff user.id challenge.user_id).0
                  (find_fits (user_id challenge.user_id) db.auth.users found) in
              let stamped : is_some challenge.factor_verified_at ≡ true = ground (arith, proven) in
              (rw (same, stamped, strong) refl, won, rw owner at has, rw owner at trust)
        ]
      ]
    ]

alert_keeps :
    (works : Bool) (user actor : ℕ) (hash : Text) (db : AccessDb) {x : Unit {0}} {t : AccessDb}
    → HasPassword user hash db × IsUntrusted user none db
    → (audit_row (some actor) (admin_reset user) (some (of_user user)) true none
          >> send_alert works user)
        db
      ≡ (ok x, t)
    → HasPassword user hash t × IsUntrusted user none t
alert_keeps true user actor hash db have h =
    let same = ap (λ (p : Result AccessError (Unit {0}) × AccessDb). p.1) h in
    coe 0 1 (i. HasPassword user hash (same i) × IsUntrusted user none (same i)) have
alert_keeps false user actor hash db have h =
    let same = ap (λ (p : Result AccessError (Unit {0}) × AccessDb). p.1) h in
    coe 0 1 (i. HasPassword user hash (same i) × IsUntrusted user none (same i)) have

admin_reset_user_lem :
    (env : AccessEnv) (actor : ℕ) (password : Text) (target : User) (db : AccessDb) {x : Unit {0}}
    {t : AccessDb}
    → admin_reset_user env actor password target db ≡ (ok x, t)
    → (is_strong password ≡ true)
      × HasPassword target.id (env.auth.crypto.hash password) t
      × IsUntrusted target.id none t
unfolding admin_reset_user assert_strong_password
admin_reset_user_lem env actor password target db h =
    let hash = env.auth.crypto.hash password in
    let (strong, e) = guard_passed (not (is_strong password)) weak_password db _ h in
    let (y, u, replaced, g) = after-eq-ok _ _ e in
    let (has, trust) =
      set_password_lem env.auth.now target.id hash none db
        (rolled_back-eq-ok (λ b a. b) db _ replaced) in
    let (has_after, trust_after) =
      alert_keeps env.alerts_work target.id actor hash u (has, trust) g in
    (ground (arith, strong), has_after, trust_after)

-- A reset by an administrator that returns is of another user, with a strong password, and leaves
-- that user with it, unlocked, and without any session, remembered device, login in progress or
-- reset in progress.
pub reset_by_admin_lem :
    (env : AccessEnv) (actor target : ℕ) (password : Text) (db : AccessDb) {x : Unit {0}}
    {t : AccessDb}
    → reset_by_admin env actor target password db ≡ (ok x, t)
    → ((actor == target) ≡ false)
      × (is_strong password ≡ true)
      × HasPassword target (env.auth.crypto.hash password) t
      × IsUntrusted target none t
unfolding reset_by_admin
reset_by_admin_lem env actor target password db h =
    let (other, e) = guard_passed (actor == target) self_reset_forbidden db _ h in
    elim (Option-cases (find (user_id target) db.auth.users)) [
      | inl gone ↦ absurd (err-ne-ok (ap (λ r. r.0) (rw gone at e)))
      | inr (user, found) ↦
          let owner = (==_iff user.id target).0 (find_fits (user_id target) db.auth.users found) in
          let (strong, has, trust) =
            admin_reset_user_lem env actor password user db (rw found at e) in
          (other, strong, rw owner at has, rw owner at trust)
    ]
