-- ===== src/Auth/Login/Lockout.antt =====
-- Whom `login` of Api/src/modules/auth/auth.service.ts lets in.
use vaultchain_fintech_dashb.Prelude.{
  ℕ, Bool, true, false, not, ◌&&◌, none, some, ◌≡◌, refl, arith, ok, Option-cases, ◌||◌, Bool-cases,
  inl, inr, Result, ap, after, err-ne-ok, &&_left, &&_right, err,
}
use vaultchain_fintech_dashb.Prelude.Text.{Text}
use vaultchain_fintech_dashb.Auth.Store.{
  User, AuthDb, AuthError, AuthEnv, AuthOthers, user_id, invalid_credentials,
}
use vaultchain_fintech_dashb.Auth.Login.{
  LoginContext, LoginOutcome, decide_second_factor, issue_challenge, login, authenticated,
  is_locked, log_in_as, find, is_trusted, mfa_required, verifies, by_email, create, has_mfa,
  login_challenge, normal_email, let_in, record_attempt, any, raise, register_failure,
}

abbrev pub is_session : LoginOutcome → Bool
is_session (authenticated s) = true
is_session (mfa_required token ttl) = false

-- Whoever is given a session or a challenge has an active account that is not locked and a password
-- that verifies; whoever is given a session has besides no confirmed second factor, or a device
-- that is trusted for the account.
pub record MayEnter (env : AuthEnv) (ctx : LoginContext) (password : Text) (user : User)
    (outcome : LoginOutcome) : Type 0 where
  pub unlocked : is_locked env.now user.locked_until ≡ false
  pub active : user.is_active ≡ true
  pub proven : verifies env.crypto user.password_hash password ≡ true
  pub factor : not (is_session outcome) || (is_trusted env ctx user.id || not (has_mfa user)) ≡ true

challenge-no_session :
    (env : AuthEnv) (ctx : LoginContext) (id : ℕ) (db t : AuthDb) (outcome : LoginOutcome)
    → issue_challenge env ctx id db ≡ (ok outcome, t)
    → is_session outcome ≡ false
unfolding issue_challenge
challenge-no_session env ctx id db t outcome h =
    elim (Option-cases
      (create env.crypto env.now env.challenge_id env.challenge_secret (login_challenge env ctx id)
        db.challenges).0) [
          | inl e ↦ cc (rw e at h)
          | inr (issued, e) ↦ let same = ap (λ r. r.0) (rw e at h) in ground arith
        ]

decide-factor :
    (env : AuthEnv) (ctx : LoginContext) (user : User) (db t : AuthDb) (outcome : LoginOutcome)
    → decide_second_factor env ctx user db ≡ (ok outcome, t)
    → not (is_session outcome) || (is_trusted env ctx user.id || not (has_mfa user)) ≡ true
unfolding decide_second_factor
decide-factor env ctx user db t outcome h = elim (Bool-cases (is_trusted env ctx user.id)) [
  | inl e ↦ rw e (ground arith)
  | inr e ↦ elim (Bool-cases (has_mfa user)) [
    | inl mfa ↦ rw (challenge-no_session env ctx user.id db t outcome (rw (e, mfa) at h)) refl
    | inr without ↦ rw (e, without) (ground arith)
  ]
]

let_in-decided :
    (env : AuthEnv) (ctx : LoginContext) (email : Text) (user : User) (db t : AuthDb)
    (outcome : LoginOutcome)
    → let_in env ctx email user db ≡ (ok outcome, t)
    → (u : AuthDb) × (decide_second_factor env ctx user u ≡ (ok outcome, t))
unfolding let_in record_attempt
let_in-decided env ctx email user db t outcome h =
    elim (Bool-cases (any (user_id user.id) db.users)) [
      | inl e ↦ (_, rw e at h)
      | inr e ↦ absurd (err-ne-ok (ap (λ r. r.0) (rw e at h)))
    ]

unknown-refused :
    (env : AuthEnv) (others : AuthOthers) (ctx : LoginContext) (email password : Text)
    (db t : AuthDb) (outcome : LoginOutcome)
    → log_in_as env others ctx email password none db ≡ (ok outcome, t)
    → ⊥
unfolding log_in_as record_attempt
unknown-refused env others ctx email password db t outcome h = err-ne-ok (ap (λ r. r.0) h)

-- A failed attempt that is counted is refused, whether or not the count succeeds.
failure-refused :
    (env : AuthEnv) (r : Result AuthError (Unit {0}) × AuthDb) (t : AuthDb) (outcome : LoginOutcome)
    → after r (λ _. raise invalid_credentials) ≡ (ok outcome, t)
    → ⊥
failure-refused env (ok _, u) t outcome h = err-ne-ok (ap (λ r. r.0) h)
failure-refused env (err e, u) t outcome h = err-ne-ok (ap (λ r. r.0) h)

known-MayEnter :
    (env : AuthEnv) (others : AuthOthers) (ctx : LoginContext) (email password : Text) (user : User)
    (db t : AuthDb) (outcome : LoginOutcome)
    → log_in_as env others ctx email password (some user) db ≡ (ok outcome, t)
    → MayEnter env ctx password user outcome
unfolding log_in_as record_attempt
known-MayEnter env others ctx email password user db t outcome h =
    elim (Bool-cases (is_locked env.now user.locked_until)) [
      | inl shut ↦ absurd (err-ne-ok (ap (λ r. r.0) (rw shut at h)))
      | inr unshut ↦
          elim (Bool-cases (user.is_active && verifies env.crypto user.password_hash password)) [
            | inl good ↦
                let (u, decided) =
                  let_in-decided env ctx email user db t outcome (rw (unshut, good) at h) in
                record {
                  unlocked = unshut;
                  active = &&_left user.is_active _ good;
                  proven = &&_right user.is_active _ good;
                  factor = decide-factor env ctx user u t outcome decided;
                }
            | inr bad ↦ absurd (
                failure-refused env (register_failure env others user.id email ctx.ip db) t outcome
                  (rw (unshut, bad) at h))
          ]
    ]

-- Whoever `login` gives a session or a challenge is the user with the e-mail address, trimmed and in
-- lower case, whose account is active and not locked and whose password verifies; and a session is
-- given only for a trusted device or where no second factor is confirmed. This holds whatever other
-- requests do.
pub login-MayEnter :
    (env : AuthEnv) (others : AuthOthers) (email_raw password : Text) (ctx : LoginContext)
    (db t : AuthDb) (outcome : LoginOutcome)
    → login env others email_raw password ctx db ≡ (ok outcome, t)
    → (user : User) × (find (by_email (normal_email email_raw)) db.users ≡ some user)
      × MayEnter env ctx password user outcome
unfolding login
login-MayEnter env others email_raw password ctx db t outcome h =
    elim (Option-cases (find (by_email (normal_email email_raw)) db.users)) [
      | inl e ↦ absurd (unknown-refused env others ctx _ password db t outcome (rw e at h))
      | inr (user, e) ↦
          (user, e, known-MayEnter env others ctx _ password user db t outcome (rw e at h))
    ]
