-- ===== src/Auth/Login/FifthFailure.antt =====
-- The lockout of `registerFailure` in Api/src/modules/auth/auth.service.ts.
use vaultchain_fintech_dashb.Prelude.{
  ℕ, suc, ◌+◌, ◌<◌, Bool, true, false, not, ◌&&◌, ◌||◌, Option, none, some, List, [], ◌∷◌, ◌≡◌,
  refl, arith, ap, ◌∙◌, count_where, find, update_where, all_at, Bool-cases, inl, inr, Result, ◌==◌,
  after, err, ==_refl, find-all, ok, ==_iff,
}
use vaultchain_fintech_dashb.Prelude.Text.{Text}
use vaultchain_fintech_dashb.Auth.Store.{
  User, AuthDb, AuthEnv, AuthOthers, user_id, same_time, alone, account_locked,
}
use vaultchain_fintech_dashb.Auth.Login.{
  register_failure, any, is_unchanged, try_lock, count_failure, record_attempt, is_locked, lock_ms,
  leb, LoginContext, login, AuthError, by_email, log_in_as, normal_email, LoginOutcome, verifies,
  raise, invalid_credentials,
}

some-same : (x y : User) → some x ≡ some y → x ≡ y
some-same x y h = cc h

module _ (k q p : User → Bool) (f g : User → User) (kf : (u : User) → k (f u) ≡ k u)
    (kg : (u : User) → k (g u) ≡ k u) where
  nobody_left :
      (us : List User)
      → count_where k us ≡ 0
      → all_at k q (update_where p f (update_where k g us)) ≡ true
  nobody_left [] h = refl
  nobody_left (u ∷ us) h = elim (Bool-cases (k u)) [
    | inl e ↦ ground (arith, e)
    | inr e ↦ elim (Bool-cases (p u)) [
      | inl hit ↦ rw (e, hit, kf u, e) (nobody_left us (rw e at h))
      | inr miss ↦ rw (e, miss, e) (nobody_left us (rw e at h))
    ]
  ]

  -- The one row that `k` picks is changed by both updates.
  changed_twice :
      (us : List User) (user : User)
      → find k us ≡ some user
      → count_where k us < 2
      → p (g user) ≡ true
      → q (f (g user)) ≡ true
      → all_at k q (update_where p f (update_where k g us)) ≡ true
  changed_twice [] user there few hit has = cc there
  changed_twice (u ∷ us) user there few hit has = elim (Bool-cases (k u)) [
    | inl e ↦
        let same = some-same u user (rw e at there) in
        let none_left : count_where k us ≡ 0 = ground (arith, e) in
        rw (e, same, hit, has) (ground (arith, nobody_left us none_left))
    | inr e ↦ elim (Bool-cases (p u)) [
      | inl shot ↦
          rw (e, shot, kf u, e) (changed_twice us user (rw e at there) (rw e at few) hit has)
      | inr miss ↦ rw (e, miss, e) (changed_twice us user (rw e at there) (rw e at few) hit has)
    ]
  ]

  found_changed :
      (us : List User) (user : User)
      → find k us ≡ some user
      → (any k us ≡ true) × (find k (update_where k g us) ≡ some (g user))
  found_changed [] user there = cc there
  found_changed (u ∷ us) user there = elim (Bool-cases (k u)) [
    | inl e ↦ let same = some-same u user (rw e at there) in (rw e refl, rw (e, kg u, e, same) refl)
    | inr e ↦ rw (e, e) (found_changed us user (rw e at there))
  ]

-- The users after a failure that locks.
abbrev locked_users : AuthEnv → User → List User → List User
locked_users env user us =
    update_where (is_unchanged (count_failure user))
      (λ u. record u { locked_until = some (env.now + lock_ms) })
      (update_where (user_id user.id) count_failure us)

register_failure-locks :
    (env : AuthEnv) (user : User) (email : Text) (ip : Option Text) (db : AuthDb)
    → find (user_id user.id) db.users ≡ some user
    → is_locked env.now user.locked_until ≡ false
    → leb 4 user.failed_login_count ≡ true
    → (register_failure env alone user.id email ip db).1.users ≡ locked_users env user db.users
unfolding register_failure try_lock record_attempt
register_failure-locks env user email ip db there unlocked fourth =
    let (here, found) =
      found_changed (user_id user.id) (λ u. true) (λ u. true) count_failure count_failure
        (λ u. refl) (λ u. refl) db.users user there in
    let fifth : leb 5 (suc user.failed_login_count) ≡ true = ground arith in
    rw (here, found, fifth, unlocked)
      (elim (Bool-cases (
        (count_where (is_unchanged (count_failure user))
            (update_where (user_id user.id) count_failure db.users)
          == 1)
        && env.alert_works)) [ inl e ↦ rw e refl | inr e ↦ rw e refl ])

after_users :
    (r : Result AuthError (Unit {0}) × AuthDb)
    → (after {B = LoginOutcome} r (λ _. raise invalid_credentials)).1 ≡ r.1
after_users (ok _, t) = refl
after_users (err e, t) = refl

login-locks :
    (env : AuthEnv) (email_raw password : Text) (ctx : LoginContext) (user : User) (db : AuthDb)
    → find (by_email (normal_email email_raw)) db.users ≡ some user
    → find (user_id user.id) db.users ≡ some user
    → is_locked env.now user.locked_until ≡ false
    → user.is_active && verifies env.crypto user.password_hash password ≡ false
    → leb 4 user.failed_login_count ≡ true
    → (login env alone email_raw password ctx db).1.users ≡ locked_users env user db.users
unfolding login log_in_as
login-locks env email_raw password ctx user db named there unlocked wrong fourth =
    let failed = register_failure env alone user.id (normal_email email_raw) ctx.ip db in
    rw (named, unlocked, wrong)
      (ap (λ d. d.users) (after_users failed)
        ∙ register_failure-locks env user (normal_email email_raw) ctx.ip db there unlocked fourth)

is_locked_at :
    (now until : ℕ) (t : Option ℕ)
    → same_time t (some until) ≡ true
    → now < until
    → is_locked now t ≡ true
is_locked_at now until none same early = cc same
is_locked_at now until (some t) same early = ground arith

login-refused :
    (env : AuthEnv) (others : AuthOthers) (email_raw password : Text) (ctx : LoginContext)
    (user : User) (db : AuthDb)
    → find (by_email (normal_email email_raw)) db.users ≡ some user
    → is_locked env.now user.locked_until ≡ true
    → (login env others email_raw password ctx db).0 ≡ err account_locked
unfolding login log_in_as record_attempt
login-refused env others email_raw password ctx user db named shut = rw (named, shut) refl

same_time_refl : (t : Option ℕ) → same_time t t ≡ true
same_time_refl none = refl
same_time_refl (some a) = ==_refl a

unchanged_refl : (u : User) → is_unchanged u u ≡ true
unchanged_refl u =
    rw (==_refl u.id, ==_refl u.failed_login_count, same_time_refl u.locked_until) refl

-- A wrong password on an unlocked account with four failures or more locks it: on the tables that
-- login left, until fifteen minutes have passed, every login as that user is refused as locked,
-- whatever the password, if no other request runs at the first one's awaits, and the user's id is in
-- the table once.
pub fifth_failure_locks :
    (env later : AuthEnv) (others : AuthOthers) (email_raw password email_raw' password' : Text)
    (ctx ctx' : LoginContext) (user user' : User) (db : AuthDb)
    → find (by_email (normal_email email_raw)) db.users ≡ some user
    → find (user_id user.id) db.users ≡ some user
    → count_where (user_id user.id) db.users < 2
    → is_locked env.now user.locked_until ≡ false
    → user.is_active && verifies env.crypto user.password_hash password ≡ false
    → leb 4 user.failed_login_count ≡ true
    → later.now < env.now + lock_ms
    → find (by_email (normal_email email_raw')) (login env alone email_raw password ctx db).1.users
      ≡ some user'
    → user'.id ≡ user.id
    → (login later others email_raw' password' ctx' (login env alone email_raw password ctx db).1).0
      ≡ err account_locked
fifth_failure_locks env later others email_raw password email_raw' password' ctx ctx' user user' db
      named there once unlocked wrong fourth early named' same =
    let until = env.now + lock_ms in
    let locks = login-locks env email_raw password ctx user db named there unlocked wrong fourth in
    let stamped =
      changed_twice (user_id user.id) (λ u. same_time u.locked_until (some until))
        (is_unchanged (count_failure user)) (λ u. record u { locked_until = some until })
        count_failure (λ u. refl) (λ u. refl) db.users user there once
        (unchanged_refl (count_failure user)) (==_refl until) in
    let has =
      find-all (λ u. not (user_id user.id u) || same_time u.locked_until (some until))
        (by_email (normal_email email_raw')) (locked_users env user db.users) stamped
        (rw locks at named') in
    login-refused later others email_raw' password' ctx' user' _ named' (
      is_locked_at later.now until user'.locked_until (rw ((==_iff user'.id user.id).1 same) at has)
        early)
