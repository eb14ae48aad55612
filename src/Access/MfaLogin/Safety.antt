-- ===== src/Access/MfaLogin/Safety.antt =====
-- What a second factor that is accepted shows, and uses up:
-- Api/src/modules/auth/mfa-login.service.ts.
use vaultchain_fintech_dashb.Prelude.{
  ℕ, Bool, true, false, not, ◌&&◌, Option, none, some, List, [], ◌≡◌, refl, arith, Bool-cases, inl,
  inr, count_where, find, ok, err, ap, ◌∙◌, ◌==◌, Result, err-ne-ok, after-eq-ok, after-keeps,
  raise_if, or_raise-state, or_raise, ◌<◌, sym, any, count_where-update_where,
}
use vaultchain_fintech_dashb.Prelude.Text.{Text}
use vaultchain_fintech_dashb.Auth.Store.{
  AuthDb, AuthError, User, AuthEnv, unique_violation, user_id, record_not_found,
}
use vaultchain_fintech_dashb.Auth.Session.{
  issue_session, store_token, build_response, new_token, token_id,
}
use vaultchain_fintech_dashb.Access.Store.{AccessDb, AccessEnv, in_auth, taken_key, AccessError}
use vaultchain_fintech_dashb.Access.Devices.{issue, DeviceContext, device_row}
use vaultchain_fintech_dashb.Challenge.Mfa.{MfaChallenge, row_id, load_parsed, is_live}
use vaultchain_fintech_dashb.Access.MfaLogin.{
  remember, complete, verify_totp, assert_login_challenge, consume_challenge, OpenChallenge,
  issue_session_for_user, MfaLoginResult, ResetMethod, challenge_consumed, wrong_challenge,
  check_totp, totp, reject,
}
use vaultchain_fintech_dashb.Access.Factor.Floor.{is_above, floor_of, check_totp-floor_of, floor_at}
use vaultchain_fintech_dashb.Access.Reset.Credentials.{guard_passed}
use vaultchain_fintech_dashb.Challenge.MfaSafety.{consume_once}
use vaultchain_fintech_dashb.Challenge.Mfa.{consume}

-- What the end of a login leaves of the users and of the challenges.
abbrev rest_of : AuthDb → List User × List MfaChallenge
rest_of db = (db.users, db.challenges)

issue_session-keeps :
    (env : AuthEnv) (user : ℕ) (session : Text) (db : AuthDb)
    → rest_of (issue_session env user session db).1 ≡ rest_of db
unfolding issue_session store_token build_response
issue_session-keeps env user session db =
    after-keeps rest_of (rest_of db) (store_token (new_token env user session) db) _
      (after-keeps rest_of (rest_of db)
        (raise_if (any (token_id env.token_id) db.tokens) unique_violation db) _ refl (λ a u k. k))
      (λ a u k.
        after-keeps rest_of (rest_of db) (or_raise (find (user_id user) u.users) record_not_found u)
          _ (ap rest_of (or_raise-state (find (user_id user) u.users) record_not_found u) ∙ k)
          (λ found v l. l))

call_auth-keeps :
    {A : Type 0} (db : AccessDb) (r : Result AuthError A × AuthDb) → (in_auth db r).1.auth ≡ r.1
call_auth-keeps db (ok a, t) = refl
call_auth-keeps db (err e, t) = refl

remember-keeps :
    (env : AccessEnv) (b : Bool) (user : ℕ) (ctx : DeviceContext) (db : AccessDb)
    → rest_of (remember env b user ctx db).1.auth ≡ rest_of db.auth
unfolding issue
remember-keeps env false user ctx db = refl
remember-keeps env true user ctx db =
    after-keeps (λ (d : AccessDb). rest_of d.auth) (rest_of db.auth) (issue env user ctx db) _
      (after-keeps (λ (d : AccessDb). rest_of d.auth) (rest_of db.auth)
        (raise_if (any (device_row env.device_id) db.devices) taken_key db) _ refl (λ a u k. k))
      (λ device u k. elim (Bool-cases env.alerts_work) [ inl e ↦ rw e k | inr e ↦ rw e k ])

-- The challenge that won is consumed, and nothing after that touches it or the users.
complete-rest :
    (env : AccessEnv) (challenge : OpenChallenge) (remember_device : Bool) (ctx : DeviceContext)
    (method : ResetMethod) (db : AccessDb)
    → rest_of (complete env challenge remember_device ctx method db).1.auth ≡ (
      db.auth.users,
      (consume env.auth.now challenge.id challenge.max_attempts db.auth.challenges).1,
    )
unfolding complete consume_challenge issue_session_for_user
complete-rest env challenge remember_device ctx method db =
    let consumed = (consume_challenge env challenge db).1 in
    let won = (consume env.auth.now challenge.id challenge.max_attempts db.auth.challenges).0 in
    after-keeps (λ (d : AccessDb). rest_of d.auth) (rest_of consumed.auth)
      (raise_if (not won) challenge_consumed consumed) _ refl
      (λ a u k.
        after-keeps (λ (d : AccessDb). rest_of d.auth) (rest_of consumed.auth)
          (in_auth u (issue_session env.auth challenge.user_id env.auth.session_id u.auth)) _
          (ap rest_of (
              call_auth-keeps u
                (issue_session env.auth challenge.user_id env.auth.session_id u.auth))
            ∙ (issue_session-keeps env.auth challenge.user_id env.auth.session_id u.auth ∙ k))
          (λ session v l.
            after-keeps (λ (d : AccessDb). rest_of d.auth) (rest_of consumed.auth)
              (remember env (remember_device && env.auth.remember_device_enabled) challenge.user_id
                ctx v)
              _
              (remember-keeps env (remember_device && env.auth.remember_device_enabled)
                  challenge.user_id ctx v
                ∙ l)
              (λ device w m. m)))

complete_won :
    (env : AccessEnv) (challenge : OpenChallenge) (remember_device : Bool) (ctx : DeviceContext)
    (method : ResetMethod) (db : AccessDb) {r : MfaLoginResult} {t : AccessDb}
    → complete env challenge remember_device ctx method db ≡ (ok r, t)
    → (consume env.auth.now challenge.id challenge.max_attempts db.auth.challenges).0 ≡ true
unfolding complete consume_challenge
complete_won env challenge remember_device ctx method db h =
    let won = (consume env.auth.now challenge.id challenge.max_attempts db.auth.challenges).0 in
    let (passed, e) =
      guard_passed (not won) challenge_consumed (consume_challenge env challenge db).1 _ h in
    ground (arith, passed)

consume-fewer :
    (env : AccessEnv) (challenge : OpenChallenge) (before after_it : List MfaChallenge)
    → after_it ≡ (consume env.auth.now challenge.id challenge.max_attempts before).1
    → count_where (row_id challenge.id) after_it < 2
    → count_where (row_id challenge.id) before < 2
unfolding consume
consume-fewer env challenge before after_it e few =
    let same =
      count_where-update_where (row_id challenge.id)
        (is_live env.auth.now challenge.id challenge.max_attempts)
        (λ r. record r { consumed_at = some env.auth.now }) before (λ r. refl) in
    rw (e, same) at few

used_up :
    (env : AccessEnv) (challenge : OpenChallenge) (secret : Text) (later other_max : ℕ)
    (before after_it : List MfaChallenge)
    → after_it ≡ (consume env.auth.now challenge.id challenge.max_attempts before).1
    → count_where (row_id challenge.id) after_it < 2
    → (consume env.auth.now challenge.id challenge.max_attempts before).0 ≡ true
    → ((consume later challenge.id other_max after_it).0 ≡ false)
      × (load_parsed env.auth.crypto later (some (challenge.id, secret)) after_it ≡ none)
used_up env challenge secret later other_max before after_it e few won =
    let once =
      consume_once env.auth.crypto env.auth.now challenge.id secret challenge.max_attempts before []
        later other_max (consume-fewer env challenge before after_it e few) won in
    rw e once

-- A login challenge is upgraded once: where a one-time password upgrades it to a session, the
-- challenge was for a login, its consumption is won by nobody again and its token loads no more,
-- and the user's replay floor has risen to a step above the one that was read, whatever other
-- requests wrote in between; if the library only accepts steps above the floor it is given, and no
-- two users and no two challenges share the id.
pub verify_totp_once :
    (env : AccessEnv) (others : AccessDb → AccessDb) (challenge : OpenChallenge) (code : Text)
    (remember_device : Bool) (ctx : DeviceContext) (db : AccessDb) (secret : Text)
    (later other_max : ℕ) {r : MfaLoginResult} {t : AccessDb}
    → ((s presented : Text) (floor : Option ℕ) (step : ℕ)
        → env.totp s presented floor ≡ some step
        → is_above step floor ≡ true)
    → count_where (user_id challenge.user_id) (others db).auth.users < 2
    → count_where (row_id challenge.id) t.auth.challenges < 2
    → verify_totp env others challenge code remember_device ctx db ≡ (ok r, t)
    → ((challenge.purpose == env.auth.login_purpose) ≡ true)
      × ((consume later challenge.id other_max t.auth.challenges).0 ≡ false)
      × (load_parsed env.auth.crypto later (some (challenge.id, secret)) t.auth.challenges ≡ none)
      × ((step : ℕ) × (floor_of challenge.user_id t ≡ some step)
          × (is_above step (floor_of challenge.user_id db) ≡ true))
unfolding verify_totp assert_login_challenge reject
verify_totp_once env others challenge code remember_device ctx db secret later other_max {t = t}
      above few rows h =
    let (login, e) =
      guard_passed (not (challenge.purpose == env.auth.login_purpose)) wrong_challenge db _ h in
    let (accepted, u, checked, f) =
      after-eq-ok (check_totp env others challenge.user_id code db) _ e in
    elim (Bool-cases accepted) [
      | inr no_code ↦ absurd (err-ne-ok (ap (λ p. p.0) (rw no_code at f)))
      | inl good ↦
          let done = rw good at f in
          let won = complete_won env challenge remember_device ctx totp u done in
          let rest = complete-rest env challenge remember_device ctx totp u in
          let (step, set, high) =
            check_totp-floor_of env others challenge.user_id code db above few
              (rw good at checked) in
          let ended =
            sym (ap (λ (p : Result AccessError MfaLoginResult × AccessDb). rest_of p.1.auth) done)
            ∙ rest in
          let users = ap (λ (p : List User × List MfaChallenge). p.0) ended in
          let challenges = ap (λ (p : List User × List MfaChallenge). p.1) ended in
          let (spent, shut) =
            used_up env challenge secret later other_max u.auth.challenges t.auth.challenges
              challenges rows won in
          (
            ground (arith, login),
            spent,
            shut,
            (step, ap (λ us. floor_at (find (user_id challenge.user_id) us)) users ∙ set, high),
          )
    ]
