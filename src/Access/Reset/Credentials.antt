-- ===== src/Access/Reset/Credentials.antt =====
-- The write of a new password with the revocation of trust, and the bookkeeping after it:
-- Api/src/modules/password-reset/password-reset.service.ts.
use vaultchain_fintech_dashb.Prelude.{
  ℕ, Bool, true, false, not, ◌&&◌, Option, none, some, List, ◌≡◌, refl, arith, update_where,
  is_none, any, all_at, count_where, ok, ap, ◌∙◌, ◌==◌, Result, err-ne-ok, ok-injective, after,
  after-eq-ok, rolled_back-eq-ok, raise_if, update_where-none, any-update_where,
  update_where-all_at,
}
use vaultchain_fintech_dashb.Prelude.Text.{Text, text_eq, text_eq_refl}
use vaultchain_fintech_dashb.Access.Store.{
  AccessDb, AccessError, Handler, missing_row, AccessEnv, ResetRequest,
}
use vaultchain_fintech_dashb.Auth.Store.{User, user_id}
use vaultchain_fintech_dashb.Access.Reset.Complete.{
  revoke_all_trust, set_password, is_open_login, is_open_reset, replace_password, with_password,
  consume_reset, set_if_won, complete_found,
}
use vaultchain_fintech_dashb.Auth.Refresh.{is_active_of, revoke}
use vaultchain_fintech_dashb.Access.Devices.{
  revoke_all_devices, is_unrevoked_of, revoke_at, DeviceContext,
}
use vaultchain_fintech_dashb.Challenge.Reset.{OpenResetChallenge, consume}

-- The user has no session, no remembered device, no login in progress, and no reset in progress but
-- the excepted one.
abbrev pub IsUntrusted : ℕ → Option Text → AccessDb → Type 0
IsUntrusted user except db =
    (count_where (is_active_of user) db.auth.tokens ≡ 0)
    × (count_where (is_unrevoked_of user) db.devices ≡ 0)
    × (count_where (is_open_login user) db.auth.challenges ≡ 0)
    × (count_where (is_open_reset user except) db.reset_challenges ≡ 0)

-- The user is there, and every row of the user has the password's hash and no lock.
abbrev has_password : Text → User → Bool
has_password hash u =
    text_eq u.password_hash hash && (u.failed_login_count == 0 && is_none u.locked_until)

abbrev pub HasPassword : ℕ → Text → AccessDb → Type 0
HasPassword user hash db =
    (any (user_id user) db.auth.users ≡ true)
    × (all_at (user_id user) (has_password hash) db.auth.users ≡ true)

-- A guard that let a chain pass.
pub guard_passed :
    {B : Type 0} (b : Bool) (e : AccessError) (s : AccessDb) (f : Unit {0} → Handler B) {x : B}
    {t : AccessDb}
    → after (raise_if b e s) f ≡ (ok x, t)
    → (b ≡ false) × (f tt s ≡ (ok x, t))
guard_passed true e s f h = absurd (err-ne-ok (ap (λ r. r.0) h))
guard_passed false e s f h = (refl, h)

revoke_all_trust-IsUntrusted :
    (now user : ℕ) (except : Option Text) (db : AccessDb)
    → IsUntrusted user except (revoke_all_trust now user except db)
unfolding revoke_all_trust revoke_all_devices
revoke_all_trust-IsUntrusted now user except db = (
  update_where-none (is_active_of user) (revoke now) db.auth.tokens (λ r h. ground arith),
  update_where-none (is_unrevoked_of user) (revoke_at now) db.devices (λ r h. ground arith),
  update_where-none (is_open_login user) _ db.auth.challenges (λ r h. ground arith),
  update_where-none (is_open_reset user except) _ db.reset_challenges (λ r h. ground arith),
)

abbrev with_users : List User → AccessDb → AccessDb
with_users users db = record db { auth = record db.auth { users = users } }

password_replaced :
    (now user : ℕ) (hash : Text) (except : Option Text) (db : AccessDb)
    → any (user_id user) db.auth.users ≡ true
    → HasPassword user hash (
        revoke_all_trust now user except
          (with_users (update_where (user_id user) (with_password hash) db.auth.users) db))
unfolding revoke_all_trust
password_replaced now user hash except db there = (
  any-update_where (user_id user) (user_id user) (with_password hash) db.auth.users (λ u. refl)
      ∙ there,
  update_where-all_at (user_id user) (has_password hash) (with_password hash) db.auth.users
      (λ u h. rw (text_eq_refl hash) refl) (λ u. refl),
)

pub set_password_lem :
    (now user : ℕ) (hash : Text) (except : Option Text) (db : AccessDb) {x : Unit {0}}
    {t : AccessDb}
    → set_password now user hash except db ≡ (ok x, t)
    → HasPassword user hash t × IsUntrusted user except t
unfolding set_password
set_password_lem now user hash except db h =
    let (there, e) = guard_passed (not (any (user_id user) db.auth.users)) missing_row db _ h in
    let same = ap (λ (p : Result AccessError (Unit {0}) × AccessDb). p.1) e in
    let changed = with_users (update_where (user_id user) (with_password hash) db.auth.users) db in
    coe 0 1 (i. HasPassword user hash (same i) × IsUntrusted user except (same i)) (
      password_replaced now user hash except db (ground (arith, there)),
      revoke_all_trust-IsUntrusted now user except changed,
    )

-- The bookkeeping after the reset leaves the rest as it is.
pub completed_keeps :
    (env : AccessEnv) (user owner : ℕ) (hash : Text) (except : Option Text) (ctx : DeviceContext)
    (o : Option ResetRequest) (db : AccessDb) {x : Unit {0}} {t : AccessDb}
    → HasPassword owner hash db × IsUntrusted owner except db
    → complete_found env user ctx o db ≡ (ok x, t)
    → HasPassword owner hash t × IsUntrusted owner except t
completed_keeps env user owner hash except ctx none db have h =
    let same = ap (λ (p : Result AccessError (Unit {0}) × AccessDb). p.1) h in
    coe 0 1 (i. HasPassword owner hash (same i) × IsUntrusted owner except (same i)) have
completed_keeps env user owner hash except ctx (some request) db have h =
    let same = ap (λ (p : Result AccessError (Unit {0}) × AccessDb). p.1) h in
    coe 0 1 (i. HasPassword owner hash (same i) × IsUntrusted owner except (same i)) have

ok-ne :
    {a b : Bool} {s t : AccessDb}
    → ◌≡◌ {A = Result AccessError Bool × AccessDb} (ok a, s) (ok b, t)
    → a ≡ b
ok-ne h = ok-injective (ap (λ (p : Result AccessError Bool × AccessDb). p.0) h)

set_if_won_lem :
    (env : AccessEnv) (challenge : OpenResetChallenge) (user : ℕ) (hash : Text) (won : Bool)
    (db : AccessDb) {t : AccessDb}
    → set_if_won env challenge user hash won db ≡ (ok true, t)
    → (won ≡ true) × HasPassword user hash t × IsUntrusted user (some challenge.id) t
set_if_won_lem env challenge user hash false db h = absurd (cc (ok-ne h))
set_if_won_lem env challenge user hash true db {t} h =
    let (x, u, set, rest) =
      after-eq-ok (set_password env.auth.now user hash (some challenge.id) db) _ h in
    let same = ap (λ (p : Result AccessError Bool × AccessDb). p.1) rest in
    let (a, b) =
      coe 0 1 (i. HasPassword user hash (same i) × IsUntrusted user (some challenge.id) (same i))
        (set_password_lem env.auth.now user hash (some challenge.id) db set) in
    (refl, a, b)

pub replace_password_done :
    (env : AccessEnv) (challenge : OpenResetChallenge) (user : ℕ) (hash : Text) (db : AccessDb)
    {t : AccessDb}
    → replace_password env challenge user hash db ≡ (ok true, t)
    → ((consume env.auth.now challenge.id challenge.max_attempts db.reset_challenges).0 ≡ true)
      × HasPassword user hash t
      × IsUntrusted user (some challenge.id) t
unfolding replace_password consume_reset
replace_password_done env challenge user hash db h =
    set_if_won_lem env challenge user hash _ _ (rolled_back-eq-ok (λ b a. b) db _ h)
