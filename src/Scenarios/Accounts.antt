-- ===== src/Scenarios/Accounts.antt =====
-- Logins, refresh tokens and customers at concrete values.
use vaultchain_fintech_dashb.Prelude.{
  ℕ, true, false, Option, none, some, [], ◌∷◌, ◌≡◌, refl, arith, ok, err, find,
}
use vaultchain_fintech_dashb.Prelude.Text.{Text, codes, text_eq}
use vaultchain_fintech_dashb.Challenge.Token.{
  print_token, refresh_prefix, parse_opaque, parse_refresh_token,
}
use vaultchain_fintech_dashb.Challenge.Mfa.{Crypto}
use vaultchain_fintech_dashb.Auth.Store.{
  User, RefreshToken, AuthDb, AuthEnv, AuthOthers, alone, token_reused, account_locked,
}
use vaultchain_fintech_dashb.Auth.Login.{
  LoginContext, login, log_in_as, by_email, let_in, normal_email, record_attempt, authenticated,
  decide_second_factor, register_failure, try_lock,
}
use vaultchain_fintech_dashb.Auth.Login.Lockout.{login-MayEnter, MayEnter}
use vaultchain_fintech_dashb.Auth.Refresh.{refresh, refresh_row, rotate, rotate_body}
use vaultchain_fintech_dashb.Auth.Refresh.Rotation.{
  refresh_once, refresh_lost_race, refresh_reused, IsSignedOut,
}
use vaultchain_fintech_dashb.Auth.Session.{
  SessionResult, token_id, store_token, build_response, issue_session,
}
use vaultchain_fintech_dashb.Mask.{mask_email}
use vaultchain_fintech_dashb.Auth.Login.FifthFailure.{fifth_failure_locks}

abbrev pub plain : Crypto
plain = record { hash = λ s. s; verify = λ h s. some (text_eq h s); sha256 = λ s. s }

abbrev pub old_id : Text
old_id = codes "0190a0b1-c2d3-7e4f-8a5b-6c7d8e9f0a1b"

abbrev pub new_id : Text
new_id = codes "0190a0b1-c2d3-7e4f-8a5b-6c7d8e9f0a1c"

abbrev pub env : AuthEnv
env = record {
  now = 5000;
  crypto = plain;
  token_id = new_id;
  token_secret = codes "fresh";
  session_id = codes "session";
  challenge_id = new_id;
  challenge_secret = codes "challenge";
  remember_device_enabled = false;
  mfa_required = false;
  challenge_ttl = 300;
  max_verify_attempts = 5;
  login_purpose = 1;
  remembered = λ token. none;
  sign = λ user permissions version. codes "jwt";
  alert_works = true;
}

abbrev pub ada : User
ada = record {
  id = 4;
  email = codes "ada@bank.test";
  display_name = codes "Ada";
  password_hash = codes "pw";
  is_active = true;
  failed_login_count = 2;
  locked_until = none;
  last_login_at = none;
  mfa_enabled = false;
  mfa_confirmed_at = none;
  totp_secret_enc = none;
  last_used_totp_step = none;
  permission_version = 1;
  user_roles = (3 ∷ 1 ∷ []) ∷ (1 ∷ 2 ∷ []) ∷ [];
}

abbrev old_token : Option ℕ → RefreshToken
old_token revoked = record {
  id = old_id;
  token_hash = codes "old";
  user_id = 4;
  session_id = codes "session";
  expires_at = 9000;
  revoked_at = revoked;
  replaced_by_id = none;
}

abbrev pub auth_db : Option ℕ → AuthDb
auth_db revoked = record {
  users = ada ∷ [];
  tokens = old_token revoked ∷ [];
  attempts = [];
  challenges = [];
  lockout_alerts = [];
}

abbrev nowhere : LoginContext
nowhere = record { ip = none; user_agent = none; remember_device_token = none }

abbrev ada_session : SessionResult
ada_session = record {
  refresh_token = print_token refresh_prefix new_id (codes "fresh");
  access_token = codes "jwt";
  expires_in = 900;
  permissions = 1 ∷ 2 ∷ 3 ∷ [];
  user_id = 4;
  display_name = codes "Ada";
  masked_email = codes "a***@b***.test";
  mfa_enabled = false;
  last_login_at = some 5000;
}

abbrev logged_in : AuthDb
logged_in = (login env alone (codes " Ada@Bank.test ") (codes "pw") nowhere (auth_db none)).1

ada-enters :
    login env alone (codes " Ada@Bank.test ") (codes "pw") nowhere (auth_db none)
    ≡ (ok (authenticated ada_session), logged_in)
unfolding login log_in_as let_in record_attempt decide_second_factor issue_session store_token
    build_response mask_email
ada-enters = refl

login-MayEnter_example :
    (user : User) × (find (by_email (normal_email (codes " Ada@Bank.test "))) (auth_db none).users
      ≡ some user)
    × MayEnter env nowhere (codes "pw") user (authenticated ada_session)
login-MayEnter_example =
    login-MayEnter env alone (codes " Ada@Bank.test ") (codes "pw") nowhere (auth_db none) logged_in
      (authenticated ada_session) ada-enters

abbrev presented : Text
presented = print_token refresh_prefix old_id (codes "old")

abbrev guessed : Text
guessed = print_token refresh_prefix old_id (codes "guess")

presented-parses : parse_refresh_token presented ≡ some (old_id, codes "old")
unfolding parse_opaque
presented-parses = refl

guessed-parses : parse_refresh_token guessed ≡ some (old_id, codes "guess")
unfolding parse_opaque
guessed-parses = refl

abbrev rotated : AuthDb
rotated = (refresh env alone presented (auth_db none)).1

abbrev next_session : SessionResult
next_session = record ada_session { last_login_at = none }

presented-rotates : refresh env alone presented (auth_db none) ≡ (ok next_session, rotated)
unfolding refresh refresh_row rotate rotate_body store_token build_response parse_opaque mask_email
presented-rotates = refl

refresh_once_example :
    (later : RefreshToken) × (find (token_id old_id) rotated.tokens ≡ some later)
    × ((refresh env alone guessed rotated).0 ≡ err token_reused)
    × IsSignedOut later.user_id (refresh env alone guessed rotated).1.tokens
refresh_once_example =
    refresh_once env env alone alone presented guessed old_id (codes "old") (codes "guess")
      (old_token none) (auth_db none) rotated next_session presented-parses guessed-parses refl
      (omega arith) presented-rotates

refresh_reused_example :
    ((refresh env alone guessed (auth_db (some 1))).0 ≡ err token_reused)
    × IsSignedOut 4 (refresh env alone guessed (auth_db (some 1))).1.tokens
refresh_reused_example =
    refresh_reused env alone guessed old_id (codes "guess") (old_token (some 1)) (auth_db (some 1))
      guessed-parses refl refl

-- Another request spends the token while this one is hashing its new secret.
abbrev racing : AuthOthers
racing = record {
  before_lock = λ db. db;
  before_rotate = λ db. record db { tokens = old_token (some 4999) ∷ [] };
}

refresh_lost_race_example :
    ((refresh env racing presented (auth_db none)).0 ≡ err token_reused)
    × IsSignedOut 4 (refresh env racing presented (auth_db none)).1.tokens
refresh_lost_race_example =
    refresh_lost_race env racing presented old_id (codes "old") (old_token none) (auth_db none)
      presented-parses refl refl refl refl refl

-- Ada after four failures.
abbrev tired : User
tired = record ada { failed_login_count = 4 }

abbrev tired_db : AuthDb
tired_db = record (auth_db none) { users = tired ∷ [] }

abbrev locked_ada : User
locked_ada = record tired { failed_login_count = 5; locked_until = some 905000 }

abbrev ada_mail : Text
ada_mail = codes "ada@bank.test"

tired-locked :
    find
      (by_email (normal_email ada_mail))
      (login env alone ada_mail (codes "wrong") nowhere tired_db).1.users
    ≡ some locked_ada
unfolding login log_in_as register_failure try_lock record_attempt
tired-locked = refl

fifth_failure_locks_example :
    (login
      (record env { now = 6000 })
      alone
      ada_mail
      (codes "pw")
      nowhere
      (login env alone ada_mail (codes "wrong") nowhere tired_db).1).0
    ≡ err account_locked
fifth_failure_locks_example =
    fifth_failure_locks env (record env { now = 6000 }) alone ada_mail (codes "wrong") ada_mail
      (codes "pw") nowhere nowhere tired locked_ada tired_db refl refl (omega arith) refl refl refl
      (omega arith) tired-locked refl
