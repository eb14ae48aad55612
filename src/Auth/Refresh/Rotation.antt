-- ===== src/Auth/Refresh/Rotation.antt =====
-- One winner for each refresh token: what `refresh` of Api/src/modules/auth/auth.service.ts
-- promises when a token is presented again.
use vaultchain_fintech_dashb.Prelude.{
  if◌then◌else◌, Result, ℕ, Bool, true, false, not, some, List, [], ◌∷◌, ◌≡◌, refl, arith,
  count_where, err, Bool-cases, inl, inr, &&_left, any, ok, ◌<◌, all_at, err-ne-ok,
  rolled_back-eq-ok, ◌==◌, after-eq-ok, ap, any-update_where, ◌∙◌, count_where-any, updated_one,
  Option-cases, find_fits, ◌||◌, sym, find-any, find-all,
}
use vaultchain_fintech_dashb.Prelude.Text.{Text, text_eq, text_eq_iff}
use vaultchain_fintech_dashb.Auth.Store.{
  RefreshToken, AuthDb, AuthEnv, AuthOthers, token_reused, user_id,
}
use vaultchain_fintech_dashb.Auth.Session.{
  SessionResult, build_response, store_token, token_id, new_token,
}
use vaultchain_fintech_dashb.Auth.Refresh.{
  refresh, reuse_detected, is_active_of, refresh_row, revoke_all, parse_refresh_token, rotate,
  update_where, find, revoke, rotate_body, is_none, is_some, leb, verifies, is_unspent, replace_by,
  replace_token, pure, AuthError, print_token, refresh_prefix,
}

-- A user without an active session.
abbrev pub IsSignedOut : ℕ → List RefreshToken → Type 0
IsSignedOut user tokens = count_where (is_active_of user) tokens ≡ 0

revoked_all :
    (now user : ℕ) (tokens : List RefreshToken)
    → count_where (is_active_of user) (update_where (is_active_of user) (revoke now) tokens) ≡ 0
revoked_all now user [] = refl
revoked_all now user (t ∷ ts) = elim (Bool-cases (is_active_of user t)) [
  | inl e ↦ ground (arith, e, revoked_all now user ts)
  | inr e ↦ ground (arith, e, revoked_all now user ts)
]

reuse_detected_lem :
    (now : ℕ) (row : RefreshToken) (db : AuthDb)
    → ((reuse_detected now row db).0 ≡ err token_reused)
      × IsSignedOut row.user_id (reuse_detected now row db).1.tokens
unfolding reuse_detected revoke_all
reuse_detected_lem now row db = (refl, revoked_all now row.user_id db.tokens)

-- A token whose row is revoked is refused, and every session of its user is revoked, for whatever
-- secret it is presented with.
pub refresh_reused :
    (env : AuthEnv) (others : AuthOthers) (presented id secret : Text) (row : RefreshToken)
    (db : AuthDb)
    → parse_refresh_token presented ≡ some (id, secret)
    → find (token_id id) db.tokens ≡ some row
    → is_some row.revoked_at ≡ true
    → ((refresh env others presented db).0 ≡ err token_reused)
      × IsSignedOut row.user_id (refresh env others presented db).1.tokens
unfolding refresh refresh_row
refresh_reused env others presented id secret row db parsed there spent =
    rw (parsed, there, spent) (reuse_detected_lem env.now row db)

-- A request that validated its token, and finds that another request has spent it before it
-- rotates it, is refused as a reuse, and every session of the user is revoked.
pub refresh_lost_race :
    (env : AuthEnv) (others : AuthOthers) (presented id secret : Text) (row : RefreshToken)
    (db : AuthDb)
    → parse_refresh_token presented ≡ some (id, secret)
    → find (token_id id) db.tokens ≡ some row
    → is_none row.revoked_at ≡ true
    → leb row.expires_at env.now ≡ false
    → verifies env.crypto row.token_hash secret ≡ true
    → count_where (is_unspent row.id) (others.before_rotate db).tokens ≡ 0
    → ((refresh env others presented db).0 ≡ err token_reused)
      × IsSignedOut row.user_id (refresh env others presented db).1.tokens
unfolding refresh refresh_row rotate rotate_body
refresh_lost_race env others presented id secret row db parsed there unspent fresh proven lost =
    let live : is_some row.revoked_at ≡ false = ground arith in
    rw (parsed, there, live, fresh, proven, lost) (reuse_detected_lem env.now row _)

-- What a rotation that won has left: the token's rows, all revoked.
abbrev is_revoked : RefreshToken → Bool
is_revoked t = is_some t.revoked_at

abbrev IsSpent : Text → List RefreshToken → Type 0
IsSpent id tokens =
    (any (token_id id) tokens ≡ true) × (all_at (token_id id) is_revoked tokens ≡ true)

unspent_is_at : (id : Text) (t : RefreshToken) → is_unspent id t ≡ true → token_id id t ≡ true
unspent_is_at id t h = &&_left (token_id id t) _ h

-- The rows that the conditional revocation leaves, where it hit one.
revocation-IsSpent :
    (id new : Text) (now : ℕ) (tokens : List RefreshToken)
    → count_where (token_id id) tokens < 2
    → (count_where (is_unspent id) tokens == 1) ≡ true
    → IsSpent id (update_where (is_unspent id) (replace_by now new) tokens)
revocation-IsSpent id new now tokens few won = (
  any-update_where (token_id id) (is_unspent id) (replace_by now new) tokens (λ t. refl)
      ∙ count_where-any (is_unspent id) (token_id id) tokens (unspent_is_at id) won,
  updated_one (token_id id) is_revoked (is_unspent id) (replace_by now new) tokens
      (unspent_is_at id) (λ t hit. refl) few won,
)

-- The new token has another id.
store_token-IsSpent :
    (t : RefreshToken) (id : Text) (db u : AuthDb)
    → store_token t db ≡ (ok tt, u)
    → IsSpent id db.tokens
    → IsSpent id u.tokens
unfolding store_token
store_token-IsSpent t id db u h (there, spent) = elim (Bool-cases (any (token_id t.id) db.tokens)) [
  | inl taken ↦ absurd (err-ne-ok (ap (λ r. r.0) (rw taken at h)))
  | inr free ↦ elim (Bool-cases (text_eq t.id id)) [
    | inl e ↦ cc (rw (text_eq_iff t.id id e) at free, there)
    | inr e ↦ rw (← ap (λ r. r.1.tokens) (rw free at h)) ((rw e there), (rw e spent))
  ]
]

false-ne-true : ◌≡◌ {A = Result AuthError Bool} (ok false) (ok true) → ⊥
false-ne-true h = cc h

replaced :
    (env : AuthEnv) (row : RefreshToken) (won : Bool) (u t : AuthDb)
    → replace_token env row won u ≡ (ok true, t)
    → (won ≡ true) × (store_token (new_token env row.user_id row.session_id) u ≡ (ok tt, t))
replaced env row true u t h =
    let (_, v, stored, rest) =
      after-eq-ok (store_token (new_token env row.user_id row.session_id) u) (λ _. pure true) h in
    (refl, stored ∙ ap (λ r. (ok tt, r.1)) rest)
replaced env row false u t h = absurd (false-ne-true (ap (λ r. r.0) h))

rotate-IsSpent :
    (env : AuthEnv) (row : RefreshToken) (db t : AuthDb)
    → count_where (token_id row.id) db.tokens < 2
    → rotate env row db ≡ (ok true, t)
    → IsSpent row.id t.tokens
unfolding rotate rotate_body
rotate-IsSpent env row db t few h =
    let u : AuthDb = record db {
      tokens = update_where (is_unspent row.id) (replace_by env.now env.token_id) db.tokens;
    } in
    let (won, stored) =
      replaced env row (count_where (is_unspent row.id) db.tokens == 1) u t
        (rolled_back-eq-ok (λ before after. before) db (rotate_body env row db) h) in
    store_token-IsSpent (new_token env row.user_id row.session_id) row.id u t stored
      (revocation-IsSpent row.id env.token_id env.now db.tokens few won)

build_response-tokens :
    (env : AuthEnv) (id : ℕ) (token : Text) (db t : AuthDb) (s : SessionResult)
    → build_response env id token db ≡ (ok s, t)
    → t.tokens ≡ db.tokens
unfolding build_response
build_response-tokens env id token db t s h = elim (Option-cases (find (user_id id) db.users)) [
  | inl e ↦ absurd (err-ne-ok (ap (λ r. r.0) (rw e at h)))
  | inr (user, e) ↦ sym (ap (λ r. r.1.tokens) (rw e at h))
]

after_rotation :
    (env : AuthEnv) (row : RefreshToken) (rotated : Bool) (u t : AuthDb) (s : SessionResult)
    → (if rotated
          then build_response env row.user_id
              (print_token refresh_prefix env.token_id env.token_secret)
          else reuse_detected env.now row)
        u
      ≡ (ok s, t)
    → (rotated ≡ true) × (t.tokens ≡ u.tokens)
unfolding reuse_detected revoke_all
after_rotation env row true u t s h = (refl, build_response-tokens env row.user_id _ u t s h)
after_rotation env row false u t s h = absurd (err-ne-ok (ap (λ r. r.0) h))

refresh_row-IsSpent :
    (env : AuthEnv) (others : AuthOthers) (secret : Text) (row : RefreshToken) (db t : AuthDb)
    (s : SessionResult)
    → count_where (token_id row.id) (others.before_rotate db).tokens < 2
    → refresh_row env others secret row db ≡ (ok s, t)
    → IsSpent row.id t.tokens
unfolding refresh_row reuse_detected revoke_all
refresh_row-IsSpent env others secret row db t s few h =
    elim (Bool-cases (is_some row.revoked_at)) [
      | inl spent ↦ absurd (err-ne-ok (ap (λ r. r.0) (rw spent at h)))
      | inr live ↦
          elim (Bool-cases
            (leb row.expires_at env.now || not (verifies env.crypto row.token_hash secret))) [
              | inl bad ↦ absurd (err-ne-ok (ap (λ r. r.0) (rw (live, bad) at h)))
              | inr good ↦
                  let (rotated, u, rotation, rest) =
                    after-eq-ok (rotate env row (others.before_rotate db)) _
                      (rw (live, good) at h) in
                  let (won, same) = after_rotation env row rotated u t s rest in
                  let spent =
                    rotate-IsSpent env row (others.before_rotate db) u few (rw won at rotation) in
                  rw same spent
            ]
    ]

-- A refresh token is good for one session: once a refresh with it returned, another with its id on
-- the tables that one left, whoever sends it and with whatever secret, is refused as a reuse, and
-- every session of the row's user is revoked, if no two rows have its id when it is rotated.
pub refresh_once :
    (env env' : AuthEnv) (others others' : AuthOthers) (presented again id secret secret' : Text)
    (row : RefreshToken) (db t : AuthDb) (s : SessionResult)
    → parse_refresh_token presented ≡ some (id, secret)
    → parse_refresh_token again ≡ some (id, secret')
    → find (token_id id) db.tokens ≡ some row
    → count_where (token_id id) (others.before_rotate db).tokens < 2
    → refresh env others presented db ≡ (ok s, t)
    → (later : RefreshToken) × (find (token_id id) t.tokens ≡ some later)
      × ((refresh env' others' again t).0 ≡ err token_reused)
      × IsSignedOut later.user_id (refresh env' others' again t).1.tokens
unfolding refresh
refresh_once env env' others others' presented again id secret secret' row db t s parsed reparsed
      there few h =
    let same = text_eq_iff row.id id (find_fits (token_id id) db.tokens there) in
    let (held, spent) =
      refresh_row-IsSpent env others secret row db t s (rw (← same) at few)
        (rw (parsed, there) at h) in
    let (later, found) = find-any (token_id id) t.tokens (rw same at held) in
    let revoked =
      find-all (λ r. not (token_id id r) || is_revoked r) (token_id id) t.tokens (rw same at spent)
        found in
    let (refused, signed_out) =
      refresh_reused env' others' again id secret' later t reparsed found
        (rw (find_fits (token_id id) t.tokens found) at revoked) in
    (later, found, refused, signed_out)
