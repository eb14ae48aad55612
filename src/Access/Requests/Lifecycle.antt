-- ===== src/Access/Requests/Lifecycle.antt =====
-- Every sequence of the calls of Api/src/modules/password-reset that write requests: each request
-- lives along the abstract machine.
use vaultchain_fintech_dashb.Prelude.{
  ℕ, Bool, true, not, Option, none, some, List, [], ◌∷◌, ◌≡◌, refl, Bool-cases, inl, inr, is_none,
  any, find, ◌⊎◌,
}
use vaultchain_fintech_dashb.Prelude.Text.{Text}
use vaultchain_fintech_dashb.Access.Reset.Complete.{
  replace_password, verify_password, verify_user, consume_reset, complete_found, complete_linked,
  set_password, revoke_all_trust, is_linked,
}
use vaultchain_fintech_dashb.Access.Store.{
  AccessDb, AccessEnv, ResetRequest, RequestStatus, weak_password, same_password,
  reset_challenge_consumed,
}
use vaultchain_fintech_dashb.Access.Devices.{DeviceContext}
use vaultchain_fintech_dashb.Access.Reset.{
  reject_reset, assert_strong_password, fingerprint_matches, is_strong,
}
use vaultchain_fintech_dashb.Access.Requests.File.{RequestOthers, file_request}
use vaultchain_fintech_dashb.Access.Requests.Writes.{
  HasKeys, Writes, end, Writes-trans, one_write, Writes-HasKeys, completed,
}
use vaultchain_fintech_dashb.Access.Requests.Machine.{
  Evolves, is_over, stage_of, found_later, over_stays, done, lapsed,
}
use vaultchain_fintech_dashb.Challenge.Reset.{OpenResetChallenge, consume}
use vaultchain_fintech_dashb.Access.Requests.Poll.{poll}
use vaultchain_fintech_dashb.Access.Requests.Filing.{
  file_request-Writes, if-Writes, guard-Writes, after-Writes, stay_at, IsSerial,
}
use vaultchain_fintech_dashb.Access.Requests.{request_row, verifies}
use vaultchain_fintech_dashb.Access.Requests.Decide.{list_requests, detail, decide}
use vaultchain_fintech_dashb.Access.Requests.Polling.{poll-Writes, detail-Writes}
use vaultchain_fintech_dashb.Auth.Store.{User, user_id}
use vaultchain_fintech_dashb.Access.Requests.Deciding.{list_requests-Writes, decide-Writes}
use vaultchain_fintech_dashb.Access.Requests.Moves.{Writes-Evolves}

module _ (single : Bool) where
  replace_password_lem :
      (env : AccessEnv) (challenge : OpenResetChallenge) (user : ℕ) (hash : Text) (db : AccessDb)
      → (replace_password env challenge user hash db).1.reset_requests ≡ db.reset_requests
  unfolding replace_password consume_reset set_password revoke_all_trust
  replace_password_lem env challenge user hash db =
      elim (Bool-cases
        (consume env.auth.now challenge.id challenge.max_attempts db.reset_challenges).0) [
          | inl won ↦ elim (Bool-cases (any (user_id user) db.auth.users)) [
            | inl there ↦ rw (won, there) refl
            | inr gone ↦ rw (won, gone) refl
          ]
          | inr lost ↦ rw lost refl
        ]

  complete_found-Writes :
      (env : AccessEnv) (user : ℕ) (ctx : DeviceContext) (o : Option ResetRequest) (db : AccessDb)
      → Writes single db.reset_requests (complete_found env user ctx o db).1.reset_requests
  complete_found-Writes env user ctx none db = end _
  complete_found-Writes env user ctx (some request) db =
      one_write (completed env.auth.now request.id refl)

  verify_user-Writes :
      (env : AccessEnv) (challenge : OpenResetChallenge) (password : Text) (ctx : DeviceContext)
      (user : Option User) (db : AccessDb)
      → Writes single db.reset_requests
          (verify_user env challenge password ctx user db).1.reset_requests
  unfolding verify_user reject_reset complete_linked assert_strong_password
  verify_user-Writes env challenge password ctx none db = end _
  verify_user-Writes env challenge password ctx (some user) db =
      guard-Writes single (not (is_strong password)) weak_password _ _ db (end _) (λ strong.
        guard-Writes single (verifies env.auth.crypto user.password_hash password) same_password _ _
          db (end _)
          (λ new.
            after-Writes single _
              (replace_password env challenge user.id (env.auth.crypto.hash password) db) _
              (stay_at single _ _
                (replace_password_lem env challenge user.id (env.auth.crypto.hash password) db))
              (λ consumed u h.
                guard-Writes single (not consumed) reset_challenge_consumed _ _ u (end _) (λ won.
                  complete_found-Writes env user.id ctx
                    (find (is_linked challenge.id) u.reset_requests) _))))

  verify_password-Writes :
      (env : AccessEnv) (challenge : OpenResetChallenge) (password : Text) (ctx : DeviceContext)
      (db : AccessDb)
      → Writes single db.reset_requests
          (verify_password env challenge password ctx db).1.reset_requests
  unfolding verify_password reject_reset
  verify_password-Writes env challenge password ctx db =
      if-Writes single (not (fingerprint_matches env.auth.crypto challenge ctx)) db.reset_requests _
        _ db (λ e. end _)
        (λ e.
          if-Writes single (is_none challenge.factor_verified_at) db.reset_requests _ _ db
            (λ e. end _)
            (λ e.
              verify_user-Writes env challenge password ctx
                (find (user_id challenge.user_id) db.auth.users) db))

-- A call that writes requests, with what other requests do meanwhile.
pub data Call : Type 0 where
  filing : AccessEnv → RequestOthers → Text → Option Text → DeviceContext → Call
  polling : AccessEnv → (AccessDb → AccessDb) → Option Text → DeviceContext → Call
  listing : AccessEnv → Option RequestStatus → Call
  reading : AccessEnv → (AccessDb → AccessDb) → Text → Call
  deciding : AccessEnv → (AccessDb → AccessDb) → (AccessDb → AccessDb) → ℕ → Text → Bool → Call
  completing : AccessEnv → OpenResetChallenge → Text → DeviceContext → Call

abbrev pub apply_call : Call → AccessDb → AccessDb
apply_call (filing env others email presented ctx) db =
    (file_request env others email presented ctx db).1
apply_call (polling env others presented ctx) db = (poll env others presented ctx db).1
apply_call (listing env status) db = (list_requests env status db).1
apply_call (reading env others id) db = (detail env others id db).1
apply_call (deciding env others later actor id approve) db =
    (decide env others later actor id approve db).1
apply_call (completing env challenge password ctx) db =
    (verify_password env challenge password ctx db).1

abbrev pub run : List Call → AccessDb → AccessDb
run [] db = db
run (call ∷ calls) db = run calls (apply_call call db)

-- What other requests do is a sequence of the same writes.
abbrev pub MakesWrites : Bool → (AccessDb → AccessDb) → Type 0
MakesWrites single f = (d : AccessDb) → Writes single d.reset_requests (f d).reset_requests

abbrev pub IsFair : Bool → Call → Type 0
IsFair single (filing env others email presented ctx) =
    (single ≡ true → IsSerial env others)
    × MakesWrites single others.before_transaction
    × MakesWrites single others.before_insert
IsFair single (polling env others presented ctx) = MakesWrites single others
IsFair single (reading env others id) = MakesWrites single others
IsFair single (deciding env others later actor id approve) =
    MakesWrites single others × MakesWrites single later
IsFair single _ = Unit {0}

abbrev pub AreFair : Bool → List Call → Type 0
AreFair single [] = Unit {0}
AreFair single (call ∷ calls) = IsFair single call × AreFair single calls

apply_call-Writes :
    (single : Bool) (call : Call) (db : AccessDb)
    → HasKeys db.reset_requests
    → IsFair single call
    → Writes single db.reset_requests (apply_call call db).reset_requests
apply_call-Writes single (filing env others email presented ctx) db keys (same, before, inside) =
    file_request-Writes single env others email presented ctx db same before inside
apply_call-Writes single (polling env others presented ctx) db keys fair =
    poll-Writes single env others presented ctx db fair
apply_call-Writes single (listing env status) db keys fair =
    list_requests-Writes single env status db
apply_call-Writes single (reading env others id) db keys fair =
    detail-Writes single env others id db fair
apply_call-Writes single (deciding env others later actor id approve) db keys (fair, fair_later) =
    decide-Writes single env others later actor id approve db fair fair_later keys
apply_call-Writes single (completing env challenge password ctx) db keys fair =
    verify_password-Writes single env challenge password ctx db

pub run-Writes :
    (single : Bool) (calls : List Call) (db : AccessDb)
    → HasKeys db.reset_requests
    → AreFair single calls
    → Writes single db.reset_requests (run calls db).reset_requests
run-Writes single [] db keys fair = end _
run-Writes single (call ∷ calls) db keys (first, rest) =
    let w = apply_call-Writes single call db keys first in
    Writes-trans w (run-Writes single calls (apply_call call db) (Writes-HasKeys w keys) rest)

-- The table refines the abstract machine: after any sequence of calls it holds the requests that it
-- held, in the same order, of the same users, each moved along the machine, under requests that were
-- filed as waiting, where no two requests shared an id and what others write meanwhile is written by
-- the same calls.
pub requests_evolve :
    (single : Bool) (calls : List Call) (db : AccessDb)
    → HasKeys db.reset_requests
    → AreFair single calls
    → Evolves db.reset_requests (run calls db).reset_requests
requests_evolve single calls db keys fair = Writes-Evolves (run-Writes single calls db keys fair)

-- A request that is done, refused or expired is never open again: whatever calls follow, it is there,
-- of the same user, and still in that stage, but for a done one, which may be marked expired; where
-- no two requests shared an id and what others write meanwhile is written by the same calls.
pub over_stays_after :
    (single : Bool) (calls : List Call) (db : AccessDb) (id : Text) (r : ResetRequest)
    → HasKeys db.reset_requests
    → AreFair single calls
    → find (request_row id) db.reset_requests ≡ some r
    → is_over (stage_of r) ≡ true
    → (s : ResetRequest) × (find (request_row id) (run calls db).reset_requests ≡ some s)
      × (r.user_id ≡ s.user_id)
      × ((stage_of r ≡ stage_of s) ⊎ ((stage_of r ≡ done) × (stage_of s ≡ lapsed)))
over_stays_after single calls db id r keys fair found over =
    let w = run-Writes single calls db keys fair in
    let (s, there, b) = found_later id (Writes-Evolves w) (Writes-HasKeys w keys) found in
    (s, there, b.same_user, over_stays b.reaches over)
