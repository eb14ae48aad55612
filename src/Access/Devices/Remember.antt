-- ===== src/Access/Devices/Remember.antt =====
-- A remembered device is trusted for its user, its client and its time, and never after a
-- revocation: Api/src/modules/mfa/remembered-device.service.ts.
use vaultchain_fintech_dashb.Prelude.{
  ℕ, Bool, true, false, not, ◌||◌, some, List, [], ◌∷◌, ◌≡◌, refl, arith, Bool-cases, inl, inr, any,
  all, find, find-all, ok, ap, ◌==◌, Result, Option-cases, ==_refl, is_some, ◌<◌, ◌+◌, ◌*◌, ◌≢◌,
  some-injective, ok-injective, leb_of_lt,
}
use vaultchain_fintech_dashb.Prelude.Text.{Text, text_eq_refl}
use vaultchain_fintech_dashb.Access.Store.{RememberedDevice, AccessDb, AccessError}
use vaultchain_fintech_dashb.Access.Devices.{
  issue, revoke_all_devices, verify_device, AccessEnv, DeviceContext, is_unrevoked_of, verify_row,
  IssuedDevice, is_dead, parse_device_token, device_row, is_uuid, verifies, same_client, taken_key,
  print_token, device_prefix, new_device, ua_hash_of, ip_prefix,
}
use vaultchain_fintech_dashb.Challenge.Mfa.{Crypto}
use vaultchain_fintech_dashb.Challenge.Token.{is_blank, parse_opaque-print_token, hex, uuid_rest}
use vaultchain_fintech_dashb.Access.Reset.Credentials.{guard_passed}

-- No device of the user is left unrevoked.
abbrev is_revoked_for : ℕ → RememberedDevice → Bool
is_revoked_for user d = not (d.user_id == user) || is_some d.revoked_at

revoked_for :
    (now user : ℕ) (rows : List RememberedDevice)
    → all (is_revoked_for user) (revoke_all_devices now user rows) ≡ true
unfolding revoke_all_devices
revoked_for now user [] = refl
revoked_for now user (d ∷ ds) = elim (Bool-cases (is_unrevoked_of user d)) [
  | inl e ↦ ground (arith, e, revoked_for now user ds)
  | inr e ↦ ground (arith, e, revoked_for now user ds)
]

verify_row-revoked :
    (crypto : Crypto) (later user : ℕ) (secret : Text) (ctx : DeviceContext)
    (p : RememberedDevice → Bool) (rows : List RememberedDevice)
    → all (is_revoked_for user) rows ≡ true
    → verify_row crypto later secret ctx (find p rows) ≡ some user
    → ⊥
verify_row-revoked crypto later user secret ctx p rows gone h = elim (Option-cases (find p rows)) [
  | inl e ↦ cc (rw e at h)
  | inr (d, e) ↦
      let out = find-all (is_revoked_for user) p rows gone e in
      elim (Bool-cases (
        is_dead later d
        || (not (verifies crypto d.token_hash secret) || not (same_client crypto ctx d)))) [
          | inl bad ↦ cc (rw (e, bad) at h)
          | inr good ↦
              let owner : d.user_id ≡ user = some-injective d.user_id user (rw (e, good) at h) in
              let is_owner : (d.user_id == user) ≡ true = rw owner (==_refl user) in
              let dead : is_some d.revoked_at ≡ true = rw is_owner at out in cc (rw dead at good)
        ]
]

-- After all devices of a user are revoked, no token is taken for that user's, by any client at any
-- time.
pub revoke_all_devices-verify_device :
    (crypto : Crypto) (now later user : ℕ) (presented : Text) (ctx : DeviceContext)
    (rows : List RememberedDevice)
    → verify_device crypto later presented ctx (revoke_all_devices now user rows) ≢ some user
unfolding verify_device
revoke_all_devices-verify_device crypto now later user presented ctx rows h =
    elim (Option-cases (parse_device_token presented)) [
      | inl e ↦ cc (rw e at h)
      | inr ((id, secret), e) ↦
          verify_row-revoked crypto later user secret ctx (device_row id) _
            (revoked_for now user rows) (rw e at h)
    ]

fresh_device :
    (env : AccessEnv) (user later : ℕ) (ctx : DeviceContext) (rows : List RememberedDevice)
    → is_uuid env.device_id ≡ true
    → is_blank env.device_secret ≡ false
    → verifies env.auth.crypto (env.auth.crypto.hash env.device_secret) env.device_secret ≡ true
    → later < env.auth.now + env.remember_ttl * 1000
    → verify_device env.auth.crypto later
        (print_token device_prefix env.device_id env.device_secret)
        ctx
        (new_device env user ctx ∷ rows)
      ≡ some user
unfolding verify_device
fresh_device env user later ctx rows uuid full good early =
    let live = leb_of_lt (env.auth.now + env.remember_ttl * 1000) later early in
    rw
      (
        parse_opaque-print_token hex uuid_rest device_prefix env.device_id env.device_secret refl
            uuid full,
        text_eq_refl env.device_id,
        live,
        good,
        text_eq_refl (ua_hash_of env.auth.crypto ctx),
        text_eq_refl (ip_prefix ctx.ip),
      )
      refl

-- A device that was just issued to a client is taken for its user's from that client until it
-- expires, by the token that was returned; if the hash verifies, and the id is a fresh UUID and
-- the secret is not empty.
pub issue-verify_device :
    (env : AccessEnv) (user later : ℕ) (ctx : DeviceContext) (db : AccessDb) {device : IssuedDevice}
    {t : AccessDb}
    → issue env user ctx db ≡ (ok device, t)
    → is_uuid env.device_id ≡ true
    → is_blank env.device_secret ≡ false
    → verifies env.auth.crypto (env.auth.crypto.hash env.device_secret) env.device_secret ≡ true
    → later < env.auth.now + env.remember_ttl * 1000
    → verify_device env.auth.crypto later device.token ctx t.devices ≡ some user
unfolding issue verify_device
issue-verify_device env user later ctx db h uuid full good early =
    let (fresh, e) = guard_passed (any (device_row env.device_id) db.devices) taken_key db _ h in
    let made = ok-injective (ap (λ (p : Result AccessError IssuedDevice × AccessDb). p.0) e) in
    let state = ap (λ (p : Result AccessError IssuedDevice × AccessDb). p.1) e in
    coe 0 1
      (i. verify_device env.auth.crypto later (made i).token ctx (state i).devices ≡ some user)
      (fresh_device env user later ctx db.devices uuid full good early)
