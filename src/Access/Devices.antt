-- ===== src/Access/Devices.antt =====
-- Api/src/modules/mfa/remembered-device.service.ts: the devices that skip the second factor.
pub mod Remember
use vaultchain_fintech_dashb.Prelude.{
  ℕ, ◌+◌, ◌*◌, Bool, true, false, not, ◌&&◌, ◌||◌, Option, none, some, List, [], ◌∷◌, find, filter,
  any, or_else, is_some, is_none, leb, ltb, ◌==◌, update_where, if◌then◌else◌, raise_if, gets,
  modify, pure, ◌>>=◌, ◌>>◌,
}
use vaultchain_fintech_dashb.Prelude.Text.{Text, codes, text_eq}
use vaultchain_fintech_dashb.Challenge.Token.{parse_opaque, is_uuid, print_token}
use vaultchain_fintech_dashb.Challenge.Mfa.{Crypto, verifies}
use vaultchain_fintech_dashb.Access.Store.{AccessEnv, RememberedDevice, Handler, taken_key}
use vaultchain_fintech_dashb.Access.Network.{ip_prefix}

-- The address and the agent of a client.
pub record DeviceContext : Type 0 where
  pub ip : Option Text
  pub user_agent : Option Text

pub record IssuedDevice : Type 0 where
  pub token : Text
  pub device_id : Text
  pub expires_at : ℕ

abbrev pub device_prefix : Text
device_prefix = codes "rd_"

abbrev pub parse_device_token : Text → Option (Text × Text)
parse_device_token token = parse_opaque is_uuid device_prefix token

abbrev pub ua_hash_of : Crypto → DeviceContext → Text
ua_hash_of crypto ctx = crypto.sha256 (or_else ctx.user_agent [])

abbrev pub device_row : Text → RememberedDevice → Bool
device_row id d = text_eq d.id id

abbrev pub new_device : AccessEnv → ℕ → DeviceContext → RememberedDevice
new_device env user ctx = record {
  id = env.device_id;
  user_id = user;
  token_hash = env.auth.crypto.hash env.device_secret;
  ua_hash = ua_hash_of env.auth.crypto ctx;
  ip_prefix = ip_prefix ctx.ip;
  expires_at = env.auth.now + env.remember_ttl * 1000;
  revoked_at = none;
}

unfoldable pub issue : AccessEnv → ℕ → DeviceContext → Handler IssuedDevice
issue env user ctx = do
  raise_if (← gets (λ db. any (device_row env.device_id) db.devices)) taken_key
  modify (λ db. record db { devices = new_device env user ctx ∷ db.devices })
  pure (record {
    token = print_token device_prefix env.device_id env.device_secret;
    device_id = env.device_id;
    expires_at = env.auth.now + env.remember_ttl * 1000;
  })

-- A device that is revoked or expired.
abbrev pub is_dead : ℕ → RememberedDevice → Bool
is_dead now d = is_some d.revoked_at || leb d.expires_at now

abbrev pub same_client : Crypto → DeviceContext → RememberedDevice → Bool
same_client crypto ctx d =
    text_eq d.ua_hash (ua_hash_of crypto ctx) && text_eq d.ip_prefix (ip_prefix ctx.ip)

abbrev pub verify_row : Crypto → ℕ → Text → DeviceContext → Option RememberedDevice → Option ℕ
verify_row crypto now secret ctx none = none
verify_row crypto now secret ctx (some d) =
    if is_dead now d
      || (not (verifies crypto d.token_hash secret) || not (same_client crypto ctx d))
    then none
    else some d.user_id

abbrev pub verify_parsed :
    Crypto → ℕ → DeviceContext → List RememberedDevice → Option (Text × Text) → Option ℕ
verify_parsed crypto now ctx rows none = none
verify_parsed crypto now ctx rows (some (id, secret)) =
    verify_row crypto now secret ctx (find (device_row id) rows)

unfoldable pub verify_device : Crypto → ℕ → Text → DeviceContext → List RememberedDevice → Option ℕ
verify_device crypto now presented ctx rows =
    verify_parsed crypto now ctx rows (parse_device_token presented)

abbrev pub revoke_at : ℕ → RememberedDevice → RememberedDevice
revoke_at now d = record d { revoked_at = some now }

abbrev pub is_unrevoked : Text → RememberedDevice → Bool
is_unrevoked id d = device_row id d && is_none d.revoked_at

abbrev pub is_unrevoked_of : ℕ → RememberedDevice → Bool
is_unrevoked_of user d = d.user_id == user && is_none d.revoked_at

unfoldable pub revoke_device : ℕ → Text → List RememberedDevice → List RememberedDevice
revoke_device now id rows = update_where (is_unrevoked id) (revoke_at now) rows

unfoldable pub revoke_all_devices : ℕ → ℕ → List RememberedDevice → List RememberedDevice
revoke_all_devices now user rows = update_where (is_unrevoked_of user) (revoke_at now) rows

unfoldable pub revoke_for_user : ℕ → ℕ → Text → List RememberedDevice → List RememberedDevice
revoke_for_user now user id rows =
    update_where (λ d. is_unrevoked id d && d.user_id == user) (revoke_at now) rows

abbrev pub revoke_parsed : ℕ → Option (Text × Text) → List RememberedDevice → List RememberedDevice
revoke_parsed now none rows = rows
revoke_parsed now (some (id, secret)) rows = revoke_device now id rows

unfoldable pub revoke_by_token : ℕ → Text → List RememberedDevice → List RememberedDevice
revoke_by_token now presented rows = revoke_parsed now (parse_device_token presented) rows

-- The rows that `listActiveForUser` selects; the order by creation is left out.
unfoldable pub list_active : ℕ → ℕ → List RememberedDevice → List RememberedDevice
list_active now user rows = filter (λ d. is_unrevoked_of user d && ltb now d.expires_at) rows
