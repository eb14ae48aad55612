-- ===== src/Challenge/Mint.antt =====
-- From `create` to `loadOpen` of Api/src/modules/mfa/mfa-challenge.service.ts.
use vaultchain_fintech_dashb.Prelude.{
  ℕ, ◌+◌, ◌*◌, ◌<◌, true, false, some, List, ◌≡◌, refl, any, leb_of_lt,
}
use vaultchain_fintech_dashb.Prelude.Text.{Text, text_eq_refl}
use vaultchain_fintech_dashb.Challenge.Token.{
  is_uuid, is_blank, print_token, mfa_prefix, parse_opaque-print_token, hex, uuid_rest,
}
use vaultchain_fintech_dashb.Challenge.Mfa.{
  MfaChallenge, CreateChallengeInput, Crypto, row_id, create, load_open, open_of, new_challenge,
}

-- A challenge that is created opens for the token it was issued with, until it expires, if the id
-- is a new uuid, the secret is not empty and verifies against its own hash, and an attempt is
-- allowed.
pub created_opens :
    (crypto : Crypto) (now later : ℕ) (id secret : Text) (input : CreateChallengeInput)
    (rows : List MfaChallenge)
    → any (row_id id) rows ≡ false
    → is_uuid id ≡ true
    → is_blank secret ≡ false
    → crypto.verify (crypto.hash secret) secret ≡ some true
    → later < now + input.ttl_seconds * 1000
    → 0 < input.max_attempts
    → load_open crypto later
        (print_token mfa_prefix id secret)
        (create crypto now id secret input rows).1
      ≡ some (open_of (new_challenge crypto now id secret input))
unfolding load_open create
created_opens crypto now later id secret input rows free valid full verified early allowed =
    let early' = leb_of_lt (now + input.ttl_seconds * 1000) later early in
    let allowed' = leb_of_lt input.max_attempts 0 allowed in
    rw
      (
        parse_opaque-print_token hex uuid_rest mfa_prefix id secret refl valid full,
        free,
        text_eq_refl id,
        early',
        allowed',
        verified,
      )
      refl
