-- ===== src/Scenarios/Tokens.antt =====
-- Challenges and masks at concrete values.
use vaultchain_fintech_dashb.Prelude.{
  ℕ, true, false, Option, none, some, List, [], ◌∷◌, ◌≡◌, refl, arith,
}
use vaultchain_fintech_dashb.Prelude.Text.{Text, codes, text_eq}
use vaultchain_fintech_dashb.Challenge.Token.{
  parse_opaque, print_token, matches, hex, uuid_rest, mfa_prefix, parse_opaque-print_token,
}
use vaultchain_fintech_dashb.Challenge.Mfa.{
  Crypto, MfaChallenge, CreateChallengeInput, load_open, load_parsed, create, new_challenge,
  open_of,
}
use vaultchain_fintech_dashb.Challenge.Reset.{ResetChallenge, backup_code, totp}
use vaultchain_fintech_dashb.Challenge.MfaSafety.{consume_once, guesses_bounded}
use vaultchain_fintech_dashb.Challenge.ResetSafety.{consume_reset_once, stamp_once}
use vaultchain_fintech_dashb.Challenge.Mint.{created_opens}
use vaultchain_fintech_dashb.Mask.{mask_wallet_number, mask_wallet_number_hides}
use vaultchain_fintech_dashb.Challenge.Mfa
use vaultchain_fintech_dashb.Challenge.Reset
use vaultchain_fintech_dashb.Challenge.MfaSafety
use vaultchain_fintech_dashb.Challenge.ResetSafety

abbrev uuid : Text
uuid = codes "0190a0b1-c2d3-7e4f-8a5b-6c7d8e9f0a1b"

abbrev secret : Text
secret = codes "s.e"

-- A hash that is the secret itself.
abbrev plain : Crypto
plain = record { hash = λ s. s; verify = λ h s. some (text_eq h s); sha256 = λ s. s }

parse_opaque-print_token_example :
    parse_opaque (matches (hex ∷ uuid_rest)) mfa_prefix (print_token mfa_prefix uuid secret)
    ≡ some (uuid, secret)
parse_opaque-print_token_example =
    parse_opaque-print_token hex uuid_rest mfa_prefix uuid secret refl refl refl

abbrev input : CreateChallengeInput
input = record {
  user_id = 4;
  purpose = 1;
  ttl_seconds = 300;
  max_attempts = 2;
  ip = none;
  user_agent = none;
}

created_opens_example :
    load_open plain 60000
      (print_token mfa_prefix uuid secret)
      (create plain 1000 uuid secret input []).1
    ≡ some (open_of (new_challenge plain 1000 uuid secret input))
created_opens_example =
    created_opens plain 1000 60000 uuid secret input [] refl refl refl refl (omega arith)
      (omega arith)

abbrev challenges : List MfaChallenge
challenges = new_challenge plain 1000 uuid secret input ∷ []

abbrev two_guesses : List MfaSafety.Call
two_guesses = MfaSafety.failing 2000 uuid 2 ∷ MfaSafety.failing 3000 uuid 2 ∷ []

guesses_bounded_example :
    load_parsed plain 4000 (some (uuid, secret)) (MfaSafety.run plain two_guesses challenges) ≡ none
guesses_bounded_example =
    guesses_bounded plain uuid secret 4000 2 challenges two_guesses refl refl (omega arith)

won : (Mfa.consume 2000 uuid 2 challenges).0 ≡ true
unfolding Mfa.consume
won = refl

consume_once_example :
    ((Mfa.consume 3000 uuid 2
        (MfaSafety.run plain two_guesses (Mfa.consume 2000 uuid 2 challenges).1)).0
      ≡ false)
    × (load_parsed plain 3000
          (some (uuid, secret))
          (MfaSafety.run plain two_guesses (Mfa.consume 2000 uuid 2 challenges).1)
        ≡ none)
consume_once_example =
    consume_once plain 2000 uuid secret 2 challenges two_guesses 3000 2 (omega arith) won

abbrev reset_row : Option ℕ → ResetChallenge
reset_row stamped = record {
  id = uuid;
  token_hash = secret;
  user_id = 4;
  purpose = 1;
  expires_at = 9000;
  attempt_count = 0;
  max_attempts = 2;
  consumed_at = none;
  factor_verified_at = stamped;
  factor_method = none;
  created_ip_hash = none;
  ua_hash = none;
}

abbrev retries : List ResetSafety.Call
retries = ResetSafety.consuming 2500 uuid 2 ∷ ResetSafety.stamping 2600 uuid totp 2 ∷ []

reset_won : (Reset.consume 2000 uuid 2 (reset_row (some 1500) ∷ [])).0 ≡ true
unfolding Reset.consume
reset_won = refl

consume_reset_once_example :
    (Reset.consume 3000 uuid 2
      (ResetSafety.run plain retries (Reset.consume 2000 uuid 2 (reset_row (some 1500) ∷ [])).1)).0
    ≡ false
consume_reset_once_example =
    consume_reset_once plain 2000 uuid 2 (reset_row (some 1500) ∷ []) retries 3000 2 (omega arith)
      reset_won

stamp_won : (Reset.mark_factor_verified 2000 uuid totp 2 (reset_row none ∷ [])).0 ≡ true
unfolding Reset.mark_factor_verified
stamp_won = refl

stamp_once_example :
    (Reset.mark_factor_verified 3000 uuid backup_code 2 (
      ResetSafety.run plain retries
        (Reset.mark_factor_verified 2000 uuid totp 2 (reset_row none ∷ [])).1)).0
    ≡ false
stamp_once_example =
    stamp_once plain 2000 uuid totp backup_code 2 (reset_row none ∷ []) retries 3000 2 (omega arith)
      stamp_won

mask_wallet_number_hides_example :
    mask_wallet_number (some (codes "1234567890123456"))
    ≡ mask_wallet_number (some (codes "9999999999993456"))
mask_wallet_number_hides_example =
    mask_wallet_number_hides b'1' b'9' (codes "234567890123456") (codes "999999999993456") refl refl
