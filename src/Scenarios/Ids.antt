-- ===== src/Scenarios/Ids.antt =====
-- Ids, envelopes and national ids at concrete values.
use vaultchain_fintech_dashb.Prelude.{true, false, [], ◌∷◌, ◌≡◌, refl, arith, ok, ◌<◌}
use vaultchain_fintech_dashb.Prelude.Text.{codes}
use vaultchain_fintech_dashb.Common.Uuid.{
  Random, tick, uuidv7, fresh_clock, id_bytes, stamp, print_bytes,
}
use vaultchain_fintech_dashb.Common.UuidOrder.{
  high_part, bytes_at, run_ticks, uuidv7-is_uuid, later_is_greater,
}
use vaultchain_fintech_dashb.Challenge.Token.{is_uuid}
use vaultchain_fintech_dashb.Common.Envelope.{
  EnvelopeCiphertext, Utf8, pack_envelope, unpack_envelope, unpack_envelope-pack_envelope,
}
use vaultchain_fintech_dashb.Common.NationalId.{is_valid_raw, is_valid_raw_one_error}

abbrev zeros : Random
zeros = record { b8 = 0; b9 = 0; b10 = 0; b11 = 0; b12 = 0; b13 = 0; b14 = 0; b15 = 0 }

abbrev ones : Random
ones = record {
  b8 = 255;
  b9 = 255;
  b10 = 255;
  b11 = 255;
  b12 = 255;
  b13 = 255;
  b14 = 255;
  b15 = 255;
}

in_range :
    stamp (tick 4000 (run_ticks (5000 ∷ 4990 ∷ []) (tick 5000 fresh_clock))).last_millis
    < 281474976710656
unfolding tick
in_range = omega arith

-- The clock steps back before the second id.
later_is_greater_example :
    high_part (bytes_at (tick 5000 fresh_clock) ones)
    < high_part (bytes_at (tick 4000 (run_ticks (5000 ∷ 4990 ∷ []) (tick 5000 fresh_clock))) zeros)
later_is_greater_example =
    later_is_greater 5000 4000 (5000 ∷ 4990 ∷ []) fresh_clock ones zeros in_range

uuidv7-is_uuid_example : is_uuid (uuidv7 5000 ones fresh_clock).0 ≡ true
uuidv7-is_uuid_example = uuidv7-is_uuid 5000 ones fresh_clock refl

printed : (uuidv7 5000 ones fresh_clock).0 ≡ codes "00000000-1388-7000-bfff-ffffffffffff"
unfolding uuidv7 tick id_bytes print_bytes
printed = refl

abbrev ascii : Utf8
ascii = record { encode = λ s. s; decode = λ s. s }

abbrev sealed : EnvelopeCiphertext
sealed = record { ciphertext = 9 ∷ 8 ∷ 7 ∷ []; wrapped_data_key = 1 ∷ 2 ∷ []; key_id = codes "k1" }

packs : pack_envelope ascii sealed ≡ ok (2 ∷ b'k' ∷ b'1' ∷ 0 ∷ 2 ∷ 1 ∷ 2 ∷ 9 ∷ 8 ∷ 7 ∷ [])
unfolding pack_envelope
packs = refl

unpack_envelope-pack_envelope_example :
    unpack_envelope ascii (2 ∷ b'k' ∷ b'1' ∷ 0 ∷ 2 ∷ 1 ∷ 2 ∷ 9 ∷ 8 ∷ 7 ∷ []) ≡ ok sealed
unpack_envelope-pack_envelope_example =
    unpack_envelope-pack_envelope ascii sealed (2 ∷ b'k' ∷ b'1' ∷ 0 ∷ 2 ∷ 1 ∷ 2 ∷ 9 ∷ 8 ∷ 7 ∷ [])
      refl packs

is_valid : is_valid_raw (codes "10000000146") ≡ true
unfolding is_valid_raw
is_valid = refl

is_valid_raw_one_error_example : is_valid_raw (codes "10000000156") ≡ false
is_valid_raw_one_error_example =
    is_valid_raw_one_error (codes "10000000146") (codes "10000000156") refl is_valid
