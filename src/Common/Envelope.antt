-- ===== src/Common/Envelope.antt =====
-- Api/src/common/crypto/envelope-codec.ts: an encrypted value as one column. The UTF-8 coding of the
-- key's id is a parameter.
use vaultchain_fintech_dashb.Prelude.{
  ℕ, suc, ◌+◌, ◌*◌, ◌/◌, ◌%◌, false, List, [], ◌∷◌, ◌++◌, ◌≡◌, refl, arith, ltb, if◌then◌else◌,
  Bool-cases, inl, inr, length, ap, ◌∙◌, Result, ok, err, err-ne-ok, ok-injective, sym,
}
use vaultchain_fintech_dashb.Prelude.Text.{Text, take, drop}

pub record EnvelopeCiphertext : Type 0 where
  pub ciphertext : List ℕ
  pub wrapped_data_key : List ℕ
  pub key_id : Text

pub data CodecError : Type 0 where
  key_id_too_long : CodecError
  wrapped_data_key_too_long : CodecError
  empty_blob : CodecError
  truncated_header : CodecError
  truncated_wrapped_data_key : CodecError

-- `Buffer.from(text, 'utf8')` and `buffer.toString('utf8')`.
pub record Utf8 : Type 0 where
  pub encode : Text → List ℕ
  pub decode : List ℕ → Text

abbrev pub max_key_id_len : ℕ
max_key_id_len = 255

abbrev pub max_wdk_len : ℕ
max_wdk_len = 65535

-- The header and what follows it; a length of two bytes is written big-endian.
abbrev pub pack_bytes : List ℕ → List ℕ → List ℕ → List ℕ
pack_bytes key wdk ciphertext =
    length key ∷ (key ++ (length wdk / 256 ∷ length wdk % 256 ∷ (wdk ++ ciphertext)))

unfoldable pub pack_envelope : Utf8 → EnvelopeCiphertext → Result CodecError (List ℕ)
pack_envelope utf8 envelope =
    if ltb max_key_id_len (length (utf8.encode envelope.key_id))
    then err key_id_too_long
    else if ltb max_wdk_len (length envelope.wrapped_data_key)
    then err wrapped_data_key_too_long
    else ok (pack_bytes (utf8.encode envelope.key_id) envelope.wrapped_data_key envelope.ciphertext)

-- `readUInt16BE`, after the check that both bytes are there.
abbrev pub read_uint16 : List ℕ → ℕ
read_uint16 (hi ∷ lo ∷ rest) = hi * 256 + lo
read_uint16 _ = 0

-- The part after the key's id: the wrapped key and the ciphertext.
abbrev pub unpack_rest : Text → List ℕ → Result CodecError EnvelopeCiphertext
unpack_rest key_id rest =
    let len = read_uint16 rest in
    let body = drop 2 rest in
    if ltb (length body) len
    then err truncated_wrapped_data_key
    else ok
        (record { ciphertext = drop len body; wrapped_data_key = take len body; key_id = key_id })

unfoldable pub unpack_envelope : Utf8 → List ℕ → Result CodecError EnvelopeCiphertext
unpack_envelope utf8 [] = err empty_blob
unpack_envelope utf8 (key_len ∷ packed) =
    if ltb (suc (length packed)) (1 + key_len + 2)
    then err truncated_header
    else unpack_rest (utf8.decode (take key_len packed)) (drop key_len packed)

module _ {ℓ} {A : Type ℓ} where
  take-length : (xs ys : List A) → take (length xs) (xs ++ ys) ≡ xs
  take-length [] ys = refl
  take-length (x ∷ xs) ys = ap (λ zs. x ∷ zs) (take-length xs ys)

  drop-length : (xs ys : List A) → drop (length xs) (xs ++ ys) ≡ ys
  drop-length [] ys = refl
  drop-length (x ∷ xs) ys = drop-length xs ys

  length-append : (xs ys : List A) → length (xs ++ ys) ≡ length xs + length ys
  length-append [] ys = omega arith
  length-append (x ∷ xs) ys = ground (arith, length-append xs ys)

unpack_bytes :
    (utf8 : Utf8) (key wdk ciphertext : List ℕ)
    → unpack_envelope utf8 (pack_bytes key wdk ciphertext)
      ≡ ok (record { ciphertext = ciphertext; wrapped_data_key = wdk; key_id = utf8.decode key })
unfolding unpack_envelope
unpack_bytes utf8 key wdk ciphertext =
    let tail = length wdk / 256 ∷ length wdk % 256 ∷ (wdk ++ ciphertext) in
    let whole : ltb (suc (length (key ++ tail))) (1 + length key + 2) ≡ false =
      ground (arith, length-append key tail) in
    let size : length wdk / 256 * 256 + length wdk % 256 ≡ length wdk = omega arith in
    let full : ltb (length (wdk ++ ciphertext)) (length wdk) ≡ false =
      ground (arith, length-append wdk ciphertext) in
    rw
      (
        whole,
        take-length key tail,
        drop-length key tail,
        size,
        full,
        take-length wdk ciphertext,
        drop-length wdk ciphertext,
      )
      refl

-- What is packed unpacks to the same envelope, whatever the key and the ciphertext are, where the
-- decoding of the key's id undoes its encoding.
pub unpack_envelope-pack_envelope :
    (utf8 : Utf8) (envelope : EnvelopeCiphertext) (packed : List ℕ)
    → utf8.decode (utf8.encode envelope.key_id) ≡ envelope.key_id
    → pack_envelope utf8 envelope ≡ ok packed
    → unpack_envelope utf8 packed ≡ ok envelope
unfolding pack_envelope
unpack_envelope-pack_envelope utf8 envelope packed back h =
    elim (Bool-cases (ltb max_key_id_len (length (utf8.encode envelope.key_id)))) [
      | inl long ↦ absurd (err-ne-ok (rw long at h))
      | inr short ↦ elim (Bool-cases (ltb max_wdk_len (length envelope.wrapped_data_key))) [
        | inl long ↦ absurd (err-ne-ok (rw (short, long) at h))
        | inr fits ↦
            let made = ok-injective (rw (short, fits) at h) in
            ap (λ bytes. unpack_envelope utf8 bytes) (sym made)
            ∙ (unpack_bytes utf8 (utf8.encode envelope.key_id) envelope.wrapped_data_key
                  envelope.ciphertext
                ∙ ap (λ k. ok (record envelope { key_id = k })) back)
      ]
    ]
