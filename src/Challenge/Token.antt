-- ===== src/Challenge/Token.antt =====
-- `<prefix><uuid>.<secret>`: the opaque tokens that mfa-challenge.service.ts,
-- password-reset-challenge.service.ts and auth.service.ts print and parse, and `isUuid` of
-- Api/src/common/util/uuid.ts.
use vaultchain_fintech_dashb.Prelude.{
  ℕ, zero, suc, Bool, true, false, not, ◌&&◌, ◌||◌, Option, none, some, List, [], ◌∷◌, ◌++◌, ◌≡◌,
  refl, ap, all, arith, if◌then◌else◌, leb, length, ◌==◌, ==_refl, ap, Bool-cases, inl, inr, ==_iff,
  &&_right,
}
use vaultchain_fintech_dashb.Prelude.Text.{
  Text, codes, take, drop, starts_with, index_of, is_digit, to_lower,
}

-- A character class of a regular expression that ignores case.
abbrev pub CharClass : Type 0
CharClass = ℕ → Bool

-- `[0-9a-f]`, `-` and `[89ab]`.
abbrev pub hex : CharClass
hex c = is_digit c || (leb b'a' (to_lower c) && leb (to_lower c) b'f')

abbrev pub dash : CharClass
dash c = c == b'-'

abbrev pub variant : CharClass
variant c = c == b'8' || (c == b'9' || (to_lower c == b'a' || to_lower c == b'b'))

-- A text that has one character of each class, in order.
abbrev pub matches : List CharClass → Text → Bool
matches [] [] = true
matches [] (c ∷ s) = false
matches (p ∷ ps) [] = false
matches (p ∷ ps) (c ∷ s) = p c && matches ps s

abbrev hex4 : List CharClass → List CharClass
hex4 rest = hex ∷ hex ∷ hex ∷ hex ∷ rest

abbrev hex12 : List CharClass
hex12 = hex4 (hex4 (hex4 []))

-- `UUID_RE` of common/util/uuid.ts, and the laxer one of auth.service.ts.
abbrev pub uuid_rest : List CharClass
uuid_rest =
    hex
    ∷ hex
    ∷ hex
    ∷ hex4 (dash ∷ hex4 (dash ∷ hex4 (dash ∷ variant ∷ hex ∷ hex ∷ hex ∷ dash ∷ hex12)))

abbrev pub uuid_re : List CharClass
uuid_re = hex ∷ uuid_rest

abbrev pub auth_uuid_re : List CharClass
auth_uuid_re = hex4 (hex4 (dash ∷ hex4 (dash ∷ hex4 (dash ∷ hex4 (dash ∷ hex12)))))

abbrev pub is_uuid : Text → Bool
is_uuid value = matches uuid_re value

abbrev pub is_blank : Text → Bool
is_blank [] = true
is_blank (c ∷ s) = false

-- The parts before and after the first dot, where the first is not empty.
abbrev pub split_at : (Text → Bool) → Text → Option ℕ → Option (Text × Text)
split_at valid rest none = none
split_at valid rest (some zero) = none
split_at valid rest (some (suc i)) =
    let id = take (suc i) rest in
    let secret = drop (suc (suc i)) rest in
    if not (valid id) || is_blank secret then none else some (id, secret)

-- The parser that the three services share in all but the prefix and the test of the id.
unfoldable pub parse_opaque : (Text → Bool) → Text → Text → Option (Text × Text)
parse_opaque valid prefix token =
    let rest = drop (length prefix) token in
    if starts_with prefix token then split_at valid rest (index_of b'.' rest) else none

abbrev pub mfa_prefix : Text
mfa_prefix = codes "mfa_"

abbrev pub reset_prefix : Text
reset_prefix = codes "pwr_"

abbrev pub refresh_prefix : Text
refresh_prefix = codes "rt_"

abbrev pub parse_mfa_token : Text → Option (Text × Text)
parse_mfa_token token = parse_opaque is_uuid mfa_prefix token

abbrev pub parse_reset_token : Text → Option (Text × Text)
parse_reset_token token = parse_opaque is_uuid reset_prefix token

abbrev pub parse_refresh_token : Text → Option (Text × Text)
parse_refresh_token token = parse_opaque (matches auth_uuid_re) refresh_prefix token

-- `${prefix}${id}.${secret}`.
abbrev pub print_token : Text → Text → Text → Text
print_token prefix id secret = prefix ++ (id ++ (b'.' ∷ secret))

starts_with-append : (p s : Text) → starts_with p (p ++ s) ≡ true
starts_with-append [] s = refl
starts_with-append (c ∷ p) s = ground (arith, starts_with-append p s, ==_refl c)

drop-append : (p s : Text) → drop (length p) (p ++ s) ≡ s
drop-append [] s = refl
drop-append (c ∷ p) s = drop-append p s

drop-append_suc : (p : Text) (c : ℕ) (s : Text) → drop (suc (length p)) (p ++ (c ∷ s)) ≡ s
drop-append_suc [] c s = refl
drop-append_suc (d ∷ p) c s = drop-append_suc p c s

take-append : (p s : Text) → take (length p) (p ++ s) ≡ p
take-append [] s = refl
take-append (c ∷ p) s = ap (λ r. c ∷ r) (take-append p s)

-- A class that the dot is not in.
abbrev excludes : ℕ → CharClass → Bool
excludes d p = not (p d)

matches-index_of :
    (d : ℕ) (ps : List CharClass) (id s : Text)
    → all (excludes d) ps ≡ true
    → matches ps id ≡ true
    → index_of d (id ++ (d ∷ s)) ≡ some (length id)
matches-index_of d ps [] s clear m = ground (arith, ==_refl d)
matches-index_of d [] (c ∷ id) s clear m = cc
matches-index_of d (p ∷ ps) (c ∷ id) s clear m = elim (Bool-cases (d == c)) [
  | inl e ↦ elim (Bool-cases (p d)) [
    | inl inside ↦ cc (rw inside at clear)
    | inr outside ↦ cc (rw (← (==_iff d c).0 e, outside) at m)
  ]
  | inr e ↦ rw e (
      rw
        (matches-index_of d ps id s (&&_right (not (p d)) (all (excludes d) ps) clear)
          (&&_right (p c) (matches ps id) m))
        refl)
]

-- A token that is printed from an id of the expected form and a secret that is not empty is parsed
-- back to them, for each of the services: whatever the secret holds, the first dot ends the id.
pub parse_opaque-print_token :
    (c : CharClass) (ps : List CharClass) (prefix id secret : Text)
    → all (excludes b'.') (c ∷ ps) ≡ true
    → matches (c ∷ ps) id ≡ true
    → is_blank secret ≡ false
    → parse_opaque (matches (c ∷ ps)) prefix (print_token prefix id secret) ≡ some (id, secret)
unfolding parse_opaque
parse_opaque-print_token c ps prefix [] secret clear m full = cc
parse_opaque-print_token c ps prefix (d ∷ id) secret clear m full =
    rw
      (
        starts_with-append prefix (d ∷ (id ++ (b'.' ∷ secret))),
        drop-append prefix (d ∷ (id ++ (b'.' ∷ secret))),
        matches-index_of b'.' (c ∷ ps) (d ∷ id) secret clear m,
        take-append id (b'.' ∷ secret),
        drop-append_suc id b'.' secret,
        m,
        full,
      )
      refl
