-- ===== src/Prelude/Text.antt =====
-- Text as the list of its character codes, with the string operations of the source.
use Prim.Native.Nat.{ℕ, zero, suc, ◌+◌, ◌-◌, ◌*◌, ◌/◌, ◌%◌, ◌<◌}
use Prim.Native.Char.{code}
use Prim.Native.String.{String}
use mathlib.Core.Path.{◌≡◌, refl}
use mathlib.Core.Bool.{Bool, true, false, ◌&&◌, ◌||◌}
use mathlib.Core.Option.{Option, none, some}
use mathlib.Core.List.{List, [], ◌∷◌}
use native.Mathlib.Omega.{arith}
use vaultchain_fintech_dashb.Prelude.Tests.{ltb, leb, ◌==◌, if◌then◌else◌, ==_refl}
use vaultchain_fintech_dashb.Prelude.Tables.{length}

abbrev pub Text : Type 0
Text = List ℕ

abbrev pub codes : String → Text
codes String.[] = []
codes (String.◌∷◌ c s) = code c ∷ codes s

abbrev pub text_eq : Text → Text → Bool
text_eq [] [] = true
text_eq (c ∷ s) (d ∷ t) = c == d && text_eq s t
text_eq _ _ = false

abbrev pub take {ℓ} : {A : Type ℓ} → ℕ → List A → List A
take zero xs = []
take (suc n) [] = []
take (suc n) (x ∷ xs) = x ∷ take n xs

abbrev pub drop {ℓ} : {A : Type ℓ} → ℕ → List A → List A
drop zero xs = xs
drop (suc n) [] = []
drop (suc n) (x ∷ xs) = drop n xs

-- `s.slice(-n)` for a positive n.
abbrev pub take_last : ℕ → Text → Text
take_last n s = drop (length s - n) s

-- `text.startsWith(prefix)`.
abbrev pub starts_with : Text → Text → Bool
starts_with [] s = true
starts_with (c ∷ p) [] = false
starts_with (c ∷ p) (d ∷ s) = c == d && starts_with p s

pub text_eq_iff : (s t : Text) → text_eq s t ≡ true → s ≡ t
text_eq_iff [] [] h = refl
text_eq_iff [] (d ∷ t) h = cc
text_eq_iff (c ∷ s) [] h = cc
text_eq_iff (c ∷ s) (d ∷ t) h = ground (arith, text_eq_iff s t)

pub text_eq_refl : (s : Text) → text_eq s s ≡ true
text_eq_refl [] = refl
text_eq_refl (c ∷ s) = ground (arith, ==_refl c, text_eq_refl s)

-- `text.includes(part)`.
abbrev pub includes : Text → Text → Bool
includes part [] = starts_with part []
includes part (c ∷ s) = starts_with part (c ∷ s) || includes part s

-- `text.indexOf(c)`, with `none` for -1.
abbrev next_index : Option ℕ → Option ℕ
next_index none = none
next_index (some i) = some (suc i)

abbrev pub index_of : ℕ → Text → Option ℕ
index_of c [] = none
index_of c (d ∷ s) = if c == d then some 0 else next_index (index_of c s)

abbrev pub is_digit : ℕ → Bool
is_digit c = leb b'0' c && leb c b'9'

abbrev pub is_upper : ℕ → Bool
is_upper c = leb b'A' c && leb c b'Z'

abbrev pub is_lower : ℕ → Bool
is_lower c = leb b'a' c && leb c b'z'

-- `text.toLowerCase()`, on ASCII.
abbrev pub to_lower : ℕ → ℕ
to_lower c = if is_upper c then c + 32 else c

-- `String(n)` for a number or a BigInt that is not negative: the digits before `acc`.
decimal_before : ℕ → ℕ → Text → Text
decimal_before zero n acc = acc
decimal_before (suc fuel) n acc =
    let rest = decimal_before fuel (n / 10) ((b'0' + n % 10) ∷ acc) in
    if ltb n 10 then (b'0' + n) ∷ acc else rest

unfoldable pub decimal : ℕ → Text
unfolding decimal_before
decimal n = decimal_before (suc n) n []

-- The number that a run of decimal digits stands for, read after `acc`.
abbrev pub parse_after : ℕ → Text → ℕ
parse_after acc [] = acc
parse_after acc (c ∷ s) = parse_after (acc * 10 + (c - b'0')) s

pub parse_decimal : Text → ℕ
parse_decimal s = parse_after 0 s

parse_after-decimal_before :
    (fuel n : ℕ) (acc : Text)
    → n < fuel
    → parse_after 0 (decimal_before fuel n acc) ≡ parse_after n acc
unfolding decimal_before
parse_after-decimal_before zero n acc h = elim h [ ]
parse_after-decimal_before (suc fuel) n acc h =
    ground (arith, parse_after-decimal_before fuel (n / 10) ((b'0' + n % 10) ∷ acc))

-- Printing loses nothing.
pub parse_decimal-decimal : (n : ℕ) → parse_decimal (decimal n) ≡ n
unfolding parse_decimal decimal
parse_decimal-decimal n = parse_after-decimal_before (suc n) n [] (omega arith)

-- `text.padStart(width, '0')`.
pad_zeros : ℕ → Text → Text
pad_zeros zero s = s
pad_zeros (suc n) s = b'0' ∷ pad_zeros n s

unfoldable pub pad_start : ℕ → Text → Text
unfolding pad_zeros
pad_start width s = pad_zeros (width - length s) s
