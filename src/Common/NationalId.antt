-- ===== src/Common/NationalId.antt =====
-- Api/src/common/validation/is-turkish-national-id.ts: the checksum of a national id.
use vaultchain_fintech_dashb.Prelude.{
  ℕ, zero, suc, ◌+◌, ◌-◌, ◌*◌, ◌%◌, Bool, true, false, not, ◌&&◌, List, [], ◌∷◌, ◌≡◌, refl, arith,
  leb, if◌then◌else◌, Bool-cases, inl, inr, length, ap, all, map, ◌==◌, &&_left, &&_right, ==_iff,
  both,
}
use vaultchain_fintech_dashb.Prelude.Text.{Text, is_digit, take}
use vaultchain_fintech_dashb.Mask.{trim}

abbrev pub digit_of : ℕ → ℕ
digit_of c = c - b'0'

-- `((a - b) % 10 + 10) % 10`, where the remainder of JavaScript has the sign of `a - b`.
abbrev pub modulo_10 : ℕ → ℕ → ℕ
modulo_10 a b = if leb b a then ((a - b) % 10 + 10) % 10 else (10 - (b - a) % 10) % 10

-- `d[i]`; the text has eleven digits where it is read.
abbrev pub digit_at : ℕ → List ℕ → ℕ
digit_at n [] = 0
digit_at zero (x ∷ xs) = x
digit_at (suc n) (x ∷ xs) = digit_at n xs

abbrev pub sum : List ℕ → ℕ
sum [] = 0
sum (x ∷ xs) = x + sum xs

abbrev pub odd_sum : List ℕ → ℕ
odd_sum d = digit_at 0 d + digit_at 2 d + digit_at 4 d + digit_at 6 d + digit_at 8 d

abbrev pub even_sum : List ℕ → ℕ
even_sum d = digit_at 1 d + digit_at 3 d + digit_at 5 d + digit_at 7 d

abbrev pub check_digits : List ℕ → Bool
check_digits d =
    modulo_10 (odd_sum d * 7) (even_sum d) == digit_at 9 d && sum (take 10 d) % 10 == digit_at 10 d

abbrev pub starts_with_zero : Text → Bool
starts_with_zero [] = false
starts_with_zero (c ∷ s) = c == b'0'

unfoldable pub is_valid_raw : Text → Bool
is_valid_raw raw =
    length raw == 11
    && (all is_digit raw && (not (starts_with_zero raw) && check_digits (map digit_of raw)))

unfoldable pub is_turkish_national_id : Text → Bool
is_turkish_national_id value = is_valid_raw (trim value)

-- The number of places where two texts of one length differ.
abbrev pub differences : List ℕ → List ℕ → ℕ
differences [] ys = 0
differences (x ∷ xs) [] = 0
differences (x ∷ xs) (y ∷ ys) = let rest = differences xs ys in if x == y then rest else suc rest

no_difference : (xs ys : List ℕ) → length xs ≡ length ys → differences xs ys ≡ 0 → xs ≡ ys
no_difference [] [] e h = refl
no_difference [] (y ∷ ys) e h = absurd (let bad : ⊥ = omega arith in bad)
no_difference (x ∷ xs) [] e h = absurd (let bad : ⊥ = omega arith in bad)
no_difference (x ∷ xs) (y ∷ ys) e h = elim (Bool-cases (x == y)) [
  | inl same ↦
      let heads = (==_iff x y).0 same in
      let tails = no_difference xs ys (omega arith) (rw same at h) in
      rw heads (ap (λ zs. y ∷ zs) tails)
  | inr other ↦ absurd (let bad : ⊥ = ground (arith, other) in bad)
]

differences_empty : (xs ys : List ℕ) → length xs ≡ 0 → differences xs ys ≡ 0
differences_empty [] ys h = refl
differences_empty (x ∷ xs) ys h = absurd (let bad : ⊥ = omega arith in bad)

add_assoc : (a b c k : ℕ) → (a + (b + c)) % 10 ≡ k → (a + b + c) % 10 ≡ k
add_assoc a b c k h = omega arith

changed_head :
    (before x y rest k : ℕ)
    → is_digit x ≡ true
    → is_digit y ≡ true
    → (x == y) ≡ false
    → (before + (digit_of x + rest)) % 10 ≡ k
    → (before + (digit_of y + rest)) % 10 ≡ k
    → ⊥
changed_head before x y rest k hx hy other cx cy = ground arith

-- The checksum of two texts that differ in one digit cannot hold for both.
one_error :
    (n before : ℕ) (xs ys : Text)
    → length xs ≡ suc n
    → length ys ≡ suc n
    → all is_digit xs ≡ true
    → all is_digit ys ≡ true
    → differences xs ys ≡ 1
    → (before + sum (take n (map digit_of xs))) % 10 ≡ digit_at n (map digit_of xs)
    → (before + sum (take n (map digit_of ys))) % 10 ≡ digit_at n (map digit_of ys)
    → ⊥
one_error n before [] ys lx ly dx dy one cx cy = omega arith
one_error n before (x ∷ xs) [] lx ly dx dy one cx cy = omega arith
one_error zero before (x ∷ xs) (y ∷ ys) lx ly dx dy one cx cy =
    let rest = differences_empty xs ys (omega arith) in
    let x_digit = &&_left (is_digit x) (all is_digit xs) dx in
    let y_digit = &&_left (is_digit y) (all is_digit ys) dy in ground arith
one_error (suc n) before (x ∷ xs) (y ∷ ys) lx ly dx dy one cx cy = elim (Bool-cases (x == y)) [
  | inl same ↦
      let equal = (==_iff x y).0 same in
      one_error n (before + digit_of x) xs ys (omega arith) (omega arith)
        (&&_right (is_digit x) (all is_digit xs) dx) (&&_right (is_digit y) (all is_digit ys) dy)
        (rw same at one) (add_assoc before (digit_of x) (sum (take n (map digit_of xs))) _ cx)
        (rw equal (add_assoc before (digit_of y) (sum (take n (map digit_of ys))) _ cy))
  | inr other ↦
      let rest : differences xs ys ≡ 0 = ground (arith, other) in
      let tails = no_difference xs ys (omega arith) rest in
      let x_digit = &&_left (is_digit x) (all is_digit xs) dx in
      let y_digit = &&_left (is_digit y) (all is_digit ys) dy in
      changed_head before x y (sum (take n (map digit_of ys))) (digit_at n (map digit_of ys))
        x_digit y_digit other (rw tails at cx) cy
]

valid_parts :
    (raw : Text)
    → is_valid_raw raw ≡ true
    → (length raw ≡ 11)
      × (all is_digit raw ≡ true)
      × ((0 + sum (take 10 (map digit_of raw))) % 10 ≡ digit_at 10 (map digit_of raw))
unfolding is_valid_raw
valid_parts raw h =
    let (long, more) = both (length raw == 11) _ h in
    let (digits, checked) = both (all is_digit raw) _ more in
    let (start, sums) = both (not (starts_with_zero raw)) _ checked in
    let (tenth, last) =
      both
        (modulo_10 (odd_sum (map digit_of raw) * 7) (even_sum (map digit_of raw))
          == digit_at 9 (map digit_of raw))
        _ sums in
    let total =
      (==_iff (sum (take 10 (map digit_of raw)) % 10) (digit_at 10 (map digit_of raw))).0 last in
    ((==_iff (length raw) 11).0 long, digits, omega arith)

-- A number that is valid is not valid with one of its digits mistaken.
pub is_valid_raw_one_error :
    (raw other : Text)
    → differences raw other ≡ 1
    → is_valid_raw raw ≡ true
    → is_valid_raw other ≡ false
unfolding is_valid_raw
is_valid_raw_one_error raw other one valid = elim (Bool-cases (is_valid_raw other)) [
  | inr invalid ↦ invalid
  | inl both_valid ↦
      let (lx, dx, cx) = valid_parts raw valid in
      let (ly, dy, cy) = valid_parts other both_valid in
      absurd (one_error 10 0 raw other lx ly dx dy one cx cy)
]
