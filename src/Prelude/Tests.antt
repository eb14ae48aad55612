-- ===== src/Prelude/Tests.antt =====
-- Boolean tests on the native numbers, the conditional, and splits on computed values.
use Prim.Native.Nat.{ℕ, compare, Ordering, ◌<◌}
use mathlib.Core.Path.{◌≡◌, refl}
use mathlib.Core.Logic.{◌↔◌, ◌⊎◌, inl, inr}
use mathlib.Core.Bool.{Bool, true, false, ◌&&◌, ◌||◌}
use mathlib.Core.Option.{Option, none, some}
use native.Mathlib.Omega.{arith}

abbrev pub ltb : ℕ → ℕ → Bool
ltb a b = elim (compare a b) [ Ordering.lt ↦ true | _ ↦ false ]

abbrev pub leb : ℕ → ℕ → Bool
leb a b = elim (compare a b) [ Ordering.gt ↦ false | _ ↦ true ]

infix 50 ◌==◌
abbrev pub ◌==◌ : ℕ → ℕ → Bool
a == b = elim (compare a b) [ Ordering.eq ↦ true | _ ↦ false ]

infix 1 if◌then◌else◌
abbrev pub if◌then◌else◌ {ℓ} : {A : Type ℓ} → Bool → A → A → A
if true then x else y = x
if false then x else y = y

-- The equality of optional ids, as SQL's `IS NOT DISTINCT FROM` and JavaScript's `===` have it.
infix 50 ◌==?◌
abbrev pub ◌==?◌ : Option ℕ → Option ℕ → Bool
none ==? none = true
none ==? some _ = false
some _ ==? none = false
some a ==? some b = a == b

abbrev pub is_some {ℓ} : {A : Type ℓ} → Option A → Bool
is_some none = false
is_some (some _) = true

abbrev pub is_none {ℓ} : {A : Type ℓ} → Option A → Bool
is_none none = true
is_none (some _) = false

abbrev pub or_else {ℓ} : {A : Type ℓ} → Option A → A → A
or_else none d = d
or_else (some a) d = a

pub ==_iff : (a b : ℕ) → ((a == b) ≡ true) ↔ (a ≡ b)
==_iff a b = ground arith

pub ==_refl : (a : ℕ) → (a == a) ≡ true
==_refl a = ground arith

pub Bool-cases : (b : Bool) → (b ≡ true) ⊎ (b ≡ false)
Bool-cases true = inl refl
Bool-cases false = inr refl

pub Option-cases {ℓ} : {A : Type ℓ} (o : Option A) → (o ≡ none) ⊎ ((a : A) × (o ≡ some a))
Option-cases none = inl refl
Option-cases (some a) = inr (a, refl)

pub &&_left : (a b : Bool) → a && b ≡ true → a ≡ true
&&_left a b h = ground arith

pub &&_right : (a b : Bool) → a && b ≡ true → b ≡ true
&&_right a b h = ground arith

pub ||_left : (a b : Bool) → a || b ≡ false → a ≡ false
||_left a b h = ground arith

pub ||_right : (a b : Bool) → a || b ≡ false → b ≡ false
||_right a b h = ground arith

pub leb_of_lt : (a b : ℕ) → b < a → leb a b ≡ false
leb_of_lt a b h = ground arith

pub both : (a b : Bool) → a && b ≡ true → (a ≡ true) × (b ≡ true)
both a b h = (&&_left a b h, &&_right a b h)
