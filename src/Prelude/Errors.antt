-- ===== src/Prelude/Errors.antt =====
-- A handler as a function on the state of the store that either returns or throws. What it wrote
-- before it threw stays written, except inside `transaction`.
use mathlib.Core.Path.{◌≡◌, refl, ap}
use mathlib.Core.Bool.{Bool, true, false}
use mathlib.Core.Option.{Option, none, some}
use mathlib.Core.Logic.{◌⊎◌, inl, inr}
use vaultchain_fintech_dashb.Prelude.Tests.{if◌then◌else◌}

pub data Result (E A : Type 0) : Type 0 where
  ok : A → Result E A
  err : E → Result E A

abbrev pub Action : Type 0 → Type 0 → Type 0 → Type 0
Action E S A = S → Result E A × S

abbrev pub is_ok : {E A : Type 0} → Result E A → Bool
is_ok (ok a) = true
is_ok (err e) = false

-- What follows an outcome: the rest of a chain, a rollback, a handler.
abbrev pub after : {E S A B : Type 0} → Result E A × S → (A → Action E S B) → Result E B × S
after (ok a, s) f = f a s
after (err e, s) f = (err e, s)

abbrev pub rolled_back : {E S A : Type 0} → (S → S → S) → S → Result E A × S → Result E A × S
rolled_back undo s (ok a, t) = (ok a, t)
rolled_back undo s (err e, t) = (err e, undo s t)

abbrev pub handled : {E S A : Type 0} → Result E A × S → (E → Action E S A) → Result E A × S
handled (ok a, s) h = (ok a, s)
handled (err e, s) h = h e s

infixl 5 ◌>>=◌ ◌>>◌
abbrev pub ◌>>=◌ : {E S A B : Type 0} → Action E S A → (A → Action E S B) → Action E S B
◌>>=◌ m f s = after (m s) f

abbrev pub ◌>>◌ : {E S A B : Type 0} → Action E S A → Action E S B → Action E S B
m >> k = m >>= λ _. k

module _ {E S : Type 0} where
  abbrev pub pure : {A : Type 0} → A → Action E S A
  pure a s = (ok a, s)

  abbrev pub raise : {A : Type 0} → E → Action E S A
  raise e s = (err e, s)

  abbrev pub gets : {A : Type 0} → (S → A) → Action E S A
  gets f s = (ok (f s), s)

  abbrev pub modify : (S → S) → Action E S (Unit {0})
  modify f s = (ok tt, f s)

  abbrev pub raise_if : Bool → E → Action E S (Unit {0})
  raise_if b e s = (if b then err e else ok tt, s)

  abbrev pub or_raise : {A : Type 0} → Option A → E → Action E S A
  or_raise none e s = (err e, s)
  or_raise (some a) e s = (ok a, s)

  -- A value or an exception that was computed with no access to the store.
  abbrev pub lift : {A : Type 0} → Result E A → Action E S A
  lift r s = (r, s)

  -- An interactive transaction: if its body throws, what it wrote is rolled back by `undo`, which
  -- is given the state before and the state at the throw.
  abbrev pub transaction : {A : Type 0} → (S → S → S) → Action E S A → Action E S A
  transaction undo m s = rolled_back undo s (m s)

  -- `try { m } catch (e) { h e }`.
  abbrev pub catch_error : {A : Type 0} → Action E S A → (E → Action E S A) → Action E S A
  catch_error m h s = handled (m s) h

pub Result-cases :
    {E A : Type 0} (r : Result E A) → ((a : A) × (r ≡ ok a)) ⊎ ((e : E) × (r ≡ err e))
Result-cases (ok a) = inl (a, refl)
Result-cases (err e) = inr (e, refl)

-- What a chain returned, its first step had returned.
pub after-eq-ok :
    {E S A B : Type 0} (r : Result E A × S) (f : A → Action E S B) {b : B} {t : S}
    → after r f ≡ (ok b, t)
    → (a : A) × (u : S) × (r ≡ (ok a, u)) × (f a u ≡ (ok b, t))
after-eq-ok (ok a, u) f h = (a, u, refl, h)
after-eq-ok (err e, u) f h = cc

pub rolled_back-eq-ok :
    {E S A : Type 0} (undo : S → S → S) (s : S) (r : Result E A × S) {a : A} {t : S}
    → rolled_back undo s r ≡ (ok a, t)
    → r ≡ (ok a, t)
rolled_back-eq-ok undo s (ok b, u) h = h
rolled_back-eq-ok undo s (err e, u) h = cc

-- A handler that does not return leaves the outcomes that return as they are.
pub handled-eq-ok :
    {E S A : Type 0} (r : Result E A × S) (h : E → Action E S A) {a : A} {t : S}
    → ((e : E) (s : S) → (h e s).0 ≡ ok a → ⊥)
    → handled r h ≡ (ok a, t)
    → r ≡ (ok a, t)
handled-eq-ok (ok b, u) h never e = e
handled-eq-ok (err x, u) h never e = absurd (never x u (ap (λ p. p.0) e))

pub err-ne-ok : {E A : Type 0} {e : E} {a : A} → ◌≡◌ {A = Result E A} (err e) (ok a) → ⊥
err-ne-ok h = cc h

pub ok-injective : {E A : Type 0} {a b : A} → ◌≡◌ {A = Result E A} (ok a) (ok b) → a ≡ b
ok-injective h = cc h

pub or_raise-state : {E S A : Type 0} (o : Option A) (e : E) (s : S) → (or_raise o e s).1 ≡ s
or_raise-state none e s = refl
or_raise-state (some a) e s = refl

-- What every step of a chain keeps of the state, the chain keeps.
pub after-keeps :
    {E S A B X : Type 0} (g : S → X) (x : X) (r : Result E A × S) (f : A → Action E S B)
    → g r.1 ≡ x
    → ((a : A) (u : S) → g u ≡ x → g (f a u).1 ≡ x)
    → g (after r f).1 ≡ x
after-keeps g x (ok a, u) f h k = k a u h
after-keeps g x (err e, u) f h k = h
