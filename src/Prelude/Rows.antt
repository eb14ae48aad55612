-- ===== src/Prelude/Rows.antt =====
-- What updates of a table leave of the row that a key finds, and of the other rows.
use mathlib.Core.Path.{◌≡◌, refl, ap, ◌∙◌, sym}
use mathlib.Core.Logic.{inl, inr}
use mathlib.Core.Bool.{Bool, true, false}
use mathlib.Core.Option.{some}
use mathlib.Core.List.{List, [], ◌∷◌}
use native.Mathlib.Omega.{arith}
use Prim.Native.Nat.{◌<◌}
use vaultchain_fintech_dashb.Prelude.Tests.{Bool-cases, ◌==◌}
use vaultchain_fintech_dashb.Prelude.Tables.{
  find, filter, update_where, count_where, some-injective, count_where-fewer,
}

module _ {ℓ} {A : Type ℓ} where
  -- An update of some of the rows of a key, the found one among them.
  pub find-update_where :
      (k p : A → Bool) (f : A → A) (xs : List A) {x : A}
      → ((y : A) → k (f y) ≡ k y)
      → find k xs ≡ some x
      → p x ≡ true
      → find k (update_where p f xs) ≡ some (f x)
  find-update_where k p f [] same h hit = cc h
  find-update_where k p f (y ∷ ys) {x} same h hit = elim (Bool-cases (k y)) [
    | inl here ↦
        let is_x = some-injective y x (rw here at h) in
        let hit_y : p y ≡ true = rw is_x hit in rw (hit_y, same y, here) (ap (λ z. some (f z)) is_x)
    | inr miss ↦
        let rest = find-update_where k p f ys same (rw miss at h) hit in
        elim (Bool-cases (p y)) [ inl e ↦ rw (e, same y, miss) rest | inr e ↦ rw (e, miss) rest ]
  ]

  -- An update of rows of another key.
  pub find-update_where_other :
      (k p : A → Bool) (f : A → A) (xs : List A)
      → ((y : A) → k (f y) ≡ k y)
      → ((y : A) → p y ≡ true → k y ≡ false)
      → find k (update_where p f xs) ≡ find k xs
  find-update_where_other k p f [] same out = refl
  find-update_where_other k p f (y ∷ ys) same out =
      let rest = find-update_where_other k p f ys same out in
      elim (Bool-cases (p y)) [ inl e ↦ rw (e, same y, out y e) rest | inr e ↦ rw (e, rest) refl ]

  -- The rows that an update does not hit.
  pub filter-update_where :
      (k p : A → Bool) (f : A → A) (xs : List A)
      → ((y : A) → k (f y) ≡ k y)
      → ((y : A) → p y ≡ true → k y ≡ false)
      → filter k (update_where p f xs) ≡ filter k xs
  filter-update_where k p f [] same out = refl
  filter-update_where k p f (y ∷ ys) same out =
      let rest = filter-update_where k p f ys same out in
      elim (Bool-cases (p y)) [ inl e ↦ rw (e, same y, out y e) rest | inr e ↦ rw (e, rest) refl ]

  -- The found row is the one that a narrower query counts, where the key is unique.
  pub find-fits_narrower :
      (k p : A → Bool) (xs : List A) {x : A}
      → ((y : A) → p y ≡ true → k y ≡ true)
      → find k xs ≡ some x
      → count_where k xs < 2
      → (count_where p xs == 0) ≡ false
      → p x ≡ true
  find-fits_narrower k p [] out h few some_hit = cc h
  find-fits_narrower k p (y ∷ ys) {x} out h few some_hit = elim (Bool-cases (k y)) [
    | inl here ↦
        let is_x = some-injective y x (rw here at h) in
        elim (Bool-cases (p y)) [
          | inl e ↦ ap p (sym is_x) ∙ e
          | inr e ↦
              let fewer = count_where-fewer p k ys out in
              let small = rw here at few in
              let none_left = rw e at some_hit in ground (arith, fewer, small, none_left)
        ]
    | inr miss ↦ elim (Bool-cases (p y)) [
      | inl e ↦ cc (rw miss at (out y e))
      | inr e ↦ find-fits_narrower k p ys out (rw miss at h) (rw miss at few) (rw e at some_hit)
    ]
  ]
