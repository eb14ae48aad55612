-- ===== src/Prelude/Tables.antt =====
-- A database table as the list of its rows, and the reads and writes that a query makes of it.
use Prim.Native.Nat.{ℕ, suc, ◌+◌, ◌<◌, ◌≤◌}
use mathlib.Core.Path.{◌≡◌, refl}
use mathlib.Core.Bool.{Bool, true, false, ◌&&◌, ◌||◌, not}
use mathlib.Core.Logic.{inl, inr}
use mathlib.Core.Option.{Option, none, some}
use mathlib.Core.List.{List, [], ◌∷◌, ◌++◌}
use native.Mathlib.Omega.{arith}
use vaultchain_fintech_dashb.Prelude.Tests.{if◌then◌else◌, Bool-cases, ◌==◌, &&_left, &&_right}

module _ {ℓ} {A : Type ℓ} where
  abbrev pub length : List A → ℕ
  length [] = 0
  length (x ∷ xs) = suc (length xs)

  -- `findUnique` and `findFirst`: the first row that fits.
  abbrev pub find : (A → Bool) → List A → Option A
  find p [] = none
  find p (x ∷ xs) = if p x then some x else find p xs

  -- `findMany`: every row that fits, in order.
  abbrev pub filter : (A → Bool) → List A → List A
  filter p [] = []
  filter p (x ∷ xs) = let rest = filter p xs in if p x then x ∷ rest else rest

  abbrev pub any : (A → Bool) → List A → Bool
  any p [] = false
  any p (x ∷ xs) = p x || any p xs

  abbrev pub all : (A → Bool) → List A → Bool
  all p [] = true
  all p (x ∷ xs) = p x && all p xs

  -- `count`, and the count that `updateMany` returns.
  abbrev pub count_where : (A → Bool) → List A → ℕ
  count_where p [] = 0
  count_where p (x ∷ xs) = let rest = count_where p xs in if p x then suc rest else rest

  -- `update` and `updateMany`.
  abbrev pub update_where : (A → Bool) → (A → A) → List A → List A
  update_where p f [] = []
  update_where p f (x ∷ xs) = (if p x then f x else x) ∷ update_where p f xs

  -- `delete` and `deleteMany`.
  abbrev pub remove_where : (A → Bool) → List A → List A
  remove_where p [] = []
  remove_where p (x ∷ xs) = let rest = remove_where p xs in if p x then rest else x ∷ rest

  -- A row that is found fits the query.
  pub find_fits : (p : A → Bool) (xs : List A) {x : A} → find p xs ≡ some x → p x ≡ true
  find_fits p [] h = cc
  find_fits p (y ∷ ys) {x} h = elim (Bool-cases (p y)) [
    | inl e ↦ ground (arith, e)
    | inr e ↦ find_fits p ys (rw e at h)
  ]

  pub filter-append :
      (p : A → Bool) (xs ys : List A) → filter p (xs ++ ys) ≡ filter p xs ++ filter p ys
  filter-append p [] ys = refl
  filter-append p (x ∷ xs) ys = ground (arith, filter-append p xs ys)

  pub count_where-append :
      (p : A → Bool) (xs ys : List A)
      → count_where p (xs ++ ys) ≡ count_where p xs + count_where p ys
  count_where-append p [] ys = omega arith
  count_where-append p (x ∷ xs) ys = ground (arith, count_where-append p xs ys)

  -- What every row has, a row that is found has.
  pub find-all :
      (q p : A → Bool) (xs : List A) {x : A} → all q xs ≡ true → find p xs ≡ some x → q x ≡ true
  find-all q p [] h e = cc
  find-all q p (y ∷ ys) {x} h e = elim (Bool-cases (p y)) [
    | inl here ↦ ground (arith, here)
    | inr there ↦ elim (Bool-cases (q y)) [
      | inl keep ↦ find-all q p ys (rw keep at h) (rw there at e)
      | inr drop ↦ cc (rw drop at h)
    ]
  ]

  -- Rows that keep what they have are kept by an update.
  pub all-update_where :
      (q p : A → Bool) (f : A → A) (xs : List A)
      → ((x : A) → q x ≡ true → p x ≡ true → q (f x) ≡ true)
      → all q xs ≡ true
      → all q (update_where p f xs) ≡ true
  all-update_where q p f [] keep h = refl
  all-update_where q p f (x ∷ xs) keep h = elim (Bool-cases (q x)) [
    | inl e ↦ elim (Bool-cases (p x)) [
      | inl hit ↦ rw (hit, keep x e hit) (all-update_where q p f xs keep (rw e at h))
      | inr miss ↦ rw (miss, e) (all-update_where q p f xs keep (rw e at h))
    ]
    | inr e ↦ cc (rw e at h)
  ]

  -- Rows that have `q` have `r` after an update that brings it about.
  pub all-update_where_to :
      (q r p : A → Bool) (f : A → A) (xs : List A)
      → ((x : A) → q x ≡ true → r (if p x then f x else x) ≡ true)
      → all q xs ≡ true
      → all r (update_where p f xs) ≡ true
  all-update_where_to q r p f [] to h = refl
  all-update_where_to q r p f (x ∷ xs) to h = elim (Bool-cases (q x)) [
    | inl e ↦ rw (to x e) (all-update_where_to q r p f xs to (rw e at h))
    | inr e ↦ cc (rw e at h)
  ]

  -- An update of rows that have `r` brings about or keeps `q`.
  pub all-update_where_at :
      (q r p : A → Bool) (f : A → A) (xs : List A)
      → ((x : A) → r x ≡ true → p x ≡ true → q (f x) ≡ true)
      → all r xs ≡ true
      → all q xs ≡ true
      → all q (update_where p f xs) ≡ true
  all-update_where_at q r p f [] to h k = refl
  all-update_where_at q r p f (x ∷ xs) to h k =
      let rest =
        all-update_where_at q r p f xs to (&&_right (r x) (all r xs) h)
          (&&_right (q x) (all q xs) k) in
      elim (Bool-cases (p x)) [
        | inl e ↦ rw (e, to x (&&_left (r x) (all r xs) h) e) rest
        | inr e ↦ rw (e, &&_left (q x) (all q xs) k) rest
      ]

  pub all-weaken :
      (q r : A → Bool) (xs : List A)
      → ((x : A) → q x ≡ true → r x ≡ true)
      → all q xs ≡ true
      → all r xs ≡ true
  all-weaken q r [] to h = refl
  all-weaken q r (x ∷ xs) to h = elim (Bool-cases (q x)) [
    | inl e ↦ rw (to x e) (all-weaken q r xs to (rw e at h))
    | inr e ↦ cc (rw e at h)
  ]

  -- No row is counted where every row rules the query out.
  pub count_where-all :
      (q p : A → Bool) (xs : List A)
      → ((x : A) → q x ≡ true → p x ≡ false)
      → all q xs ≡ true
      → count_where p xs ≡ 0
  count_where-all q p [] out h = refl
  count_where-all q p (x ∷ xs) out h = elim (Bool-cases (q x)) [
    | inl e ↦ rw (out x e) (count_where-all q p xs out (rw e at h))
    | inr e ↦ cc (rw e at h)
  ]

  -- A narrower query counts fewer rows.
  pub count_where-fewer :
      (p k : A → Bool) (xs : List A)
      → ((x : A) → p x ≡ true → k x ≡ true)
      → count_where p xs ≤ count_where k xs
  count_where-fewer p k [] picked = omega arith
  count_where-fewer p k (x ∷ xs) picked = elim (Bool-cases (p x)) [
    | inl e ↦ ground (arith, e, picked x e, count_where-fewer p k xs picked)
    | inr e ↦ ground (arith, e, count_where-fewer p k xs picked)
  ]

  pub any-update_where :
      (q p : A → Bool) (f : A → A) (xs : List A)
      → ((x : A) → q (f x) ≡ q x)
      → any q (update_where p f xs) ≡ any q xs
  any-update_where q p f [] same = refl
  any-update_where q p f (x ∷ xs) same = elim (Bool-cases (p x)) [
    | inl e ↦ rw (e, same x, any-update_where q p f xs same) refl
    | inr e ↦ rw (e, any-update_where q p f xs same) refl
  ]

  -- What is counted is there.
  pub count_where-any :
      (p k : A → Bool) (xs : List A)
      → ((x : A) → p x ≡ true → k x ≡ true)
      → (count_where p xs == 1) ≡ true
      → any k xs ≡ true
  count_where-any p k [] picked h = cc
  count_where-any p k (x ∷ xs) picked h = elim (Bool-cases (p x)) [
    | inl e ↦ rw (picked x e) refl
    | inr e ↦ ground (arith, count_where-any p k xs picked (rw e at h))
  ]

  -- A row that fits is found.
  pub find-any : (p : A → Bool) (xs : List A) → any p xs ≡ true → (x : A) × (find p xs ≡ some x)
  find-any p [] h = absurd (cc h)
  find-any p (x ∷ xs) h = elim (Bool-cases (p x)) [
    | inl e ↦ (x, rw e refl)
    | inr e ↦ let (y, found) = find-any p xs (rw e at h) in (y, rw e found)
  ]

-- Every row that `k` picks has `q`.
abbrev pub all_at {ℓ} : {A : Type ℓ} → (A → Bool) → (A → Bool) → List A → Bool
all_at k q xs = all (λ x. not (k x) || q x) xs

module _ {ℓ} {A : Type ℓ} (k q p : A → Bool) (f : A → A) where
  untouched :
      (xs : List A)
      → ((x : A) → p x ≡ true → k x ≡ true)
      → count_where k xs ≡ 0
      → (all_at k q (update_where p f xs) ≡ true) × (count_where p xs ≡ 0)
  untouched [] picked h = (refl, refl)
  untouched (x ∷ xs) picked h = elim (Bool-cases (p x)) [
    | inl e ↦ ground (arith, picked x e)
    | inr e ↦ ground (arith, untouched xs picked, e)
  ]

  -- The one row that an update hits has `q` afterwards, where `k` picks one row at most.
  pub updated_one :
      (xs : List A)
      → ((x : A) → p x ≡ true → k x ≡ true)
      → ((x : A) → p x ≡ true → q (f x) ≡ true)
      → count_where k xs < 2
      → (count_where p xs == 1) ≡ true
      → all_at k q (update_where p f xs) ≡ true
  updated_one [] picked hit few one = refl
  updated_one (x ∷ xs) picked hit few one = elim (Bool-cases (p x)) [
    | inl e ↦ ground (arith, e, picked x e, hit x e, untouched xs picked)
    | inr e ↦ elim (Bool-cases (k x)) [
      | inl here ↦ ground (arith, e, here, untouched xs picked)
      | inr there ↦ ground (arith, e, there, updated_one xs picked hit)
    ]
  ]

module _ {ℓ} {A : Type ℓ} where
  none_at : (k q : A → Bool) (xs : List A) → count_where k xs ≡ 0 → all_at k q xs ≡ true
  none_at k q [] h = refl
  none_at k q (x ∷ xs) h = elim (Bool-cases (k x)) [
    | inl e ↦ ground (arith, e)
    | inr e ↦ ground (arith, e, none_at k q xs)
  ]

  pub some-injective : (x y : A) → some x ≡ some y → x ≡ y
  some-injective x y h = cc h

  -- What the row that is found has, every row of its key has, where the key is unique.
  pub find-all_at :
      (k q : A → Bool) (xs : List A) {x : A}
      → find k xs ≡ some x
      → q x ≡ true
      → count_where k xs < 2
      → all_at k q xs ≡ true
  find-all_at k q [] h e few = refl
  find-all_at k q (y ∷ ys) {x} h e few = elim (Bool-cases (k y)) [
    | inl hit ↦
        let same = some-injective y x (rw hit at h) in
        let good : q y ≡ true = rw same e in ground (arith, hit, good, none_at k q ys)
    | inr miss ↦ ground (arith, miss, find-all_at k q ys (rw miss at h) e)
  ]

  -- An update that keeps a query's answer on every row keeps its count.
  pub count_where-update_where :
      (k p : A → Bool) (f : A → A) (xs : List A)
      → ((x : A) → k (f x) ≡ k x)
      → count_where k (update_where p f xs) ≡ count_where k xs
  count_where-update_where k p f [] same = refl
  count_where-update_where k p f (x ∷ xs) same = elim (Bool-cases (p x)) [
    | inl e ↦ rw (e, same x, count_where-update_where k p f xs same) refl
    | inr e ↦ rw (e, count_where-update_where k p f xs same) refl
  ]

  -- An update that brings no row into a query does not raise its count.
  pub update_where-fewer :
      (k p : A → Bool) (f : A → A) (xs : List A)
      → ((x : A) → p x ≡ true → k (f x) ≡ true → k x ≡ true)
      → count_where k (update_where p f xs) ≤ count_where k xs
  update_where-fewer k p f [] out = omega arith
  update_where-fewer k p f (x ∷ xs) out = elim (Bool-cases (p x)) [
    | inl e ↦ elim (Bool-cases (k (f x))) [
      | inl t ↦ ground (arith, e, t, out x e t, update_where-fewer k p f xs out)
      | inr t ↦ ground (arith, e, t, update_where-fewer k p f xs out)
    ]
    | inr e ↦ ground (arith, e, update_where-fewer k p f xs out)
  ]

  -- No row is counted where none is there.
  pub count_where-none : (k : A → Bool) (xs : List A) → any k xs ≡ false → count_where k xs ≡ 0
  count_where-none k [] h = refl
  count_where-none k (x ∷ xs) h = elim (Bool-cases (k x)) [
    | inl e ↦ cc (rw e at h)
    | inr e ↦ ground (arith, e, count_where-none k xs)
  ]

  -- A row that is found is there.
  pub find-eq-any : (k : A → Bool) (xs : List A) {x : A} → find k xs ≡ some x → any k xs ≡ true
  find-eq-any k [] h = cc h
  find-eq-any k (y ∷ ys) {x} h = elim (Bool-cases (k y)) [
    | inl e ↦ rw e refl
    | inr e ↦ ground (arith, e, find-eq-any k ys (rw e at h))
  ]

  pub any-counted : (k : A → Bool) (xs : List A) → any k xs ≡ true → 0 < count_where k xs
  any-counted k [] h = cc
  any-counted k (x ∷ xs) h = elim (Bool-cases (k x)) [
    | inl e ↦ ground (arith, e)
    | inr e ↦ ground (arith, e, any-counted k xs (rw e at h))
  ]

  -- An update that takes each row that it hits out of its query leaves none.
  pub update_where-none :
      (p : A → Bool) (f : A → A) (xs : List A)
      → ((x : A) → p x ≡ true → p (f x) ≡ false)
      → count_where p (update_where p f xs) ≡ 0
  update_where-none p f [] out = refl
  update_where-none p f (x ∷ xs) out = elim (Bool-cases (p x)) [
    | inl e ↦ rw (e, out x e) (update_where-none p f xs out)
    | inr e ↦ rw (e, e) (update_where-none p f xs out)
  ]

  -- Every row that an update hits has what the update brings about.
  pub update_where-all_at :
      (p q : A → Bool) (f : A → A) (xs : List A)
      → ((x : A) → p x ≡ true → q (f x) ≡ true)
      → ((x : A) → p (f x) ≡ p x)
      → all_at p q (update_where p f xs) ≡ true
  update_where-all_at p q f [] to same = refl
  update_where-all_at p q f (x ∷ xs) to same = elim (Bool-cases (p x)) [
    | inl e ↦ rw (e, same x, e, to x e) (update_where-all_at p q f xs to same)
    | inr e ↦ rw (e, e) (update_where-all_at p q f xs to same)
  ]
