-- ===== src/Common/Canonical/Order.antt =====
-- The canonical text does not depend on the order of the keys of an object:
-- Api/src/common/audit/audit.service.ts.
use vaultchain_fintech_dashb.Prelude.{
  true, false, not, List, [], ◌∷◌, ◌≡◌, refl, arith, ap, ◌∙◌, Bool-cases, inl, inr, sym,
}
use vaultchain_fintech_dashb.Prelude.Text.{Text, text_eq}
use vaultchain_fintech_dashb.Common.Canonical.{
  Json, insert_field, text_lt, Items, array, Fields, object, no_items, item, no_fields, field,
  Primitive, stable_stringify, stringify_items, sorted_fields, bracketed, print_fields,
}

-- Two values that differ in the order of the keys of their objects, at any depth.
mutual
  pub data Reorders : Json → Json → Type 0 where
    same : (j : Json) → Reorders j j
    in_array : {xs ys : Items} → ItemsReorder xs ys → Reorders (array xs) (array ys)
    in_object : {fs gs : Fields} → FieldsReorder fs gs → Reorders (object fs) (object gs)

  pub data ItemsReorder : Items → Items → Type 0 where
    items_end : ItemsReorder no_items no_items
    items_next :
        {x y : Json} {xs ys : Items}
        → Reorders x y
        → ItemsReorder xs ys
        → ItemsReorder (item x xs) (item y ys)

  pub data FieldsReorder : Fields → Fields → Type 0 where
    fields_end : FieldsReorder no_fields no_fields
    fields_next :
        {k : Text} {x y : Json} {fs gs : Fields}
        → Reorders x y
        → FieldsReorder fs gs
        → FieldsReorder (field k x fs) (field k y gs)
    fields_swap :
        {k l : Text} {x y : Json} {fs : Fields}
        → text_eq k l ≡ false
        → FieldsReorder (field k x (field l y fs)) (field l y (field k x fs))
    fields_trans :
        {fs gs hs : Fields} → FieldsReorder fs gs → FieldsReorder gs hs → FieldsReorder fs hs

text_lt_total : (s t : Text) → text_eq s t ≡ false → text_lt s t ≡ not (text_lt t s)
text_lt_total [] [] h = cc
text_lt_total [] (d ∷ t) h = refl
text_lt_total (c ∷ s) [] h = refl
text_lt_total (c ∷ s) (d ∷ t) h = ground (arith, text_lt_total s t)

-- What comes before `k` and not before `l` puts `l` before `k`.
text_lt_between : (x k l : Text) → text_lt x k ≡ true → text_lt x l ≡ false → text_lt l k ≡ true
text_lt_between x [] l h g = cc
text_lt_between x (c ∷ k) [] h g = refl
text_lt_between [] (c ∷ k) (d ∷ l) h g = cc
text_lt_between (a ∷ x) (c ∷ k) (d ∷ l) h g = ground (arith, text_lt_between x k l)

abbrev Printed : Type 0
Printed = Text × Text

insert_after :
    (f x : Printed) (xs : List Printed)
    → text_lt x.0 f.0 ≡ true
    → insert_field f (x ∷ xs) ≡ x ∷ insert_field f xs
insert_after f x xs h = rw h refl

insert_before :
    (f x : Printed) (xs : List Printed)
    → text_lt x.0 f.0 ≡ false
    → insert_field f (x ∷ xs) ≡ f ∷ x ∷ xs
insert_before f x xs h = rw h refl

-- Where `x` stands between `f` and `g`.
insert_between :
    (f g x : Printed) (xs : List Printed)
    → text_lt x.0 f.0 ≡ true
    → text_lt x.0 g.0 ≡ false
    → insert_field f (insert_field g (x ∷ xs)) ≡ insert_field g (insert_field f (x ∷ xs))
insert_between f g x xs a b =
    let left =
      ap (insert_field f) (insert_before g x xs b)
      ∙ (insert_after f g (x ∷ xs) (text_lt_between x.0 f.0 g.0 a b)
          ∙ ap (λ zs. g ∷ zs) (insert_after f x xs a)) in
    let right =
      ap (insert_field g) (insert_after f x xs a) ∙ insert_before g x (insert_field f xs) b in
    left ∙ sym right

-- Two heads, of which the lesser comes first.
insert_pair :
    (f g : Printed) (xs : List Printed)
    → text_lt g.0 f.0 ≡ true
    → text_lt f.0 g.0 ≡ false
    → insert_field f (g ∷ xs) ≡ g ∷ insert_field f xs
    → insert_field f xs ≡ f ∷ xs
    → insert_field f (g ∷ xs) ≡ insert_field g (f ∷ xs)
insert_pair f g xs e d after_g first =
    after_g ∙ (ap (λ zs. g ∷ zs) first ∙ sym (insert_before g f xs d))

swapped_heads :
    (f g x : Printed) (xs : List Printed)
    → text_lt x.0 f.0 ≡ false
    → text_lt x.0 g.0 ≡ false
    → text_lt f.0 g.0 ≡ not (text_lt g.0 f.0)
    → insert_field f (g ∷ x ∷ xs) ≡ insert_field g (f ∷ x ∷ xs)
swapped_heads f g x xs a b total = elim (Bool-cases (text_lt g.0 f.0)) [
  | inl e ↦
      let d : text_lt f.0 g.0 ≡ false = rw e at total in
      insert_pair f g (x ∷ xs) e d (insert_after f g (x ∷ xs) e) (insert_before f x xs a)
  | inr e ↦
      let d : text_lt f.0 g.0 ≡ true = rw e at total in
      sym (insert_pair g f (x ∷ xs) d e (insert_after g f (x ∷ xs) d) (insert_before g x xs b))
]

insert_field_swap :
    (f g : Printed) (fs : List Printed)
    → text_eq f.0 g.0 ≡ false
    → insert_field f (insert_field g fs) ≡ insert_field g (insert_field f fs)
insert_field_swap f g [] h =
    let total = text_lt_total f.0 g.0 h in
    elim (Bool-cases (text_lt g.0 f.0)) [
      | inl e ↦ insert_pair f g [] e (ground (arith, total, e)) (insert_after f g [] e) refl
      | inr e ↦ sym (
          insert_pair g f [] (ground (arith, total, e)) e
            (insert_after g f [] (ground (arith, total, e))) refl)
    ]
insert_field_swap f g (x ∷ xs) h =
    let total = text_lt_total f.0 g.0 h in
    elim (Bool-cases (text_lt x.0 f.0)) [
      | inl a ↦ elim (Bool-cases (text_lt x.0 g.0)) [
        | inl b ↦
            ap (insert_field f) (insert_after g x xs b)
            ∙ (insert_after f x (insert_field g xs) a
                ∙ (ap (λ zs. x ∷ zs) (insert_field_swap f g xs h)
                    ∙ (sym (insert_after g x (insert_field f xs) b)
                        ∙ ap (insert_field g) (sym (insert_after f x xs a)))))
        | inr b ↦ insert_between f g x xs a b
      ]
      | inr a ↦ elim (Bool-cases (text_lt x.0 g.0)) [
        | inl b ↦ sym (insert_between g f x xs b a)
        | inr b ↦
            ap (insert_field f) (insert_before g x xs b)
            ∙ (swapped_heads f g x xs a b total
                ∙ ap (insert_field g) (sym (insert_before f x xs a)))
      ]
    ]

mutual
  unfolding stable_stringify stringify_items sorted_fields

  reordered_text :
      (print : Primitive → Text) (j l : Json)
      → Reorders j l
      → stable_stringify print j ≡ stable_stringify print l
  reordered_text print j l (same k) = refl
  reordered_text print j l (in_array {xs = xs} {ys = ys} h) =
      ap (λ parts. bracketed b'[' b']' parts) (reordered_items print xs ys h)
  reordered_text print j l (in_object {fs = fs} {gs = gs} h) =
      ap (λ parts. bracketed b'{' b'}' (print_fields print parts)) (reordered_fields print fs gs h)

  reordered_items :
      (print : Primitive → Text) (xs ys : Items)
      → ItemsReorder xs ys
      → stringify_items print xs ≡ stringify_items print ys
  reordered_items print xs ys items_end = refl
  reordered_items print xs ys (items_next {x = x} {y = y} {xs = us} {ys = vs} h k) =
      rw (reordered_text print x y h, reordered_items print us vs k) refl

  reordered_fields :
      (print : Primitive → Text) (fs gs : Fields)
      → FieldsReorder fs gs
      → sorted_fields print fs ≡ sorted_fields print gs
  reordered_fields print fs gs fields_end = refl
  reordered_fields print fs gs (fields_next {k = k} {x = x} {y = y} {fs = us} {gs = vs} h r) =
      rw (reordered_text print x y h, reordered_fields print us vs r) refl
  reordered_fields print fs gs (fields_swap {k = k} {l = l} {x = x} {y = y} {fs = us} differ) =
      insert_field_swap (k, stable_stringify print x) (l, stable_stringify print y)
        (sorted_fields print us) differ
  reordered_fields print fs gs (fields_trans {fs = us} {gs = vs} {hs = ws} h k) =
      reordered_fields print us vs h ∙ reordered_fields print vs ws k

-- Two values that differ only in the order of the keys of their objects, at any depth, have the
-- same canonical text.
pub stable_stringify-Reorders :
    (print : Primitive → Text) (j l : Json)
    → Reorders j l
    → stable_stringify print j ≡ stable_stringify print l
stable_stringify-Reorders print j l h = reordered_text print j l h
