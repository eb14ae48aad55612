-- ===== src/Common/Canonical.antt =====
-- `stableStringify` of Api/src/common/audit/audit.service.ts: the canonical text of a JSON value. What
-- JSON.stringify prints of a primitive is a parameter.
pub mod Order
use vaultchain_fintech_dashb.Prelude.{
  ℕ, Bool, true, false, ◌&&◌, ◌||◌, List, [], ◌∷◌, ◌++◌, ltb, ◌==◌, if◌then◌else◌,
}
use vaultchain_fintech_dashb.Prelude.Text.{Text}

pub data Primitive : Type 0 where
  null : Primitive
  undefined : Primitive
  boolean : Bool → Primitive
  number : ℕ → Primitive
  string : Text → Primitive

-- A value, the items of an array, and the own keys of an object with their values.
mutual
  pub data Json : Type 0 where
    primitive : Primitive → Json
    array : Items → Json
    object : Fields → Json

  pub data Items : Type 0 where
    no_items : Items
    item : Json → Items → Items

  pub data Fields : Type 0 where
    no_fields : Fields
    field : Text → Json → Fields → Fields

-- `a < b` on strings, by their code units.
abbrev pub text_lt : Text → Text → Bool
text_lt s [] = false
text_lt [] (d ∷ t) = true
text_lt (c ∷ s) (d ∷ t) = ltb c d || (c == d && text_lt s t)

-- `Object.keys(obj).sort()`, with the printed value of each key.
abbrev pub insert_field : Text × Text → List (Text × Text) → List (Text × Text)
insert_field f [] = f ∷ []
insert_field f (g ∷ gs) =
    let rest = insert_field f gs in if text_lt g.0 f.0 then g ∷ rest else f ∷ (g ∷ gs)

abbrev pub join_comma : List Text → Text
join_comma [] = []
join_comma (s ∷ []) = s
join_comma (s ∷ t ∷ rest) = s ++ (b',' ∷ join_comma (t ∷ rest))

-- `${JSON.stringify(k)}:${value}`, where `print` is JSON.stringify.
abbrev pub print_fields : (Primitive → Text) → List (Text × Text) → List Text
print_fields print [] = []
print_fields print ((k, value) ∷ rest) =
    (print (string k) ++ (b':' ∷ value)) ∷ print_fields print rest

abbrev pub bracketed : ℕ → ℕ → List Text → Text
bracketed first last parts = first ∷ (join_comma parts ++ (last ∷ []))

unfoldable mutual
  pub stable_stringify : (Primitive → Text) → Json → Text
  stable_stringify print (primitive p) = print p
  stable_stringify print (array xs) = bracketed b'[' b']' (stringify_items print xs)
  stable_stringify print (object fs) =
      bracketed b'{' b'}' (print_fields print (sorted_fields print fs))

  pub stringify_items : (Primitive → Text) → Items → List Text
  stringify_items print no_items = []
  stringify_items print (item x xs) = stable_stringify print x ∷ stringify_items print xs

  pub sorted_fields : (Primitive → Text) → Fields → List (Text × Text)
  sorted_fields print no_fields = []
  sorted_fields print (field k v fs) =
      insert_field (k, stable_stringify print v) (sorted_fields print fs)
