-- ===== src/Exchange/Putting.antt =====
-- Properties that are put in an object, as the reader does, and items in an array.
use strong_soap.Common.{
  String, false, ◌==◌, ◌≡◌, refl, ap, ◌∙◌, none, some, arith, eq_iff, eq_refl, Bool-cases, inl, inr,
}
use strong_soap.XmlReader.Values.{
  Json, Items, no_item, item, Fields, no_field, field, get_field, put_field, push_item,
}
use strong_soap.XmlReader.Placing.{get_field-put_field}

pub get_field-put_self :
    (n : String) (v : Json) (d : Fields) → get_field n (put_field n v d) ≡ some v
get_field-put_self n v d = rw (get_field-put_field n n v d) (rw (eq_refl n) refl)

pub get_field-put_other :
    (n m : String) (v : Json) (d : Fields)
    → (n == m) ≡ false
    → get_field m (put_field n v d) ≡ get_field m d
get_field-put_other n m v d h = rw (get_field-put_field n m v d) (rw h refl)

pub put_field-put :
    (n : String) (v w : Json) (d : Fields) → put_field n v (put_field n w d) ≡ put_field n v d
put_field-put n v w no_field = rw (eq_refl n) refl
put_field-put n v w (field k u d) = ground (arith, eq_iff k n, put_field-put n v w d)

-- Where names are new, putting properties is appending them.
abbrev pub append_fields : Fields → Fields → Fields
append_fields no_field e = e
append_fields (field n v d) e = field n v (append_fields d e)

abbrev pub append_items : Items → Items → Items
append_items no_item ys = ys
append_items (item v xs) ys = item v (append_items xs ys)

pub append_items-push :
    (xs ys : Items) (v : Json) → append_items (push_item xs v) ys ≡ append_items xs (item v ys)
append_items-push no_item ys v = refl
append_items-push (item w xs) ys v = ap (item w) (append_items-push xs ys v)

pub append_fields-put :
    (n : String) (v : Json) (d e : Fields)
    → get_field n d ≡ none
    → append_fields (put_field n v d) e ≡ append_fields d (field n v e)
append_fields-put n v no_field e h = refl
append_fields-put n v (field k w d) e h = ground (arith, append_fields-put n v d e)

pub append_fields-end : (d : Fields) → append_fields d no_field ≡ d
append_fields-end no_field = refl
append_fields-end (field n v d) = ap (field n v) (append_fields-end d)

pub append_items-end : (xs : Items) → append_items xs no_item ≡ xs
append_items-end no_item = refl
append_items-end (item v xs) = ap (item v) (append_items-end xs)

-- The object has none of the names.
abbrev pub Fresh : Fields → Fields → Type 0
Fresh no_field acc = Unit
Fresh (field n v d) acc = (get_field n acc ≡ none) × Fresh d acc

pub Fresh-nothing : (d : Fields) → Fresh d no_field
Fresh-nothing no_field = tt
Fresh-nothing (field n v d) = (refl, Fresh-nothing d)

pub Fresh-put :
    (n : String) (v : Json) (d acc : Fields)
    → get_field n d ≡ none
    → Fresh d acc
    → Fresh d (put_field n v acc)
Fresh-put n v no_field acc h f = tt
Fresh-put n v (field k w d) acc h (g, f) = elim (Bool-cases (n == k)) [
  | inl same ↦ absurd (ground (arith, eq_iff n k, eq_iff k n))
  | inr differ ↦ (
    get_field-put_other n k v acc differ ∙ g,
    Fresh-put n v d acc (ground (arith, eq_iff n k, eq_iff k n)) f,
  )
]
