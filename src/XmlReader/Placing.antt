-- ===== src/XmlReader/Placing.antt =====
-- What closing elements leave in the values that `xmlToJson` of src/parser/xmlHandler.js builds.
use strong_soap.Common.{
  String, Bool, true, false, ◌≡◌, ◌≢◌, refl, ap, ◌∙◌, ◌==◌, inl, inr, Option, none, some, List, [],
  ◌∷◌, ◌++◌, if◌then◌else◌, arith, eq_iff, eq_false, Bool-cases,
}
use strong_soap.Common.Dict.{Dict}
use strong_soap.Common.Result.{ok, throw, type_error}
use strong_soap.QName.{QName, parse, null}
use strong_soap.NsContext.{NamespaceContext}
use strong_soap.Descriptor.{other}
use strong_soap.XmlReader.Values.{
  Json, undefined, null_value, array, object, Items, no_item, item, Fields, no_field, field,
  get_field, put_field, push_item, parse_value, trim,
}
use strong_soap.XmlReader.{
  Options, Frame, new_frame, entered, joined, place, process_text, text_value,
}
use strong_soap.XmlReader.Tree.{Content, chars, element, read}

abbrev pub listed : Items → List Json
listed no_item = []
listed (item v xs) = v ∷ listed xs

-- The element values that a property's value stands for.
abbrev pub values_of : Json → List Json
values_of (array xs) = listed xs
values_of v = v ∷ []

abbrev pub values_at : Option Json → List Json
values_at none = []
values_at (some v) = values_of v

-- The values of the inner elements with a name, in their order.
abbrev pub occurrences : String → Json → List Json
occurrences n (object d) = values_at (get_field n d)
occurrences n v = []

-- A value that inner elements can be placed in.
pub data IsOpen : Json → Type 0 where
  no_value : IsOpen undefined
  an_object : (d : Fields) → IsOpen (object d)

pub get_field-put_field :
    (k j : String) (v : Json) (d : Fields)
    → get_field j (put_field k v d) ≡ (if k == j then some v else get_field j d)
get_field-put_field k j v no_field = refl
get_field-put_field k j v (field i w d) =
    ground (arith, eq_iff k j, eq_iff i k, eq_iff i j, get_field-put_field k j v d)

listed-push_item : (xs : Items) (v : Json) → listed (push_item xs v) ≡ listed xs ++ (v ∷ [])
listed-push_item no_item v = refl
listed-push_item (item w xs) v = ap (λ l. w ∷ l) (listed-push_item xs v)

values_of-joined :
    (m : Bool) (old : Option Json) (v : Json)
    → values_of v ≡ v ∷ []
    → values_of (joined m old v) ≡ values_at old ++ (v ∷ [])
unfolding joined
values_of-joined m (some (array xs)) v h = listed-push_item xs v
values_of-joined true none v h = refl
values_of-joined false none v h = h
values_of-joined m (some undefined) v h = refl
values_of-joined m (some null_value) v h = refl
values_of-joined m (some (Json.text t)) v h = refl
values_of-joined m (some (Json.number t)) v h = refl
values_of-joined m (some (Json.date t)) v h = refl
values_of-joined m (some (Json.boolean b)) v h = refl
values_of-joined m (some (Json.sum a b)) v h = refl
values_of-joined m (some (object d)) v h = refl

occurrences-put :
    (m : Bool) (n k : String) (v : Json) (d : Fields)
    → values_of v ≡ v ∷ []
    → occurrences k (object (put_field n (joined m (get_field n d) v) d))
      ≡ (if n == k then occurrences k (object d) ++ (v ∷ []) else occurrences k (object d))
occurrences-put m n k v d h =
    ap values_at (get_field-put_field n k (joined m (get_field n d) v) d)
    ∙ elim (Bool-cases (n == k)) [
      | inl e ↦
          let same : n ≡ k = (eq_iff n k).0 e in
          rw e (
            values_of-joined m (get_field n d) v h
            ∙ ap (λ j. values_at (get_field j d) ++ (v ∷ [])) same)
      | inr e ↦ rw e refl
    ]

-- Placing an element value that is no array in a parent without value or with an object never throws,
-- and appends the value to the values of its name and to no other's, whether the descriptor asks for an
-- array or not.
pub place-appends :
    (m : Bool) (n : String) (v p : Json)
    → values_of v ≡ v ∷ []
    → IsOpen p
    → (p' : Json) × (place m n v p ≡ ok p')
      × ((k : String)
          → occurrences k p' ≡ (if n == k then occurrences k p ++ (v ∷ []) else occurrences k p))
unfolding place
place-appends m n v p h no_value = (_, refl, λ k. occurrences-put m n k v no_field h)
place-appends m n v p h (an_object d) = (_, refl, λ k. occurrences-put m n k v d h)

-- An element with a text before an inner element cannot be read: where the element has no attribute
-- and no descriptor and the inner element itself can be read, the reader throws a TypeError.
pub read-mixed :
    (options : Options) (c : NamespaceContext) (t name : String) (attrs : Dict String)
    (inner rest : Content) {frame : Frame} {w : Json} {q : QName}
    → trim t ≢ ""
    → new_frame options (entered c attrs) other name attrs ≡ ok frame
    → read options (entered c attrs) frame.described inner frame.value ≡ ok w
    → parse (some name) null ≡ ok q
    → read options c other (chars t (element name attrs inner rest)) undefined ≡ throw type_error
unfolding read text_value process_text place parse_value
read-mixed options c t name attrs inner rest {frame} {w} {q} blank made inside named =
    rw (eq_false (trim t) "" blank) (rw made (rw inside (rw named refl)))
