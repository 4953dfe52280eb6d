-- ===== src/Exchange/Naming.antt =====
-- The names of an object's properties, and calls in front of others.
use strong_soap.Common.{String, ◌≡◌, refl, ap, ◌∙◌, none, some, arith, eq_iff, eq_refl}
use strong_soap.XmlReader.Values.{
  Json, undefined, null_value, text, array, object, Items, no_item, item, Fields, no_field, field,
  get_field,
}
use strong_soap.XmlReader.{Options}
use strong_soap.XmlWriter.Values.{
  Calls, done, attribute, add_text, add_raw, add_cdata, child, then_calls, field_names,
}
use strong_soap.Exchange.{ArePlain, entry_calls, entries_calls}
use strong_soap.Exchange.Sorting.{Others, AreDistinct}

pub Others-absent : (n : String) (d : Fields) → get_field n d ≡ none → Others n (field_names d)
Others-absent n no_field h = tt
Others-absent n (field k v d) h =
    (ground (arith, eq_iff n k, eq_iff k n), Others-absent n d (ground (arith)))

pub ArePlain-AreDistinct : (o : Options) (d : Fields) → ArePlain o d → AreDistinct (field_names d)
ArePlain-AreDistinct o no_field h = tt
ArePlain-AreDistinct o (field n v d) (name, absent, plain, h) =
    (Others-absent n d absent, ArePlain-AreDistinct o d h)

-- No property has the name of a key.
pub attributes_absent :
    (o : Options) (d : Fields) → ArePlain o d → get_field o.attributes_key d ≡ none
attributes_absent o no_field h = refl
attributes_absent o (field n v d) (name, absent, plain, h) =
    rw (name.no_attributes) (attributes_absent o d h)

pub value_absent : (o : Options) (d : Fields) → ArePlain o d → get_field o.value_key d ≡ none
value_absent o no_field h = refl
value_absent o (field n v d) (name, absent, plain, h) = rw (name.no_value) (value_absent o d h)

-- The properties of e are properties of d.
abbrev pub Agrees : Fields → Fields → Type 0
Agrees d no_field = Unit
Agrees d (field n v e) = (get_field n d ≡ some v) × Agrees d e

pub Agrees-field :
    (n : String) (v : Json) (d e : Fields)
    → Others n (field_names e)
    → Agrees d e
    → Agrees (field n v d) e
Agrees-field n v d no_field o h = tt
Agrees-field n v d (field m w e) (p, o) (g, h) = (rw p g, Agrees-field n v d e o h)

pub Agrees-self : (d : Fields) → AreDistinct (field_names d) → Agrees d d
Agrees-self no_field h = tt
Agrees-self (field n v d) (o, h) = (rw (eq_refl n) refl, Agrees-field n v d d o (Agrees-self d h))

mutual
  unfolding entry_calls

  pub then_calls-entry :
      (n : String) (v : Json) (c e : Calls)
      → then_calls (entry_calls n v c) e ≡ entry_calls n v (then_calls c e)
  then_calls-entry n (text t) c e = refl
  then_calls-entry n (object d) c e = refl
  then_calls-entry n (array xs) c e = then_calls-entries n xs c e
  then_calls-entry n undefined c e = refl
  then_calls-entry n null_value c e = refl
  then_calls-entry n (Json.number t) c e = refl
  then_calls-entry n (Json.date t) c e = refl
  then_calls-entry n (Json.boolean b) c e = refl
  then_calls-entry n (Json.sum a b) c e = refl

  pub then_calls-entries :
      (n : String) (xs : Items) (c e : Calls)
      → then_calls (entries_calls n xs c) e ≡ entries_calls n xs (then_calls c e)
  then_calls-entries n no_item c e = refl
  then_calls-entries n (item v xs) c e =
      then_calls-entry n v (entries_calls n xs c) e
      ∙ ap (entry_calls n v) (then_calls-entries n xs c e)

pub then_calls-done : (c : Calls) → then_calls c done ≡ c
then_calls-done done = refl
then_calls-done (attribute n v c) = ap (attribute n v) (then_calls-done c)
then_calls-done (add_text v c) = ap (add_text v) (then_calls-done c)
then_calls-done (add_raw v c) = ap (add_raw v) (then_calls-done c)
then_calls-done (add_cdata v c) = ap (add_cdata v) (then_calls-done c)
then_calls-done (child n v i c) = ap (child n v i) (then_calls-done c)
