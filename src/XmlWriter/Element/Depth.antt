-- ===== src/XmlWriter/Element/Depth.antt =====
-- The value that `jsonToXml` of src/parser/xmlHandler.js writes into a new element is no deeper than the
-- one it was given.
use strong_soap.Common.{
  ℕ, suc, Bool, true, false, ◌≡◌, refl, ◌≤◌, Option, none, some, if◌then◌else◌, Option-cases, inl,
  inr, arith, String, ◌==◌, ◌&&◌,
}
use strong_soap.Common.Result.{Result, ok, throw, diverge, ◌>>=◌}
use strong_soap.QName.{QName}
use strong_soap.Descriptor.{ElementDescriptor, info}
use strong_soap.XmlReader.Values.{
  Json, undefined, null_value, text, number, date, boolean, sum, array, object, get_field,
}
use strong_soap.XmlWriter.Values.{
  to_xml_by_type, to_xml_date, to_xml_time, to_xml_date_time, to_xml_date_or_time, after_t, defined,
  depth, depth_fields, has_cdata,
}
use strong_soap.XmlWriter.{Handler}
use strong_soap.XmlWriter.Endings.{IsEnding, Shallow, get_field-depth, le_trans}
use strong_soap.XmlWriter.Element.{
  own_field, own_value, by_restriction, enforced_by, enforced, value_or, start_raw, Started,
  start_cdata, start_plain, start_element,
}

if-depth :
    (b : Bool) (v w : Json) (n : ℕ) → depth v ≤ n → depth w ≤ n → depth (if b then v else w) ≤ n
if-depth true v w n h k = h
if-depth false v w n h k = k

module _ (iso : Json → Option String) (n : ℕ) where
  date-depth : (b : Bool) (v : Json) → depth v ≤ n → depth (to_xml_date iso b v) ≤ n
  unfolding to_xml_date depth
  date-depth b v h = elim (Option-cases (iso v)) [
    | inl failed ↦ rw (failed, to_xml_date) h
    | inr (t, made) ↦ rw (made, to_xml_date) (omega arith)
  ]

  time-depth : (v : Json) → depth v ≤ n → depth (to_xml_time iso v) ≤ n
  unfolding to_xml_time depth
  time-depth v h = elim (Option-cases (iso v)) [
    | inl failed ↦ rw (failed, to_xml_time) h
    | inr (t, made) ↦ elim (Option-cases (after_t t)) [
      | inl missing ↦ rw (made, missing, to_xml_time) (omega arith)
      | inr (r, found) ↦ rw (made, found, to_xml_time) (omega arith)
    ]
  ]

  date_time-depth : (v : Json) → depth v ≤ n → depth (to_xml_date_time iso v) ≤ n
  unfolding to_xml_date_time depth
  date_time-depth v h = elim (Option-cases (iso v)) [
    | inl failed ↦ rw (failed, to_xml_date_time) h
    | inr (t, made) ↦ rw (made, to_xml_date_time) (omega arith)
  ]

  by_type-depth :
      (q : QName) (b : Bool) (v : Json) → depth v ≤ n → depth (to_xml_by_type iso q b v) ≤ n
  unfolding to_xml_by_type
  by_type-depth q b v h = if-depth (q.name == "date") _ _ n (date-depth b v h) (
      if-depth (q.name == "time") _ _ n (time-depth v h)
        (if-depth (q.name == "dateTime") _ _ n (date_time-depth v h) h))

  to_xml-depth :
      (t : Option QName) (b : Bool) (v : Json)
      → depth v ≤ n
      → depth (to_xml_date_or_time iso t b v) ≤ n
  unfolding to_xml_date_or_time
  to_xml-depth none b v h = h
  to_xml-depth (some q) b null_value h = h
  to_xml-depth (some q) b undefined h = by_type-depth q b undefined h
  to_xml-depth (some q) b (text t) h = by_type-depth q b (text t) h
  to_xml-depth (some q) b (number t) h = by_type-depth q b (number t) h
  to_xml-depth (some q) b (date t) h = by_type-depth q b (date t) h
  to_xml-depth (some q) b (boolean x) h = by_type-depth q b (boolean x) h
  to_xml-depth (some q) b (sum x y) h = by_type-depth q b (sum x y) h
  to_xml-depth (some q) b (array xs) h = by_type-depth q b (array xs) h
  to_xml-depth (some q) b (object d) h = by_type-depth q b (object d) h

defined-depth :
    (o : Option Json) (w : Json) (n : ℕ)
    → ((u : Json) → o ≡ some u → depth u ≤ n)
    → defined o ≡ some w
    → depth w ≤ n
defined-depth none w n k h = absurd (cc h)
defined-depth (some undefined) w n k h = absurd (cc h)
defined-depth (some null_value) w n k h = k w h
defined-depth (some (text t)) w n k h = k w h
defined-depth (some (number t)) w n k h = k w h
defined-depth (some (date t)) w n k h = k w h
defined-depth (some (boolean x)) w n k h = k w h
defined-depth (some (sum x y)) w n k h = k w h
defined-depth (some (array xs)) w n k h = k w h
defined-depth (some (object d)) w n k h = k w h

le-suc : {a b : ℕ} → a ≤ b → a ≤ suc b
le-suc h = omega arith

own_field-depth : (k : String) (v w : Json) → own_field k v ≡ some w → depth w ≤ depth v
unfolding depth
own_field-depth k (object d) w h =
    le-suc (defined-depth (get_field k d) w (depth_fields d) (get_field-depth k d) h)
own_field-depth k undefined w h = absurd (cc h)
own_field-depth k null_value w h = absurd (cc h)
own_field-depth k (text t) w h = absurd (cc h)
own_field-depth k (number t) w h = absurd (cc h)
own_field-depth k (date t) w h = absurd (cc h)
own_field-depth k (boolean x) w h = absurd (cc h)
own_field-depth k (sum x y) w h = absurd (cc h)
own_field-depth k (array xs) w h = absurd (cc h)

value_or-depth :
    (o : Option Json) (v : Json) (n : ℕ)
    → depth v ≤ n
    → ((w : Json) → o ≡ some w → depth w ≤ n)
    → depth (value_or o v) ≤ n
value_or-depth none v n h k = h
value_or-depth (some w) v n h k = k w refl

pub own_value-depth : (h : Handler) (v : Json) → depth (own_value h v) ≤ depth v
own_value-depth h v =
    value_or-depth (own_field h.options.value_key v) v (depth v) (omega arith)
      (own_field-depth h.options.value_key v)

-- The call throws, or the value to write is no deeper than the bound.
abbrev pub Bounded : ℕ → Result Started → Type 0
Bounded n (ok s) = depth s.value ≤ n
Bounded n (throw x) = Unit
Bounded n diverge = ⊥

if-Bounded :
    (b : Bool) (n : ℕ) (r s : Result Started)
    → Bounded n r
    → Bounded n s
    → Bounded n (if b then r else s)
if-Bounded true n r s h k = h
if-Bounded false n r s h k = k

module _ (h : Handler) (ending : IsEnding h) where
  Shallow-Bounded :
      (v : Json) (n : ℕ) (r : Result Json) (f : Json → Result Started)
      → Shallow v r
      → ((w : Json) → depth w ≤ depth v → Bounded n (f w))
      → Bounded n (r >>= f)
  Shallow-Bounded v n (ok w) f l k = k w l
  Shallow-Bounded v n (throw x) f l k = tt
  Shallow-Bounded v n diverge f l k = absurd l

  by_restriction-Shallow :
      (q : QName) (r : Option (Json → Result Json)) (v : Json)
      → h.restriction q ≡ r
      → Shallow v (by_restriction r v)
  by_restriction-Shallow q none v e = omega arith
  by_restriction-Shallow q (some enforce) v e = ending.enforce_ends q enforce e v

  enforced_by-Shallow : (t : Option QName) (v : Json) → Shallow v (enforced_by h t v)
  enforced_by-Shallow none v = omega arith
  enforced_by-Shallow (some q) v = by_restriction-Shallow q (h.restriction q) v refl

  if-Shallow :
      (b : Bool) (v : Json) (r s : Result Json)
      → Shallow v r
      → Shallow v s
      → Shallow v (if b then r else s)
  if-Shallow true v r s p q = p
  if-Shallow false v r s p q = q

  enforced-Shallow : (e : ElementDescriptor) (v : Json) → Shallow v (enforced h e v)
  unfolding enforced
  enforced-Shallow e v =
      if-Shallow h.enforce_restrictions v _ _ (enforced_by-Shallow (info e).type v) (omega arith)

  start_plain-Bounded :
      (e : ElementDescriptor) (v : Json) (n : ℕ) → depth v ≤ n → Bounded n (start_plain h e v)
  unfolding start_plain
  start_plain-Bounded e v n l =
      Shallow-Bounded v n (enforced h e v) _ (enforced-Shallow e v)
        (λ w k. to_xml-depth h.iso n (info e).type h.timezone_enabled w (le_trans k l))

  start_raw-Bounded :
      (e : ElementDescriptor) (v : Json) (x : Option Json) (n : ℕ)
      → depth v ≤ n
      → ((w : Json) → x ≡ some w → depth w ≤ n)
      → Bounded n (start_raw h e v x)
  unfolding start_raw
  start_raw-Bounded e v none n l k = start_plain-Bounded e v n l
  start_raw-Bounded e v (some x) n l k =
      to_xml-depth h.iso n (info e).type h.timezone_enabled x (k x refl)

  start_cdata-Bounded : (v : Json) (n : ℕ) → Bounded n (start_cdata v)
  unfolding start_cdata depth
  start_cdata-Bounded (text t) n = omega arith
  start_cdata-Bounded undefined n = tt
  start_cdata-Bounded null_value n = tt
  start_cdata-Bounded (number t) n = tt
  start_cdata-Bounded (date t) n = tt
  start_cdata-Bounded (boolean x) n = tt
  start_cdata-Bounded (sum x y) n = tt
  start_cdata-Bounded (array xs) n = tt
  start_cdata-Bounded (object d) n = tt

  pub start_element-Bounded :
      (e : ElementDescriptor) (v : Json) (n : ℕ) → depth v ≤ n → Bounded n (start_element h e v)
  unfolding start_element
  start_element-Bounded e v n l =
      if-Bounded ((info e).is_simple && has_cdata v) n _ _ (start_cdata-Bounded v n) (
        if-Bounded (info e).is_simple n _ _
          (start_raw-Bounded e v (own_field h.options.xml_key v) n l
            (λ w k. le_trans (own_field-depth h.options.xml_key v w k) l))
          (start_plain-Bounded e v n l))
