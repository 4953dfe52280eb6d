-- ===== src/XmlWriter/Values.antt =====
-- The values that src/parser/xmlHandler.js writes: dates and times, CDATA texts, the order of keys, and
-- what is asked of the package xmlbuilder.
use Prim.Native.String
use Prim.Native.Nat.{max}
use strong_soap.Common.{
  ℕ, suc, code, String, Bool, true, false, ◌&&◌, ◌||◌, ◌==◌, nat_eq, ltb, Option, none, some, List,
  [], ◌∷◌, if◌then◌else◌,
}
use strong_soap.QName.{QName}
use strong_soap.XmlReader.Values.{
  Json, undefined, null_value, text, sum, array, object, Items, no_item, item, Fields, no_field,
  field, after,
}

-- The calls that are made on an XML element, in their order: `attribute(n, v)`, `text(v)`, `raw(v)`,
-- `cdata(v)`, and `element(n)` or `element(n, v)` with the calls on the new element.
pub data Calls : Type 0 where
  done : Calls
  attribute : (name : String) (value : Json) → Calls → Calls
  add_text add_raw add_cdata : Json → Calls → Calls
  child : (name : String) (value : Option Json) (inner : Calls) → Calls → Calls

abbrev pub then_calls : Calls → Calls → Calls
then_calls done d = d
then_calls (attribute n v c) d = attribute n v (then_calls c d)
then_calls (add_text v c) d = add_text v (then_calls c d)
then_calls (add_raw v c) d = add_raw v (then_calls c d)
then_calls (add_cdata v c) d = add_cdata v (then_calls c d)
then_calls (child n v inner c) d = child n v inner (then_calls c d)

-- `val == null`
abbrev pub is_nullish : Json → Bool
is_nullish undefined = true
is_nullish null_value = true
is_nullish v = false

-- `text.split('T')`: its first entry, and its second one.
unfoldable pub before_t : String → String
before_t String.[] = ""
before_t (String.◌∷◌ c s) = if nat_eq (code c) b'T' then "" else String.◌∷◌ c (before_t s)

unfoldable pub after_t : String → Option String
unfolding before_t
after_t String.[] = none
after_t (String.◌∷◌ c s) = if nat_eq (code c) b'T' then some (before_t s) else after_t s

-- `iso v` is `new Date(v).toISOString()`, and `none` where that throws.
module _ (iso : Json → Option String) where
  -- `toXmlDate` with the option `timezone.enabled`.
  unfoldable pub to_xml_date : Bool → Json → Json
  unfolding before_t
  to_xml_date timezone v = elim (iso v) [
    | none ↦ v
    | some t ↦ text (if timezone then String.◌++◌ (before_t t) "Z" else before_t t)
  ]

  unfoldable pub to_xml_time : Json → Json
  unfolding after_t
  to_xml_time v = elim (iso v) [
    | none ↦ v
    | some t ↦ elim (after_t t) [ none ↦ undefined | some r ↦ text r ]
  ]

  unfoldable pub to_xml_date_time : Json → Json
  to_xml_date_time v = elim (iso v) [ none ↦ v | some t ↦ text t ]

  unfoldable pub to_xml_by_type : QName → Bool → Json → Json
  unfolding to_xml_date to_xml_time to_xml_date_time
  to_xml_by_type q timezone v =
      if q.name == "date"
      then to_xml_date timezone v
      else if q.name == "time"
      then to_xml_time v
      else if q.name == "dateTime"
      then to_xml_date_time v
      else v

  -- `toXmlDateOrTime` for a descriptor with this type.
  unfoldable pub to_xml_date_or_time : Option QName → Bool → Json → Json
  unfolding to_xml_by_type
  to_xml_date_or_time none timezone v = v
  to_xml_date_or_time (some q) timezone null_value = null_value
  to_xml_date_or_time (some q) timezone v = to_xml_by_type q timezone v

-- Whether a text occurs in another.
unfoldable pub occurs : String → String → Bool
unfolding after
occurs p String.[] = elim (after p "") [ none ↦ false | some r ↦ true ]
occurs p (String.◌∷◌ c s) = elim (after p (String.◌∷◌ c s)) [ none ↦ occurs p s | some r ↦ true ]

-- `text.replace(p, "")`: the first occurrence is taken out.
unfoldable pub without_first : String → String → String
unfolding after
without_first p String.[] = ""
without_first p (String.◌∷◌ c s) = elim (after p (String.◌∷◌ c s)) [
  | none ↦ String.◌∷◌ c (without_first p s)
  | some r ↦ r
]

-- `/<!\[CDATA/.test(v)`, which looks at the value's text; that of an array joins those of its items.
unfoldable mutual
  unfolding occurs

  pub has_cdata : Json → Bool
  has_cdata (text t) = occurs "<![CDATA" t
  has_cdata (array xs) = items_have_cdata xs
  has_cdata (sum a b) = has_cdata a || has_cdata b
  has_cdata v = false

  pub items_have_cdata : Items → Bool
  items_have_cdata no_item = false
  items_have_cdata (item v xs) = has_cdata v || items_have_cdata xs

-- `order.indexOf(n)`, and the length of the list where the text is not in it.
unfoldable pub index_in : List String → String → ℕ
index_in [] n = 0
index_in (m ∷ order) n = if m == n then 0 else suc (index_in order n)

-- The function that `_sortKeys` sorts by answers at most 0.
unfoldable pub comes_first : List String → List String → String → String → Bool
unfolding index_in
comes_first order keys m n =
    ltb (index_in order m) (index_in order n)
    || (nat_eq (index_in order m) (index_in order n)
        && (ltb (index_in keys m) (index_in keys n) || nat_eq (index_in keys m) (index_in keys n)))

unfoldable pub insert_key : (String → String → Bool) → String → List String → List String
insert_key le k [] = k ∷ []
insert_key le k (j ∷ l) = if le k j then k ∷ (j ∷ l) else j ∷ insert_key le k l

unfoldable pub sort_by : (String → String → Bool) → List String → List String
unfolding insert_key
sort_by le [] = []
sort_by le (k ∷ l) = insert_key le k (sort_by le l)

abbrev pub field_names : Fields → List String
field_names no_field = []
field_names (field k v d) = k ∷ field_names d

-- `_sortKeys`
unfoldable pub sort_keys : Fields → List String → List String
unfolding comes_first sort_by
sort_keys val order = sort_by (comes_first order (field_names val)) (field_names val)

-- A value that is there and not undefined.
abbrev pub defined : Option Json → Option Json
defined (some undefined) = none
defined o = o

-- How deep arrays and objects are nested.
unfoldable mutual
  pub depth : Json → ℕ
  depth (array xs) = suc (depth_items xs)
  depth (object d) = suc (depth_fields d)
  depth v = 0

  pub depth_items : Items → ℕ
  depth_items no_item = 0
  depth_items (item v xs) = max (depth v) (depth_items xs)

  pub depth_fields : Fields → ℕ
  depth_fields no_field = 0
  depth_fields (field k v d) = max (depth v) (depth_fields d)
