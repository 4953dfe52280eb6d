-- ===== src/XmlWriter/Endings.antt =====
-- The writers of attributes and objects of src/parser/xmlHandler.js end: they return or throw.
use strong_soap.Common.{
  ℕ, suc, String, Bool, true, false, ◌≡◌, refl, ◌≤◌, ◌<◌, Option, none, some, List, [], ◌∷◌,
  if◌then◌else◌, ◌==◌, Option-cases, inl, inr, arith, Bool-cases, or_else,
}
use strong_soap.Common.Result.{Result, ok, throw, diverge}
use strong_soap.NsContext.{NamespaceContext, declare_namespace}
use strong_soap.NsContext.Ending.{declare_namespace-Ended}
use strong_soap.Common.Ending.{Ended, chain-Ended, if-Ended}
use strong_soap.QName.{QName, parse, null, Resolver, of_text, exec}
use strong_soap.Descriptor.{
  AttributeDescriptor, ElementDescriptor, TypeDescriptor, Item, qualified, unqualified, Form,
}
use strong_soap.XmlReader.Values.{
  Json, undefined, null_value, text, number, date, boolean, sum, array, object, Fields, no_field,
  field, get_field,
}
use strong_soap.XmlWriter.{
  Handler, Writer, write_nothing, ◌and_then◌, declare_on, attribute_by, write_attribute,
  xsi_type_name, object_name, field_resolver, described_by, parse_value_name, write_xsi_type,
  write_known, write_fields, add_attributes, get_xsi_type, write_property, write_found,
  write_children, child_descriptor, map_object, attributes_of, elements_of, element_names,
  last_attribute, last_element, indexed, uri_of, or_type,
}
use strong_soap.XmlWriter.Values.{sort_keys, depth, depth_fields, defined}

abbrev pub Ends : Writer → Type 0
Ends w = (c : NamespaceContext) → Ended (w c)

pub if-Ends : (b : Bool) (v w : Writer) → Ends v → Ends w → Ends (if b then v else w)
if-Ends true v w h k = h
if-Ends false v w h k = k

pub and_then-Ends : (a b : Writer) → Ends a → Ends b → Ends (a and_then b)
and_then-Ends a b h k c = chain-Ended (a c) _ (h c) (λ r. chain-Ended (b r.0) _ (k r.0) (λ s. tt))

pub declare_on-Ended :
    (p : Option String) (u : String) (c : NamespaceContext) → Ended (declare_on p u c)
unfolding declare_on
declare_on-Ended p u c =
    chain-Ended (declare_namespace c p u) _ (declare_namespace-Ended c p u) (λ r. tt)

attribute_by-Ends : (f : Form) (q : QName) (v : Json) → Ends (attribute_by f q v)
unfolding attribute_by
attribute_by-Ends unqualified q v = λ c. tt
attribute_by-Ends qualified q v = λ c.
    chain-Ended (declare_on q.prefix (uri_of q) c) _ (declare_on-Ended q.prefix (uri_of q) c)
      (λ r. tt)

pub write_attribute-Ends :
    (h : Handler) (a : AttributeDescriptor) (v : Json) → Ends (write_attribute h a v)
unfolding write_attribute
write_attribute-Ends h a v = attribute_by-Ends a.form a.qname _

pub le_trans : {a b c : ℕ} → a ≤ b → b ≤ c → a ≤ c
le_trans h k = omega arith

le-lt : {a b c : ℕ} → a ≤ b → b < c → a < c
le-lt h k = omega arith

lt-of-suc : {a b : ℕ} → suc a ≤ b → a < b
lt-of-suc h = omega arith

-- What the handler's parameters do: they end, and a restriction makes no value deeper.
abbrev pub Shallow : Json → Result Json → Type 0
Shallow v (ok w) = depth w ≤ depth v
Shallow v (throw x) = Unit
Shallow v diverge = ⊥

pub record IsEnding (h : Handler) : Type 0 where
  pub described_ends : (q : QName) → Ended (h.described q)
  pub enforce_ends :
      (q : QName) (enforce : Json → Result Json)
      → h.restriction q ≡ some enforce
      → (v : Json) → Shallow v (enforce v)

of_text-Ended : (t : String) → Ended (of_text t)
unfolding of_text
of_text-Ended t = elim (Option-cases (exec t)) [
  | inl missing ↦ rw (missing, of_text) tt
  | inr (g, found) ↦ rw (found, of_text) tt
]

parse-Ended : (t : Option String) (ns : Resolver) → Ended (parse t ns)
unfolding parse
parse-Ended t ns = chain-Ended (of_text (or_else t "")) _ (of_text-Ended (or_else t "")) (λ r. tt)

parse_value_name-Ended : (h : Handler) (v : Json) (ns : Resolver) → Ended (parse_value_name h v ns)
unfolding parse_value_name
parse_value_name-Ended h undefined ns = parse-Ended none ns
parse_value_name-Ended h null_value ns = parse-Ended none ns
parse_value_name-Ended h (text t) ns = parse-Ended (some t) ns
parse_value_name-Ended h (number t) ns =
    if-Ended (h.nonzero (number t)) _ _ tt (parse-Ended none ns)
parse_value_name-Ended h (date t) ns = tt
parse_value_name-Ended h (boolean true) ns = tt
parse_value_name-Ended h (boolean false) ns = parse-Ended none ns
parse_value_name-Ended h (sum a b) ns = tt
parse_value_name-Ended h (array xs) ns = tt
parse_value_name-Ended h (object d) ns = tt

object_name-Ended : (h : Handler) (d : Fields) (t : Option Json) → Ended (object_name h d t)
object_name-Ended h d none = parse_value_name-Ended h (object d) null
object_name-Ended h d (some t) = parse_value_name-Ended h t (field_resolver (get_field "xmlns" d))

xsi_type_name-Ended : (h : Handler) (v : Json) → Ended (xsi_type_name h v)
unfolding xsi_type_name
xsi_type_name-Ended h null_value = tt
xsi_type_name-Ended h (object d) = object_name-Ended h d (defined (get_field "type" d))
xsi_type_name-Ended h undefined = parse_value_name-Ended h undefined null
xsi_type_name-Ended h (text t) = parse_value_name-Ended h (text t) null
xsi_type_name-Ended h (number t) = parse_value_name-Ended h (number t) null
xsi_type_name-Ended h (date t) = parse_value_name-Ended h (date t) null
xsi_type_name-Ended h (boolean b) = parse_value_name-Ended h (boolean b) null
xsi_type_name-Ended h (sum a b) = parse_value_name-Ended h (sum a b) null
xsi_type_name-Ended h (array xs) = parse_value_name-Ended h (array xs) null

write_xsi_type-Ends : (h : Handler) (v : Json) → Ends (write_xsi_type h v)
unfolding write_xsi_type
write_xsi_type-Ends h v c = chain-Ended (xsi_type_name h v) _ (xsi_type_name-Ended h v) (λ q.
    chain-Ended (declare_on _ _ c) _ (declare_on-Ended _ _ c)
      (λ r. chain-Ended (declare_on _ _ r.0) _ (declare_on-Ended _ _ r.0) (λ s. tt)))

write_known-Ends :
    (h : Handler) (a : Option AttributeDescriptor) (p : String) (v : Json)
    → Ends (write_known h a p v)
unfolding write_known
write_known-Ends h (some a) p v = write_attribute-Ends h a v
write_known-Ends h none p v =
    if-Ends h.ignore_unknown_properties write_nothing _ (λ c. tt)
      (λ c.
        chain-Ended (parse (some p) null) _ (parse-Ended (some p) null)
          (λ q. write_attribute-Ends h (record { qname = q; type = none; form = unqualified }) v c))

write_fields-Ends :
    (h : Handler) (known : List AttributeDescriptor) (d : Fields) → Ends (write_fields h known d)
unfolding write_fields
write_fields-Ends h known no_field = λ c. tt
write_fields-Ends h known (field p v d) =
    and_then-Ends
      (if p == h.options.xsi_type_key
        then write_xsi_type h v
        else write_known h (last_attribute known p) p v)
      (write_fields h known d)
      (if-Ends (p == h.options.xsi_type_key) (write_xsi_type h v)
        (write_known h (last_attribute known p) p v) (write_xsi_type-Ends h v)
        (write_known-Ends h (last_attribute known p) p v))
      (write_fields-Ends h known d)

pub add_attributes-Ends :
    (h : Handler) (t : Option TypeDescriptor) (attrs : Json) → Ends (add_attributes h t attrs)
unfolding add_attributes
add_attributes-Ends h t (object d) = write_fields-Ends h (attributes_of t) d
add_attributes-Ends h t (array xs) = write_fields-Ends h (attributes_of t) (indexed 0 xs)
add_attributes-Ends h t undefined = λ c. tt
add_attributes-Ends h t null_value = λ c. tt
add_attributes-Ends h t (text x) = λ c. tt
add_attributes-Ends h t (number x) = λ c. tt
add_attributes-Ends h t (date x) = λ c. tt
add_attributes-Ends h t (boolean b) = λ c. tt
add_attributes-Ends h t (sum a b) = λ c. tt

described_by-Ended : (h : Handler) → IsEnding h → (v : Option Json) → Ended (described_by h v)
described_by-Ended h e none = tt
described_by-Ended h e (some v) =
    chain-Ended (xsi_type_name h v) h.described (xsi_type_name-Ended h v) e.described_ends

get_xsi_type-Ended : (h : Handler) → IsEnding h → (attrs : Json) → Ended (get_xsi_type h attrs)
unfolding get_xsi_type
get_xsi_type-Ended h e (object d) = described_by-Ended h e (get_field h.options.xsi_type_key d)
get_xsi_type-Ended h e undefined = tt
get_xsi_type-Ended h e null_value = tt
get_xsi_type-Ended h e (text x) = tt
get_xsi_type-Ended h e (number x) = tt
get_xsi_type-Ended h e (date x) = tt
get_xsi_type-Ended h e (boolean b) = tt
get_xsi_type-Ended h e (sum a b) = tt
get_xsi_type-Ended h e (array xs) = tt

pub get_field-depth :
    (k : String) (d : Fields) (v : Json) → get_field k d ≡ some v → depth v ≤ depth_fields d
unfolding depth_fields
get_field-depth k no_field v h = cc
get_field-depth k (field j w d) v h = elim (Bool-cases (j == k)) [
  | inl e ↦ let m : some w ≡ some v = rw e at h in grind arith
  | inr e ↦ let m : get_field k d ≡ some v = rw e at h in grind (arith, get_field-depth k d v m)
]

-- What `mapObject` asks of its recursive call for the parts of an object.
module _ (h : Handler) (ending : IsEnding h) (n : ℕ) (write : Item → Json → Writer)
    (write-Ends : (x : Item) (v : Json) → depth v < n → Ends (write x v)) where
  child_descriptor-Ended :
      (e : Option ElementDescriptor) (a : Option AttributeDescriptor) (p : String) (v : Json)
      → Ended (child_descriptor h e a p v)
  unfolding child_descriptor
  child_descriptor-Ended (some e) a p v = tt
  child_descriptor-Ended none (some a) p v = tt
  child_descriptor-Ended none none p v =
      if-Ended h.ignore_unknown_properties _ _ tt
        (chain-Ended (parse (some p) null) _ (parse-Ended (some p) null) (λ q. tt))

  found-Ends : (x : Option Item) (v : Json) → depth v < n → Ends (write_found write x v)
  found-Ends none v l = λ c. tt
  found-Ends (some x) v l = write-Ends x v l

  property-Ends :
      (t : Option TypeDescriptor) (p : String) (v : Option Json)
      → ((w : Json) → v ≡ some w → depth w < n)
      → Ends (write_property h write t p v)
  property-Ends t p none l = λ c. tt
  property-Ends t p (some v) l = λ c.
      chain-Ended
        (child_descriptor h (last_element (elements_of t) p) (last_attribute (attributes_of t) p) p
          v)
        _ (child_descriptor-Ended _ _ p v) (λ x. found-Ends x v (l v refl) c)

  children-Ends :
      (t : Option TypeDescriptor) (d : Fields) (names : List String)
      → depth_fields d < n
      → Ends (write_children h write t d names)
  unfolding write_children
  children-Ends t d [] l = λ c. tt
  children-Ends t d (p ∷ names) l =
      and_then-Ends
        (if p == h.options.attributes_key
          then write_nothing
          else write_property h write t p (get_field p d))
        (write_children h write t d names)
        (if-Ends (p == h.options.attributes_key) write_nothing
          (write_property h write t p (get_field p d)) (λ c. tt)
          (property-Ends t p (get_field p d) (λ w e. le-lt (get_field-depth p d w e) l)))
        (children-Ends t d names l)

  pub map_object-Ends :
      (t : Option TypeDescriptor) (v attrs : Json)
      → depth v ≤ n
      → Ends (map_object h write t v attrs)
  unfolding map_object depth
  map_object-Ends t (object d) attrs l = λ c.
      chain-Ended (get_xsi_type h attrs) _ (get_xsi_type-Ended h ending attrs) (λ x.
        and_then-Ends
          (write_children h write (or_type x t) d
            (sort_keys d (element_names (elements_of (or_type x t)))))
          (add_attributes h (or_type x t) attrs) (children-Ends (or_type x t) d _ (lt-of-suc l))
          (add_attributes-Ends h (or_type x t) attrs) c)
  map_object-Ends t (array xs) attrs l = λ c.
      chain-Ended (get_xsi_type h attrs) _ (get_xsi_type-Ended h ending attrs)
        (λ x. add_attributes-Ends h (or_type x t) attrs c)
  map_object-Ends t undefined attrs l = λ c. tt
  map_object-Ends t null_value attrs l = λ c. tt
  map_object-Ends t (text x) attrs l = λ c. tt
  map_object-Ends t (number x) attrs l = λ c. tt
  map_object-Ends t (date x) attrs l = λ c. tt
  map_object-Ends t (boolean b) attrs l = λ c. tt
  map_object-Ends t (sum a b) attrs l = λ c. tt
