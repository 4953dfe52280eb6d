-- ===== src/XmlWriter.antt =====
-- src/parser/xmlHandler.js: `jsonToXml`, `mapObject`, `addAttributes` and `getXsiType`, as functions from
-- a value and the namespace context to the calls on the package xmlbuilder and the new context.
-- The list of elements that xsi:type makes longer is used for the element at hand; that the code keeps
-- it for later calls is left out.
pub mod Values
pub mod Scopes
pub mod Sorting
pub mod Endings
pub mod Element
use Prim.Native.String
use strong_soap.Common.{
  ℕ, zero, suc, ◌+◌, String, Bool, true, false, ◌&&◌, ◌||◌, not, ◌==◌, Option, none, some, List, [],
  ◌∷◌, if◌then◌else◌, or_else, truthy, truthy?,
}
use strong_soap.Common.Decimal.{decimal}
use strong_soap.Common.Result.{Result, ok, throw, diverge, type_error, assertion, ◌>>=◌}
use strong_soap.QName.{QName, parse, null, uri, Resolver}
use strong_soap.NsContext.{
  NamespaceContext, new_context, push_context, pop_context, Mapping, PrefixMapping, reserved,
  mapping, get_prefix_mapping, declare_namespace,
}
use strong_soap.Descriptor.{
  AttributeDescriptor, ElementDescriptor, element, TypeDescriptor, descriptor, Elements, nil, cons,
  info, content, elements, attributes, Item, an_element, an_attribute, a_type, Form, qualified,
  unqualified, new_type,
}
use strong_soap.XmlReader.{Options}
use strong_soap.XmlReader.Values.{
  Json, undefined, null_value, text, array, object, boolean, Items, no_item, item, Fields, no_field,
  field, get_field,
}
use strong_soap.XmlWriter.Values.{
  Calls, done, attribute, add_text, add_raw, add_cdata, child, then_calls, is_nullish,
  to_xml_date_or_time, sort_keys, defined,
}

-- What the handler is made with. `iso` is `new Date(v).toISOString()`, `nonzero` tells whether a number
-- counts as true, `restriction` is the `enforce` of a simple type's restriction, `described` the
-- descriptor of a schema's type, and `subtype` the elements of the type of that name among those
-- that extend an element's type.
pub record Handler : Type 0 where
  pub options : Options
  pub ignore_unknown_properties : Bool
  pub enforce_restrictions : Bool
  pub timezone_enabled : Bool
  pub iso : Json → Option String
  pub nonzero : Json → Bool
  pub restriction : QName → Option (Json → Result Json)
  pub described : QName → Result (Option TypeDescriptor)
  pub subtype : ElementDescriptor → Json → Option Elements

-- What a call does to the context, and the calls on the element that it is given.
abbrev pub Writer : Type 0
Writer = NamespaceContext → Result (NamespaceContext × Calls)

abbrev pub write_nothing : Writer
write_nothing c = ok (c, done)

infixr 4 ◌and_then◌
abbrev pub ◌and_then◌ : Writer → Writer → Writer
◌and_then◌ a b c = a c >>= λ r. b r.0 >>= λ s. ok (s.0, then_calls r.1 s.1)

-- `declareNamespace(nsContext, node, prefix, nsURI)`: where the mapping is new, the node gets its
-- attribute.
unfoldable pub declare_on :
    Option String → String → NamespaceContext → Result (NamespaceContext × (Option Mapping × Calls))
declare_on prefix ns_uri c = do
  (c', found) ← declare_namespace c prefix ns_uri
  ok (
    c',
    (
      found,
      (elim found [
        | none ↦ done
        | some m ↦ attribute (String.◌++◌ "xmlns:" m.prefix) (text m.uri) done
      ]),
    ),
  )

abbrev pub uri_of : QName → String
uri_of q = or_else q.ns_uri ""

-- `prefix ? prefix + ':' + name : name`
abbrev pub prefixed : Option String → String → String
prefixed none n = n
prefixed (some p) n = if p == "" then n else String.◌++◌ p (String.◌++◌ ":" n)

-- `mapping ? mapping.prefix : qname.prefix`
abbrev pub prefix_by : Option Mapping → QName → Option String
prefix_by none q = q.prefix
prefix_by (some m) q = some m.prefix

-- The branch of `jsonToXml` for an attribute.
unfoldable pub attribute_by : Form → QName → Json → Writer
unfolding declare_on
attribute_by unqualified q v c = ok (c, attribute q.name v done)
attribute_by qualified q v c = do
  (c', (found, calls)) ← declare_on q.prefix (uri_of q) c
  ok (c', then_calls calls (attribute (prefixed (prefix_by found q) q.name) v done))

unfoldable pub write_attribute : Handler → AttributeDescriptor → Json → Writer
unfolding attribute_by
write_attribute h a val =
    attribute_by a.form a.qname (to_xml_date_or_time h.iso a.type h.timezone_enabled val)

-- `QName.parse(v, nsURI)` of a value.
unfoldable pub parse_value_name : Handler → Json → Resolver → Result QName
parse_value_name h (text t) ns = parse (some t) ns
parse_value_name h undefined ns = parse none ns
parse_value_name h null_value ns = parse none ns
parse_value_name h (boolean false) ns = parse none ns
parse_value_name h (Json.number t) ns =
    if h.nonzero (Json.number t) then throw assertion else parse none ns
parse_value_name h v ns = throw assertion

abbrev pub resolver_of : Json → Resolver
resolver_of undefined = null
resolver_of null_value = null
resolver_of (text t) = uri t
resolver_of v = Resolver.other

abbrev pub field_resolver : Option Json → Resolver
field_resolver none = null
field_resolver (some x) = resolver_of x

abbrev pub object_name : Handler → Fields → Option Json → Result QName
object_name h d none = parse_value_name h (object d) null
object_name h d (some t) = parse_value_name h t (field_resolver (get_field "xmlns" d))

-- The name that the value of $xsiType stands for: an object with type and xmlns, or a text.
unfoldable pub xsi_type_name : Handler → Json → Result QName
unfolding parse_value_name
xsi_type_name h null_value = throw type_error
xsi_type_name h (object d) = object_name h d (defined (get_field "type" d))
xsi_type_name h v = parse_value_name h v null

abbrev pub described_by : Handler → Option Json → Result (Option TypeDescriptor)
described_by h none = ok none
described_by h (some v) = xsi_type_name h v >>= h.described

-- `getXsiType`
unfoldable pub get_xsi_type : Handler → Json → Result (Option TypeDescriptor)
unfolding xsi_type_name
get_xsi_type h (object d) = described_by h (get_field h.options.xsi_type_key d)
get_xsi_type h attrs = ok none

-- The last attribute descriptor with a name, as a dictionary by name keeps it.
unfoldable pub last_attribute : List AttributeDescriptor → String → Option AttributeDescriptor
last_attribute [] n = none
last_attribute (a ∷ l) n = elim (last_attribute l n) [
  | some b ↦ some b
  | none ↦ if a.qname.name == n then some a else none
]

unfoldable pub last_element : Elements → String → Option ElementDescriptor
last_element nil n = none
last_element (cons e es) n = elim (last_element es n) [
  | some x ↦ some x
  | none ↦ if (info e).qname.name == n then some e else none
]

abbrev pub attributes_of : Option TypeDescriptor → List AttributeDescriptor
attributes_of none = []
attributes_of (some t) = attributes t

abbrev pub elements_of : Option TypeDescriptor → Elements
elements_of none = nil
elements_of (some t) = elements t

-- The attribute xsi:type.
unfoldable pub write_xsi_type : Handler → Json → Writer
unfolding xsi_type_name declare_on
write_xsi_type h v c = do
  q ← xsi_type_name h v
  (c', (_, calls)) ← declare_on (some "xsi") "http://www.w3.org/2001/XMLSchema-instance" c
  (c'', (found, more)) ← declare_on q.prefix (uri_of q) c'
  let name = prefixed (prefix_by found q) q.name
  ok (c'', then_calls calls (then_calls more (attribute "xsi:type" (text name) done)))

-- An attribute with its descriptor, or with a new one.
unfoldable pub write_known : Handler → Option AttributeDescriptor → String → Json → Writer
unfolding write_attribute
write_known h (some a) p v = write_attribute h a v
write_known h none p v = if h.ignore_unknown_properties then write_nothing else (λ c. do
  q ← parse (some p) null
  write_attribute h (record { qname = q; type = none; form = unqualified }) v c)

-- The loop of `addAttributes`.
unfoldable pub write_fields : Handler → List AttributeDescriptor → Fields → Writer
unfolding write_xsi_type write_known last_attribute
write_fields h known no_field = write_nothing
write_fields h known (field p v d) =
    (if p == h.options.xsi_type_key
      then write_xsi_type h v
      else write_known h (last_attribute known p) p v)
    and_then write_fields h known d

-- The keys of an array are its indices.
unfoldable pub indexed : ℕ → Items → Fields
indexed n no_item = no_field
indexed n (item v xs) = field (decimal n) v (indexed (suc n) xs)

unfoldable pub add_attributes : Handler → Option TypeDescriptor → Json → Writer
unfolding write_fields indexed
add_attributes h t (object d) = write_fields h (attributes_of t) d
add_attributes h t (array xs) = write_fields h (attributes_of t) (indexed 0 xs)
add_attributes h t attrs = write_nothing

abbrev pub element_names : Elements → List String
element_names nil = []
element_names (cons e es) = (info e).qname.name ∷ element_names es

abbrev pub is_array : Json → Bool
is_array (array xs) = true
is_array v = false

-- `new ElementDescriptor(QName.parse(p), null, 'unqualified', Array.isArray(child))`
abbrev pub unknown_element : QName → Json → ElementDescriptor
unknown_element q v =
    element
      (record {
        qname = q;
        type = none;
        form = unqualified;
        is_many = is_array v;
        is_simple = false;
        is_nillable = false;
        js_type = none;
      })
      new_type

-- The descriptor for a property: the element or attribute of that name, or a new element.
unfoldable pub child_descriptor :
    Handler
    → Option ElementDescriptor
    → Option AttributeDescriptor
    → String
    → Json
    → Result (Option Item)
child_descriptor h (some e) a p v = ok (some (an_element e))
child_descriptor h none (some a) p v = ok (some (an_attribute a))
child_descriptor h none none p v =
    if h.ignore_unknown_properties
    then ok none
    else (do q ← parse (some p) null; ok (some (an_element (unknown_element q v))))

abbrev pub write_found : (Item → Json → Writer) → Option Item → Json → Writer
write_found write none v = write_nothing
write_found write (some x) v = write x v

abbrev pub write_property :
    Handler → (Item → Json → Writer) → Option TypeDescriptor → String → Option Json → Writer
write_property h write t p none = write_nothing
write_property h write t p (some v) = λ c.
    child_descriptor h (last_element (elements_of t) p) (last_attribute (attributes_of t) p) p v
    >>= λ found. write_found write found v c

-- The loop of `mapObject` over the sorted names; `write` is the recursive call.
unfoldable pub write_children :
    Handler → (Item → Json → Writer) → Option TypeDescriptor → Fields → List String → Writer
unfolding child_descriptor last_element last_attribute
write_children h write t d [] = write_nothing
write_children h write t d (p ∷ names) =
    (if p == h.options.attributes_key
      then write_nothing
      else write_property h write t p (get_field p d))
    and_then write_children h write t d names

-- `descriptor = xsiType || descriptor`
abbrev pub or_type : Option TypeDescriptor → Option TypeDescriptor → Option TypeDescriptor
or_type none t = t
or_type (some x) t = some x

-- `mapObject` for a descriptor that is not an element's own, or has no type: a simple value keeps its
-- form.
unfoldable pub map_object :
    Handler → (Item → Json → Writer) → Option TypeDescriptor → Json → Json → Writer
unfolding get_xsi_type write_children add_attributes
map_object h write t undefined attrs c = ok (c, done)
map_object h write t null_value attrs c = ok (c, done)
map_object h write t (object d) attrs c = do
  x ← get_xsi_type h attrs
  let u = or_type x t
  let names = sort_keys d (element_names (elements_of u))
  (write_children h write u d names and_then add_attributes h u attrs) c
map_object h write t (array xs) attrs c = do
  x ← get_xsi_type h attrs
  add_attributes h (or_type x t) attrs c
map_object h write t v attrs c = ok (c, add_text v done)
