-- ===== src/XmlWriter/Element.antt =====
-- src/parser/xmlHandler.js: the branch of `jsonToXml` for elements, and the whole.
-- `jsonToXml` calls itself for the parts of a value, so the depth of the value is enough fuel.
pub mod Scopes
pub mod Depth
pub mod Fuel
mod Tests
use Prim.Native.String
use Prim.Native.Nat.{max}
use strong_soap.Common.{
  ℕ, zero, suc, String, Bool, true, false, ◌&&◌, ◌==◌, Option, none, some, if◌then◌else◌, truthy,
  truthy?,
}
use strong_soap.Common.Result.{Result, ok, throw, diverge, type_error, ◌>>=◌}
use strong_soap.QName.{QName}
use strong_soap.NsContext.{
  NamespaceContext, PrefixMapping, new_context, push_context, pop_context, reserved, mapping,
  get_prefix_mapping, declare_namespace,
}
use strong_soap.Descriptor.{
  ElementDescriptor, element, TypeDescriptor, descriptor, Elements, nil, cons, info, content, Item,
  an_element, an_attribute, a_type, other, Form, qualified, unqualified,
}
use strong_soap.XmlReader.Values.{
  Json, undefined, null_value, text, array, object, boolean, Items, no_item, item, Fields, no_field,
  field, get_field,
}
use strong_soap.XmlWriter.Values.{
  Calls, done, attribute, add_text, add_raw, add_cdata, child, then_calls, is_nullish,
  to_xml_date_or_time, has_cdata, without_first, defined, depth,
}
use strong_soap.XmlWriter.{
  Handler, Writer, write_nothing, ◌and_then◌, declare_on, uri_of, prefixed, prefix_by,
  write_attribute, add_attributes, map_object,
}

-- A property of the value, where it is an object with that property and not undefined.
abbrev pub own_field : String → Json → Option Json
own_field k (object d) = defined (get_field k d)
own_field k v = none

abbrev pub value_or : Option Json → Json → Json
value_or none v = v
value_or (some w) v = w

-- `attrs` and `val` behind the look at the keys for attributes and for the value.
abbrev pub own_attributes : Handler → Json → Json
own_attributes h v = value_or (own_field h.options.attributes_key v) null_value

abbrev pub own_value : Handler → Json → Json
own_value h v = value_or (own_field h.options.value_key v) v

-- The name in the document, and the name of the attribute that declares its namespace.
pub record Named : Type 0 where
  pub name : String
  pub xmlns : Option String

abbrev pub xmlns_name : Option String → String
xmlns_name none = "xmlns"
xmlns_name (some p) = if p == "" then "xmlns" else String.◌++◌ "xmlns:" p

unfoldable pub declare_element : QName → NamespaceContext → Result (NamespaceContext × Named)
declare_element q c = do
  (c', found) ← declare_namespace c q.prefix (uri_of q)
  let p = prefix_by found q
  ok (c', record { name = prefixed p q.name; xmlns = some (xmlns_name p) })

-- For the two reserved namespaces the mapping is a text, which has no prefix.
unfoldable pub name_by :
    QName → Option PrefixMapping → NamespaceContext → Result (NamespaceContext × Named)
unfolding declare_element
name_by q none c = declare_element q c
name_by q (some (reserved t)) c = ok (c, record { name = q.name; xmlns = none })
name_by q (some (mapping m)) c =
    if m.declared
    then ok (c, record { name = prefixed (some m.prefix) q.name; xmlns = none })
    else declare_element q c

unfoldable pub name_element : Form → QName → NamespaceContext → Result (NamespaceContext × Named)
unfolding name_by
name_element unqualified q c = ok (c, record { name = q.name; xmlns = none })
name_element qualified q c = name_by q (get_prefix_mapping c (uri_of q) false) c

-- The restriction of a simple type.
abbrev pub by_restriction : Option (Json → Result Json) → Json → Result Json
by_restriction none v = ok v
by_restriction (some enforce) v = enforce v

abbrev pub enforced_by : Handler → Option QName → Json → Result Json
enforced_by h none v = ok v
enforced_by h (some q) v = by_restriction (h.restriction q) v

unfoldable pub enforced : Handler → ElementDescriptor → Json → Result Json
enforced h e v = if h.enforce_restrictions then enforced_by h (info e).type v else ok v

-- The new element: the second argument of `element`, the first calls on it, and `val` after them.
pub record Started : Type 0 where
  pub argument : Option Json
  pub calls : Calls
  pub value : Json

unfoldable pub start_cdata : Json → Result Started
unfolding without_first
start_cdata (text t) =
    let u = text (without_first "]]>" (without_first "<![CDATA[" t)) in
    ok (record { argument = none; calls = add_cdata u done; value = u })
start_cdata v = throw type_error

unfoldable pub start_plain : Handler → ElementDescriptor → Json → Result Started
unfolding enforced
start_plain h e v = do
  w ← enforced h e v
  let u = to_xml_date_or_time h.iso (info e).type h.timezone_enabled w
  ok (record { argument = if (info e).is_simple then some u else none; calls = done; value = u })

-- The last argument is the value's property for XML that is written as it is.
unfoldable pub start_raw : Handler → ElementDescriptor → Json → Option Json → Result Started
unfolding start_plain
start_raw h e v none = start_plain h e v
start_raw h e v (some x) =
    let u = to_xml_date_or_time h.iso (info e).type h.timezone_enabled x in
    ok (record { argument = none; calls = add_raw u done; value = u })

unfoldable pub start_element : Handler → ElementDescriptor → Json → Result Started
unfolding start_cdata start_raw has_cdata
start_element h e v =
    if (info e).is_simple && has_cdata v
    then start_cdata v
    else if (info e).is_simple
    then start_raw h e v (own_field h.options.xml_key v)
    else start_plain h e v

-- `element.attribute(xmlns, nsURI)`
abbrev pub xmlns_call : Named → QName → Calls
xmlns_call n q = elim n.xmlns [
  | none ↦ done
  | some x ↦ if uri_of q == "" then done else attribute x (text (uri_of q)) done
]

-- The attribute xsi:nil.
unfoldable pub write_nil : ElementDescriptor → Json → Writer
unfolding declare_on
write_nil e v c =
    if is_nullish v && (info e).is_nillable
    then (do
      (c', (_, calls)) ← declare_on (some "xsi") "http://www.w3.org/2001/XMLSchema-instance" c
      ok (c', then_calls calls (attribute "xsi:nil" (boolean true) done)))
    else ok (c, done)

abbrev pub append_elements : Elements → Elements → Elements
append_elements nil fs = fs
append_elements (cons e es) fs = cons e (append_elements es fs)

-- The element's type, with the elements of the type that xsi:type names.
abbrev pub with_subtype : Option Elements → TypeDescriptor → TypeDescriptor
with_subtype none t = t
with_subtype (some fs) (descriptor es ats x mixed) = descriptor (append_elements es fs) ats x mixed

abbrev pub subtype_of : Handler → ElementDescriptor → Option Json → Option Elements
subtype_of h e (some (object d)) = elim (get_field h.options.xsi_type_key d) [
  | none ↦ none
  | some t ↦ h.subtype e t
]
subtype_of h e attrs = none

abbrev pub widened : Handler → ElementDescriptor → Json → TypeDescriptor
widened h e v = with_subtype (subtype_of h e (own_field h.options.attributes_key v)) (content e)

-- `val != null && (typeof val !== 'object' || val instanceof Date)`
abbrev pub is_plain : Json → Bool
is_plain undefined = false
is_plain null_value = false
is_plain (array xs) = false
is_plain (object d) = false
is_plain v = true

-- What is written into the new element; `write` is the recursive call.
unfoldable pub write_content :
    Handler → (Item → Json → Writer) → ElementDescriptor → Json → Json → Writer
unfolding add_attributes map_object
write_content h write e v attrs c =
    if (info e).is_simple
    then add_attributes h (some (content e)) attrs c
    else if is_nullish v
    then ok (c, done)
    else if is_plain v
    then ((λ c.
            ok (c, add_text (to_xml_date_or_time h.iso (info e).type h.timezone_enabled v) done))
          and_then add_attributes h (some (content e)) attrs)
        c
    else map_object h write (some (widened h e v)) v attrs c

-- One element, between `pushContext` and `popContext`.
unfoldable pub write_element : Handler → (Item → Json → Writer) → ElementDescriptor → Json → Writer
unfolding name_element start_element write_nil write_content
write_element h write e v c = do
  (c1, named) ← name_element (info e).form (info e).qname (push_context c)
  s ← start_element h e (own_value h v)
  (c2, nil_calls) ← write_nil e s.value c1
  (c3, inner) ← write_content h write e s.value (own_attributes h v) c2
  ok (
    (pop_context c3).0,
    child named.name s.argument
        (then_calls s.calls
          (then_calls (xmlns_call named (info e).qname) (then_calls nil_calls inner)))
        done,
  )

-- `for (...) node = this.jsonToXml(node, nsContext, descriptor, val[i])`
unfoldable pub write_items : (Json → Writer) → Items → Writer
write_items write no_item = write_nothing
write_items write (item v xs) = write v and_then write_items write xs

unfoldable pub write_value : Handler → (Item → Json → Writer) → ElementDescriptor → Json → Writer
unfolding write_items write_element
write_value h write e (array xs) =
    if (info e).is_many
    then write_items (write (an_element e)) xs
    else write_element h write e (array xs)
write_value h write e v = write_element h write e v

unfoldable pub json_to_xml : Handler → ℕ → Item → Json → Writer
unfolding write_value write_attribute map_object
json_to_xml h zero d v = λ c. diverge
json_to_xml h (suc f) d v = elim d [
  | an_attribute a ↦ write_attribute h a v
  | an_element e ↦ write_value h (json_to_xml h f) e v
  | a_type t ↦ map_object h (json_to_xml h f) (some t) v undefined
  | other ↦ map_object h (json_to_xml h f) none v undefined
]

-- `jsonToXml(node, nsContext, descriptor, val)`, with a new context where none is given.
unfoldable pub write_document :
    Handler → Option NamespaceContext → Item → Json → Result (NamespaceContext × Calls)
unfolding json_to_xml depth
write_document h context d v =
    json_to_xml h (suc (depth v)) d v (elim context [ none ↦ new_context | some c ↦ c ])
