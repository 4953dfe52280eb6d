-- ===== src/XmlReader.antt =====
-- src/parser/xmlHandler.js: `xmlToJson` and `_processText`, as a machine on the events of the sax
-- parser. A frame holds the object of an open element; the code sets that object into its parent's
-- when the element closes, so that no two frames share one. The merging of multi-references (the
-- attributes href and id) is left out.
pub mod Values
pub mod Tree
pub mod Placing
pub mod Singles
pub mod Finish
mod Tests
use Prim.Native.String
use strong_soap.Common.{
  String, Bool, true, false, ◌&&◌, ◌||◌, ◌==◌, Option, none, some, List, [], ◌∷◌, if◌then◌else◌,
  truthy?, is_text, or_else,
}
use strong_soap.Common.Dict.{Dict}
use strong_soap.Common.Result.{Result, ok, throw, type_error, ◌>>=◌}
use strong_soap.QName.{QName, parse, null}
use strong_soap.NsContext.{
  NamespaceContext, get_namespace_uri, add_namespace, push_context, pop_context,
}
use strong_soap.Descriptor.{
  TypeDescriptor, ElementDescriptor, Item, an_element, a_type, other, info, content, find_element,
}
use strong_soap.XmlReader.Values.{
  Json, undefined, null_value, text, array, object, Fields, no_field, field, no_item, item,
  get_field, put_field, push_item, parse_value, plus, trim, after,
}

-- The keys of the handler's options.
pub record Options : Type 0 where
  pub value_key : String
  pub xml_key : String
  pub attributes_key : String
  pub xsi_type_key : String

-- `new XMLHandler(schemas, options)` fills in the keys that are missing.
abbrev pub new_options : Option String → Option String → Option String → Option String → Options
new_options value xml attributes type = record {
  value_key = or_else value "$value";
  xml_key = or_else xml "$xml";
  attributes_key = or_else attributes "$attributes";
  xsi_type_key = or_else type "$xsiType";
}

pub record Frame : Type 0 where
  pub name : Option String
  pub value : Json
  pub described : Item

-- `nsContext` and `stack`.
pub data State : Type 0 where
  state : NamespaceContext → List Frame → State

abbrev pub xsi_uri : String
xsi_uri = "http://www.w3.org/2001/XMLSchema-instance"

-- The prefix that an attribute declares, where its name matches `/^xmlns:|^xmlns$/`.
abbrev pub declared_prefix : String → Option String
declared_prefix a = if a == "xmlns" then some "" else after "xmlns:" a

-- The first loop over the attributes.
unfoldable pub register_namespaces : NamespaceContext → Dict String → NamespaceContext
register_namespaces c [] = c
register_namespaces c ((a, v) ∷ attrs) =
    register_namespaces
      (elim (declared_prefix a) [ none ↦ c | some p ↦ (add_namespace c p v false).0 ]) attrs

-- The element's value so far and its attributes; the latter are null before the first.
pub record Opened : Type 0 where
  pub value : Json
  pub attributes : Option Fields

abbrev pub with_attribute : Opened → String → Json → Opened
with_attribute o n v = record o {
  attributes = some (put_field n v (elim o.attributes [ none ↦ no_field | some d ↦ d ]));
}

abbrev text_or_null : Option String → Json
text_or_null none = null_value
text_or_null (some s) = text s

-- The value of $xsiType: the local name of the type and the URI of its prefix.
unfoldable pub xsi_type : NamespaceContext → String → Result Json
xsi_type c v = do
  t ← parse (some v) null
  let uri : Option String =
      if truthy? t.prefix then get_namespace_uri c (or_else t.prefix "") false else none
  ok (object (field "type" (text t.name) (field "xmlns" (text_or_null uri) no_field)))

-- One round of the second loop. The code also parses the attribute's value by its descriptor, and
-- keeps the text all the same.
unfoldable pub read_attribute :
    Options → NamespaceContext → String → String → Opened → Result Opened
unfolding xsi_type
read_attribute options c a v o = elim (declared_prefix a) [
  | some p ↦ ok o
  | none ↦ do
    q ← parse (some a) null
    let is_xsi = is_text (get_namespace_uri c (or_else q.prefix "") false) xsi_uri
    if is_xsi && q.name == "nil"
        then ok (if v == "true" then record o { value = null_value } else o)
        else if is_xsi && q.name == "type"
        then (do t ← xsi_type c v; ok (with_attribute o options.xsi_type_key t))
        else ok (with_attribute o q.name (text v))
]

unfoldable pub read_attributes : Options → NamespaceContext → Dict String → Opened → Result Opened
unfolding read_attribute
read_attributes options c [] o = ok o
read_attributes options c ((a, v) ∷ attrs) o =
    read_attribute options c a v o >>= read_attributes options c attrs

-- `descriptor && descriptor.findElement(name)`
unfoldable pub child_item : Item → String → Item
unfolding find_element
child_item (an_element e) n = elim (find_element (content e) n) [
  | none ↦ other
  | some x ↦ an_element x
]
child_item (a_type t) n = elim (find_element t n) [ none ↦ other | some x ↦ an_element x ]
child_item _ n = other

abbrev pub is_many_item : Item → Bool
is_many_item (an_element e) = (info e).is_many
is_many_item _ = false

-- The namespaces in force inside an element.
unfoldable pub entered : NamespaceContext → Dict String → NamespaceContext
unfolding register_namespaces
entered contexts attrs = register_namespaces (push_context contexts) attrs

-- The frame of an element that opens, with the namespaces in force inside and the parent's
-- descriptor.
unfoldable pub new_frame : Options → NamespaceContext → Item → String → Dict String → Result Frame
unfolding read_attributes child_item
new_frame options c parent name attrs = do
  o ← read_attributes options c attrs (record { value = undefined; attributes = none })
  q ← parse (some name) null
  ok (record {
    name = some q.name;
    value = elim o.attributes [
      | none ↦ o.value
      | some d ↦ object (field options.attributes_key (object d) no_field)
    ];
    described = child_item parent q.name;
  })

-- `p.onopentag`
unfoldable pub open_tag : Options → String → Dict String → State → Result State
unfolding new_frame
open_tag options name attrs (state c []) = throw type_error
open_tag options name attrs (state c (top ∷ below)) = do
  frame ← new_frame options (entered c attrs) top.described name attrs
  ok (state (entered c attrs) (frame ∷ (top ∷ below)))

-- The value that the key has after another element with that name: an array from the second on, or
-- from the first on where the descriptor says so.
unfoldable pub joined : Bool → Option Json → Json → Json
joined is_many (some (array xs)) v = array (push_item xs v)
joined is_many (some old) v = array (item old (item v no_item))
joined is_many none v = if is_many then array (item v no_item) else v

-- The value of the parent after a child closes. In strict mode a property of a text, number or
-- boolean cannot be set. A property of an array or a Date is set beside what they hold.
unfoldable pub place : Bool → String → Json → Json → Result Json
unfolding joined
place is_many name v undefined = ok (object (put_field name (joined is_many none v) no_field))
place is_many name v null_value = ok null_value
place is_many name v (object d) =
    ok (object (put_field name (joined is_many (get_field name d) v) d))
place is_many name v (array xs) = ok (array xs)
place is_many name v (Json.date t) = ok (Json.date t)
place is_many name v _ = throw type_error

-- `p.onclosetag`, with the name that it parses from the tag.
unfoldable pub close_tag : String → State → Result State
unfolding place
close_tag name (state c (current ∷ (top ∷ below))) = do
  q ← parse (some name) null
  v ← place (is_many_item current.described) q.name current.value top.value
  ok (state (pop_context c).0 (record top { value = v } ∷ below))
close_tag name s = do q ← parse (some name) null; throw type_error

-- What the value of the value key becomes.
abbrev pub added : Option Json → Json → Json
added none v = v
added (some undefined) v = v
added (some old) v = plus old v

-- `_processText`
unfoldable pub process_text : Options → Json → Json → Json
process_text options null_value v = null_value
process_text options undefined v = v
process_text options (object d) v =
    object (put_field options.value_key (added (get_field options.value_key d) v) d)
process_text options old v = plus old v

-- What a text makes of the innermost open element's value.
unfoldable pub text_value : Options → String → Item → Json → Json
unfolding process_text
text_value options t described v =
    let value = process_text options v (parse_value (trim t) described) in
    if trim t == "" then v else value

-- `p.ontext`
unfoldable pub on_text : Options → String → State → Result State
unfolding text_value
on_text options t (state c []) = if trim t == "" then ok (state c []) else throw type_error
on_text options t (state c (top ∷ below)) =
    ok (state c (record top { value = text_value options t top.described top.value } ∷ below))

-- What the sax parser reports.
pub data Event : Type 0 where
  opened : (name : String) (attrs : Dict String) → Event
  closed : (name : String) → Event
  text_read : String → Event

unfoldable pub handle : Options → Event → State → Result State
unfolding open_tag close_tag on_text
handle options (opened name attrs) s = open_tag options name attrs s
handle options (closed name) s = close_tag name s
handle options (text_read t) s = on_text options t s

unfoldable pub run : Options → List Event → State → Result State
unfolding handle
run options [] s = ok s
run options (e ∷ es) s = handle options e s >>= run options es
