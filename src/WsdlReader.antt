-- ===== src/WsdlReader.antt =====
-- The reading of a WSDL or XSD document: `_parse` of src/parser/wsdl.js with the elements of
-- src/parser/element.js, as a machine on the events of the sax parser. An element is here what every
-- class keeps of it; what `addChild` of its class keeps follows from its children in their order, and
-- only that of src/parser/wsdl/types.js refuses a child.
pub mod Registry
pub mod Roots
pub mod Reading
mod Tests
use Prim.Native.String
use strong_soap.Common.{
  String, Bool, true, false, not, ◌==◌, Option, none, some, List, [], ◌∷◌, if◌then◌else◌, truthy?,
  truthy, or_else,
}
use strong_soap.Common.Dict.{Dict, get, put}
use strong_soap.Common.Result.{Result, ok, throw, error, assertion, ◌>>=◌}
use strong_soap.QName.{QName, parse, null}
use strong_soap.XmlReader.{Event, opened, closed, text_read}
use strong_soap.XmlReader.Values.{after}
use strong_soap.WsdlReader.Registry.{
  ElementClass, registered, plain, has_children, get_element_type, modern_uri, xml_uri, wsdl_uri,
  xsd_uri, accepts_child,
}

-- What the constructor of an element and `startElement` set. `attributes` are the properties whose
-- names begin with $, and `value` is the property under the option valueKey.
pub record Head : Type 0 where
  pub ns_name : String
  pub prefix : String
  pub name : String
  pub ns_uri : Option String
  pub element_class : ElementClass
  pub xmlns : Dict String
  pub attributes : Dict String
  pub value : Option String
  pub target_namespace : Option String

mutual
  pub data Tree : Type 0 where
    tree : Head → Trees → Tree

  pub data Trees : Type 0 where
    no_tree : Trees
    a_tree : Tree → Trees → Trees

unfoldable pub push_tree : Trees → Tree → Trees
push_tree no_tree t = a_tree t no_tree
push_tree (a_tree s ts) t = a_tree s (push_tree ts t)

-- An open element with its children so far. The stack has the innermost one first; an element's
-- parent is the one below it.
pub record Frame : Type 0 where
  pub head : Head
  pub children : Trees

-- The prefix that an attribute declares, where its name matches `/^xmlns:?(.*)$/`.
unfoldable pub xmlns_prefix : String → Option String
xmlns_prefix a = elim (after "xmlns" a) [
  | none ↦ none
  | some r ↦ elim (after ":" r) [ none ↦ some r | some p ↦ some p ]
]

unfoldable pub declared : Dict String → Dict String → Dict String
unfolding xmlns_prefix
declared d [] = d
declared d ((a, v) ∷ attrs) =
    declared (elim (xmlns_prefix a) [ none ↦ d | some p ↦ put p (modern_uri v) d ]) attrs

unfoldable pub own_attributes : Dict String → Dict String → Dict String
unfolding xmlns_prefix
own_attributes d [] = d
own_attributes d ((a, v) ∷ attrs) =
    own_attributes
      (elim (xmlns_prefix a) [ none ↦ (if a == "value" then d else put a v d) | some p ↦ d ]) attrs

-- `new Element(nsName, attrs, options)`.
unfoldable pub new_head : String → Dict String → ElementClass → Result Head
unfolding declared own_attributes
new_head ns_name attrs c = do
  q ← parse (some ns_name) null
  ok (record {
    ns_name = ns_name;
    prefix = or_else q.prefix "";
    name = q.name;
    ns_uri = some "";
    element_class = c;
    xmlns = declared [] attrs;
    attributes = own_attributes [] attrs;
    value = get "value" attrs;
    target_namespace = elim (get "targetNamespace" attrs) [
      | none ↦ none
      | some u ↦ if truthy u then some u else none
    ];
  })

-- `getNamespaceURI` of an element on the stack.
unfoldable pub find_namespace : String → List Frame → Option String
find_namespace p [] = none
find_namespace p (f ∷ fs) = elim (get p f.head.xmlns) [
  | some u ↦ some u
  | none ↦ find_namespace p fs
]

-- The same of an element with the given declarations that is to stand on the stack.
unfoldable pub get_namespace_uri : String → Dict String → List Frame → Option String
unfolding find_namespace
get_namespace_uri p xmlns fs =
    if p == "xml"
    then some xml_uri
    else elim (get p xmlns) [ some u ↦ some u | none ↦ find_namespace p fs ]

-- `getTargetNamespace`.
unfoldable pub get_target_namespace : List Frame → Option String
get_target_namespace [] = none
get_target_namespace (f ∷ fs) =
    let outer = get_target_namespace fs in
    if truthy? f.head.target_namespace then f.head.target_namespace else outer

-- `startElement`. Only an invalid name makes it throw, and then the second try of `onopentag` throws
-- too, so that the option strict changes nothing.
unfoldable pub start_element : String → Dict String → Frame → List Frame → Result (List Frame)
unfolding new_head get_namespace_uri get_target_namespace
start_element ns_name attrs top below =
    if has_children top.head.element_class
    then (do
      q ← parse (some ns_name) null
      let uri = get_namespace_uri (or_else q.prefix "") (declared [] attrs) (top ∷ below)
      h ← new_head ns_name attrs (get_element_type uri q.name)
      let own = get "targetNamespace" attrs
      let target = if truthy? own then own else get_target_namespace (top ∷ below)
      ok (
          record { head = record h { ns_uri = uri; target_namespace = target }; children = no_tree }
          ∷ top
          ∷ below))
    else ok (top ∷ below)

-- `helper.extend(base, obj)`.
unfoldable pub extend : Dict String → Dict String → Dict String
extend base [] = base
extend base ((k, v) ∷ obj) = extend (elim (get k base) [ some u ↦ base | none ↦ put k v base ]) obj

abbrev pub extend_frame : Dict String → Frame → Frame
extend_frame x f = record {
  head = record (f.head) { xmlns = extend f.head.xmlns x };
  children = f.children;
}

-- The declarations of an element that ends go to `stack[0]`, the outermost.
unfoldable pub extend_root : Dict String → Frame → List Frame → List Frame
unfolding extend
extend_root x f [] = extend_frame x f ∷ []
extend_root x f (g ∷ fs) = f ∷ extend_root x g fs

-- `parent.children.push(this); parent.addChild(this)`, with the parent put together first.
abbrev pub with_child : Frame → Frame → Frame
with_child parent top = record {
  head = parent.head;
  children = push_tree parent.children (tree top.head top.children);
}

unfoldable pub add_child : Frame → Frame → Result Frame
unfolding push_tree
add_child parent top =
    if accepts_child parent.head.element_class top.head.element_class
    then ok (with_child parent top)
    else throw assertion

-- `endElement`: the outermost element stays on the stack.
unfoldable pub end_element : String → Frame → List Frame → Result (List Frame)
unfolding extend_root add_child
end_element ns_name top [] = ok (top ∷ [])
end_element ns_name top (parent ∷ below) =
    if top.head.ns_name == ns_name
    then (add_child parent top >>= λ p. ok (extend_root top.head.xmlns p below))
    else ok (top ∷ parent ∷ below)

-- `stack` and `text`.
pub record State : Type 0 where
  pub stack : List Frame
  pub text : String

abbrev pub set_value : String → Frame → Frame
set_value t f =
    if t == ""
    then f
    else record { head = record (f.head) { value = some t }; children = f.children }

-- The first element: `definitions`, or `schema`, for which definitions are put around.
unfoldable pub open_root : String → Dict String → Result (List Frame)
unfolding new_head
open_root ns_name attrs = do
  q ← parse (some ns_name) null
  if q.name == "definitions"
      then (do
        h ← new_head ns_name attrs (registered wsdl_uri "definitions")
        ok (record { head = h; children = no_tree } ∷ []))
      else if q.name == "schema"
      then (do
        h ← new_head ns_name attrs (registered xsd_uri "schema")
        ok (record { head = h; children = no_tree } ∷ []))
      else throw (error "Unexpected root element of {{WSDL}} or include")

abbrev pub without_text : List Frame → State
without_text fs = record { stack = fs; text = "" }

unfoldable pub open_tag : String → Dict String → List Frame → Result State
unfolding start_element open_root
open_tag ns_name attrs [] = open_root ns_name attrs >>= λ fs. ok (without_text fs)
open_tag ns_name attrs (top ∷ below) =
    start_element ns_name attrs top below >>= λ fs. ok (without_text fs)

unfoldable pub close_tag : String → String → List Frame → Result State
unfolding end_element
close_tag ns_name t [] = throw assertion
close_tag ns_name t (top ∷ below) =
    end_element ns_name (set_value t top) below >>= λ fs. ok (without_text fs)

unfoldable pub handle : Event → State → Result State
unfolding open_tag close_tag
handle (opened ns_name attrs) s = open_tag ns_name attrs s.stack
handle (closed ns_name) s = close_tag ns_name s.text s.stack
handle (text_read t) s = ok (record { stack = s.stack; text = String.◌++◌ s.text t })

unfoldable pub run : List Event → State → Result State
unfolding handle
run [] s = ok s
run (e ∷ es) s = handle e s >>= run es
