-- ===== src/Xsd.antt =====
-- The descriptors that elements of a schema describe: `describe` and `describeChildren` of
-- src/parser/xsd: xsdElement, element, attribute, complexType, complexContent, extension, restriction,
-- group and attributeGroup.
-- A node of a schema stands with what its references, types and bases described, since the code
-- describes these first, or finds the descriptor that it keeps. An array of elements that two
-- descriptors share is not added to here once it is shared; in a type that contains itself the code
-- shares it before all children are added.
pub mod Flat
pub mod Typing
mod Tests
use strong_soap.Common.{
  String, Bool, true, false, ◌==◌, Option, none, some, List, [], ◌∷◌, if◌then◌else◌, truthy?,
  or_else,
}
use strong_soap.Common.Result.{Result, ok, ◌>>=◌}
use strong_soap.QName.{QName, of_parts}
use strong_soap.Descriptor.{
  AttributeDescriptor, new_attribute, qualified, Extension, ElementDescriptor, ElementInfo, element,
  TypeDescriptor, descriptor, nil, new_type, new_element, clone, add, Item, an_element,
  an_attribute, a_type, other, JsType,
}

-- An element above a node: a schema with its elementFormDefault and attributeFormDefault, or another.
pub data Parent : Type 0 where
  schema : (elements attributes : Option String) → Parent
  no_schema : Parent

-- The attributes of an XML element that `describe` reads, and its parents, the nearest first.
pub record Attrs : Type 0 where
  pub target_namespace : Option String
  pub name : Option String
  pub form : Option String
  pub max_occurs : Option String
  pub nillable : Option String
  pub parents : List Parent

-- A type that is extended, as it was described.
pub record Described : Type 0 where
  pub type : TypeDescriptor
  pub extension : Extension

-- What an element refers to: another element, or a type by its target namespace and its attribute name,
-- with the descriptor or the JavaScript type that it has.
pub data Target : Type 0 where
  a_ref : ElementDescriptor → Target
  a_complex : (target_namespace name : Option String) → TypeDescriptor → Target
  a_simple : (target_namespace name : Option String) → Option JsType → Target

-- A simple type inside an element: its target namespace, and the JavaScript type of its `type`, or
-- its own.
pub record SimpleType : Type 0 where
  pub target_namespace : Option String
  pub js_type : Option JsType

mutual
  pub data Node : Type 0 where
    -- An element with a reference or a type, and one with neither.
    typed : Attrs → Target → Node
    anonymous : Attrs → Nodes → Node
    simple_type : SimpleType → Node
    complex_type : (mixed : Option String) → Nodes → Node
    complex_content : Nodes → Node
    extension : Option Described → (max_occurs : Option String) → Nodes → Node
    restriction : Option TypeDescriptor → (max_occurs : Option String) → Nodes → Node
    -- all, choice, sequence, simpleContent, any, annotation, and groups without a reference.
    particle : (max_occurs : Option String) → Nodes → Node
    -- A group or attribute group with a reference, as that was described.
    group_ref : Item → Node
    attribute : Attrs → Option QName → Node
    attribute_ref : AttributeDescriptor → Node

  pub data Nodes : Type 0 where
    end : Nodes
    node : Node → Nodes → Nodes

-- The first schema above a node and its default form; a node of the schema itself is qualified.
unfoldable pub default_form : (Option String → Option String → Option String) → List Parent → String
default_form which [] = "unqualified"
default_form which (schema e a ∷ ps) = or_else (which e a) "unqualified"
default_form which (no_schema ∷ ps) = default_form which ps

abbrev pub is_global : List Parent → Bool
is_global (schema e a ∷ ps) = true
is_global ps = false

unfoldable pub get_form : (Option String → Option String → Option String) → Attrs → String
unfolding default_form
get_form which a =
    if is_global a.parents then "qualified" else or_else a.form (default_form which a.parents)

abbrev pub element_form : Option String → Option String → Option String
element_form e a = e

abbrev pub attribute_form : Option String → Option String → Option String
attribute_form e a = a

-- `getQName`.
abbrev pub get_qname : Option String → Option String → QName
get_qname ns name = of_parts ns (or_else name "") none

unfoldable pub with_nillable : Option String → ElementDescriptor → ElementDescriptor
with_nillable nillable (element i t) =
    if truthy? nillable then element (record i { is_nillable = true }) t else element i t

abbrev pub with_extension : Extension → TypeDescriptor → TypeDescriptor
with_extension x (descriptor es ats ext mixed) = descriptor es ats (some x) mixed

abbrev pub is_simple_extension : Option Extension → Bool
is_simple_extension none = false
is_simple_extension (some x) = x.is_simple

-- An element takes over what its complex type has.
unfoldable pub of_complex : ElementDescriptor → TypeDescriptor → ElementDescriptor
of_complex (element i t) (descriptor es ats ext mixed) =
    element (record i { is_simple = is_simple_extension ext }) (descriptor es ats ext mixed)

unfoldable pub of_simple : ElementDescriptor → Option JsType → ElementDescriptor
of_simple (element i t) js = element (record i { is_simple = true; js_type = js }) t

-- The content of an anonymous complex type, without its extension.
unfoldable pub of_anonymous : ElementDescriptor → TypeDescriptor → ElementDescriptor
of_anonymous (element i (descriptor es ats ext mixed)) (descriptor es' ats' ext' mixed') =
    element (record i { is_simple = false }) (descriptor es' ats' ext mixed')

-- The descriptor to which the children are added, with what the base described.
abbrev pub add_base : Option TypeDescriptor → TypeDescriptor
add_base none = new_type
add_base (some t) = add new_type (a_type t) false

abbrev pub add_extended : Option Described → TypeDescriptor
add_extended none = new_type
add_extended (some d) = with_extension d.extension (add new_type (a_type d.type) false)

-- `Number(maxOccurs) > 1` is an argument.
module _ (exceeds_one : String → Bool) where
  abbrev pub is_many : Option String → Bool
  is_many none = false
  is_many (some s) = if s == "unbounded" then true else exceeds_one s

  -- The descriptor with which `describe` of an element begins.
  unfoldable pub begin_element : Attrs → Option QName → Result ElementDescriptor
  unfolding get_form
  begin_element a type =
      new_element (get_qname a.target_namespace a.name) type (some (get_form element_form a))
        (is_many a.max_occurs)

  abbrev pub type_name : Target → Option QName
  type_name (a_ref d) = none
  type_name (a_complex ns n t) = some (get_qname ns n)
  type_name (a_simple ns n js) = some (get_qname ns n)

  unfoldable pub to_target : Attrs → Target → ElementDescriptor → ElementDescriptor
  unfolding with_nillable of_complex of_simple
  to_target a (a_ref r) d = with_nillable a.nillable (clone r (is_many a.max_occurs))
  to_target a (a_complex ns n t) d = of_complex d t
  to_target a (a_simple ns n js) d = of_simple d js

  unfoldable pub describe_typed : Attrs → Target → Result ElementDescriptor
  unfolding begin_element with_nillable to_target
  describe_typed a target = do
    d ← begin_element a (type_name target)
    ok (to_target a target (with_nillable a.nillable d))

  -- A simple type inside an element: the descriptor is made again, with the type's name.
  unfoldable pub describe_inner : Attrs → SimpleType → Result ElementDescriptor
  unfolding begin_element of_simple
  describe_inner a s = do
    d ← begin_element a (some (get_qname s.target_namespace a.name))
    ok (of_simple d s.js_type)

  unfoldable pub describe_attribute : Attrs → Option QName → Result AttributeDescriptor
  unfolding get_form
  describe_attribute a type =
      new_attribute (get_qname a.target_namespace a.name) type (some (get_form attribute_form a))

  unfoldable mutual
    -- What `describe` returns; `other` is undefined.
    pub describe : Node → Result Item
    describe (typed a target) = do d ← describe_typed a target; ok (an_element d)
    describe (anonymous a ns) = do
      d ← begin_element a none
      d' ← describe_anonymous a (with_nillable a.nillable d) ns
      ok (an_element d')
    describe (simple_type s) = ok (a_type new_type)
    describe (complex_type mixed ns) = do
      t ← describe_children false ns (descriptor nil [] none (truthy? mixed))
      ok (a_type t)
    describe (complex_content ns) = do t ← describe_children false ns new_type; ok (a_type t)
    describe (extension base max ns) = do
      t ← describe_children (is_many max) ns (add_extended base)
      ok (a_type t)
    describe (restriction base max ns) = do
      t ← describe_children (is_many max) ns (add_base base)
      ok (a_type t)
    describe (particle max end) = ok other
    describe (particle max (node n ns)) = do
      t ← describe_children (is_many max) (node n ns) new_type
      ok (a_type t)
    describe (group_ref item) = ok item
    describe (attribute a type) = do d ← describe_attribute a type; ok (an_attribute d)
    describe (attribute_ref d) = ok (an_attribute (record d { form = qualified }))

    -- The loops over the children: each is described and added.
    pub describe_children : Bool → Nodes → TypeDescriptor → Result TypeDescriptor
    describe_children many end t = ok t
    describe_children many (node n ns) t = do
      item ← describe n
      describe_children many ns (add t item many)

    -- The loop over the children of an element without type: the first complex type ends it.
    pub describe_anonymous : Attrs → ElementDescriptor → Nodes → Result ElementDescriptor
    describe_anonymous a d end = ok d
    describe_anonymous a d (node (complex_type mixed ms) ns) = do
      t ← describe_children false ms (descriptor nil [] none (truthy? mixed))
      ok (of_anonymous d t)
    describe_anonymous a d (node (simple_type s) ns) = do
      d' ← describe_inner a s
      describe_anonymous a d' ns
    describe_anonymous a d (node n ns) = describe_anonymous a d ns
