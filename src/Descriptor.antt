-- ===== src/Descriptor.antt =====
-- src/parser/xsd/descriptor.js: descriptors of XML attributes, types and elements.
-- A descriptor is a value here. Where the code lets two descriptors share an `elements` array and
-- adds to it afterwards, the model's caller adds first (Operation/Envelope.antt). `refOriginal`, which
-- only the choice of a subtype by xsi:type reads, has no counterpart.
pub mod Adding
pub mod Gathering
mod Tests
use strong_soap.Common.{
  String, Bool, true, false, ◌||◌, ◌==◌, Option, none, some, List, [], ◌∷◌, ◌++◌, if◌then◌else◌,
}
use strong_soap.Common.Result.{Result, ok, throw, assertion, ◌>>=◌}
use strong_soap.QName.{QName}

pub data Form : Type 0 where
  qualified unqualified : Form

-- `form = form || 'qualified'` and the assertion behind it.
unfoldable pub form_of : Option String → Result Form
form_of none = ok qualified
form_of (some f) =
    if f == "" || f == "qualified"
    then ok qualified
    else if f == "unqualified"
    then ok unqualified
    else throw assertion

-- The JavaScript type of a simple value: String, Boolean, Number or Date.
pub data JsType : Type 0 where
  js_string js_boolean js_number js_date : JsType

pub record AttributeDescriptor : Type 0 where
  pub qname : QName
  pub type : Option QName
  pub form : Form

-- `new AttributeDescriptor(qname, type, form)`.
unfoldable pub new_attribute : QName → Option QName → Option String → Result AttributeDescriptor
unfolding form_of
new_attribute qname type form = do
  f ← form_of form
  ok (record { qname = qname; type = type; form = f })

-- The base type that an extension names.
pub record Extension : Type 0 where
  pub name : String
  pub xmlns : String
  pub is_simple : Bool

-- The fields that an element descriptor has beside those of a type descriptor.
pub record ElementInfo : Type 0 where
  pub qname : QName
  pub type : Option QName
  pub form : Form
  pub is_many : Bool
  pub is_simple : Bool
  pub is_nillable : Bool
  pub js_type : Option JsType

mutual
  pub data ElementDescriptor : Type 0 where
    element : ElementInfo → TypeDescriptor → ElementDescriptor

  pub data TypeDescriptor : Type 0 where
    descriptor :
        Elements
        → List AttributeDescriptor
        → (extension : Option Extension) → (mixed : Bool) → TypeDescriptor

  pub data Elements : Type 0 where
    nil : Elements
    cons : ElementDescriptor → Elements → Elements

abbrev pub info : ElementDescriptor → ElementInfo
info (element i t) = i

abbrev pub content : ElementDescriptor → TypeDescriptor
content (element i t) = t

abbrev pub elements : TypeDescriptor → Elements
elements (descriptor es ats ext mixed) = es

abbrev pub attributes : TypeDescriptor → List AttributeDescriptor
attributes (descriptor es ats ext mixed) = ats

abbrev pub extension : TypeDescriptor → Option Extension
extension (descriptor es ats ext mixed) = ext

abbrev pub elements_list : Elements → List ElementDescriptor
elements_list nil = []
elements_list (cons e es) = e ∷ elements_list es

-- `new TypeDescriptor()`.
abbrev pub new_type : TypeDescriptor
new_type = descriptor nil [] none false

-- `new ElementDescriptor(qname, type, form, isMany)`.
unfoldable pub new_element : QName → Option QName → Option String → Bool → Result ElementDescriptor
unfolding form_of
new_element qname type form is_many = do
  f ← form_of form
  ok (
      element
        (record {
          qname = qname;
          type = type;
          form = f;
          is_many = is_many;
          is_simple = false;
          is_nillable = false;
          js_type = none;
        })
        new_type)

-- `push` on an `elements` array.
unfoldable pub push : Elements → ElementDescriptor → Elements
push nil x = cons x nil
push (cons e es) x = cons e (push es x)

unfoldable pub add_element : TypeDescriptor → ElementDescriptor → TypeDescriptor
unfolding push
add_element (descriptor es ats ext mixed) e = descriptor (push es e) ats ext mixed

unfoldable pub add_attribute : TypeDescriptor → AttributeDescriptor → TypeDescriptor
add_attribute (descriptor es ats ext mixed) a = descriptor es (ats ++ (a ∷ [])) ext mixed

-- The copy has neither the extension nor a name of its own.
unfoldable pub clone : ElementDescriptor → Bool → ElementDescriptor
clone (element i (descriptor es ats ext mixed)) is_many =
    element (record i { is_many = is_many || i.is_many }) (descriptor es ats none mixed)

-- What `add` is given.
pub data Item : Type 0 where
  an_element : ElementDescriptor → Item
  an_attribute : AttributeDescriptor → Item
  a_type : TypeDescriptor → Item
  other : Item

-- The two loops of `add` over a type descriptor.
add_elements : TypeDescriptor → Elements → TypeDescriptor
unfolding add_element
add_elements t nil = t
add_elements t (cons e es) = add_elements (add_element t e) es

add_attributes : TypeDescriptor → List AttributeDescriptor → TypeDescriptor
unfolding add_attribute
add_attributes t [] = t
add_attributes t (a ∷ ats) = add_attributes (add_attribute t a) ats

set_extension : TypeDescriptor → Option Extension → TypeDescriptor
set_extension t none = t
set_extension (descriptor es ats ext mixed) (some x) = descriptor es ats (some x) mixed

unfoldable pub add : TypeDescriptor → Item → Bool → TypeDescriptor
unfolding add_element add_attribute clone add_elements add_attributes set_extension
add t (an_element e) is_many = add_element t (clone e is_many)
add t (an_attribute a) is_many = add_attribute t a
add t (a_type u) is_many =
    set_extension (add_attributes (add_elements t (elements u)) (attributes u)) (extension u)
add t other is_many = t

-- `add` on an element descriptor, which is a type descriptor too.
abbrev pub add_to : ElementDescriptor → Item → ElementDescriptor
add_to (element i t) item = element i (add t item false)

unfoldable pub find_in : Elements → String → Option ElementDescriptor
find_in nil name = none
find_in (cons e es) name = if (info e).qname.name == name then some e else find_in es name

unfoldable pub find_element : TypeDescriptor → String → Option ElementDescriptor
unfolding find_in
find_element t name = find_in (elements t) name

unfoldable pub find_attribute_in : List AttributeDescriptor → String → Option AttributeDescriptor
find_attribute_in [] name = none
find_attribute_in (a ∷ ats) name =
    if a.qname.name == name then some a else find_attribute_in ats name

unfoldable pub find_attribute : TypeDescriptor → String → Option AttributeDescriptor
unfolding find_attribute_in
find_attribute t name = find_attribute_in (attributes t) name

-- `find(name)`: an element, else an attribute.
unfoldable pub find : TypeDescriptor → String → Item
unfolding find_element find_attribute
find t name = elim (find_element t name) [
  | some e ↦ an_element e
  | none ↦ elim (find_attribute t name) [ some a ↦ an_attribute a | none ↦ other ]
]
