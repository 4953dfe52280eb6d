-- ===== src/Operation.antt =====
-- src/parser/wsdl/operation.js: the mode of a binding operation, and its descriptors.
-- `part.element.describe(definitions)` returns the descriptor that the schema element keeps, so a
-- part stands here with the descriptor of its element.
pub mod Envelope
pub mod Modes
mod Tests
use Prim.Native.String
use strong_soap.Common.{
  ℕ, suc, String, Bool, true, false, not, ◌&&◌, ◌||◌, ◌==◌, nat_eq, Option, none, some, List, [],
  ◌∷◌, ◌++◌, if◌then◌else◌, or_else, truthy?, length,
}
use strong_soap.Common.Dict.{Dict, get, put}
use strong_soap.Common.Result.{Result, ok, throw, error, assertion, type_error, Error, ◌>>=◌}
use strong_soap.QName.{QName, of_parts}
use strong_soap.Descriptor.{
  ElementDescriptor, element, TypeDescriptor, descriptor, Form, qualified, unqualified, new_type,
  add_element, add, Item, an_element, a_type, other, elements,
}

-- The schema element of a message part: its name and its descriptor.
pub record PartElement : Type 0 where
  pub name : String
  pub described : ElementDescriptor

pub data PartType : Type 0 where
  simple_type :
      (target_namespace : Option String) (name : String) (prefix : Option String) → PartType
  other_type : (qname : Option QName) → PartType

pub record Part : Type 0 where
  pub element : Option PartElement
  pub type : Option PartType

-- The soap:body of an input or output.
pub record SoapBody : Type 0 where
  pub use_attribute : Option String
  pub namespace : Option String
  pub parts : Dict Part

-- A soap:header with the part that it resolves to.
pub record SoapHeader : Type 0 where
  pub part : Option Part

pub record Parameter : Type 0 where
  pub name : Option String
  pub body : Option SoapBody
  pub headers : List SoapHeader

pub data Style : Type 0 where
  document_literal_wrapped document_literal rpc_literal rpc_encoded document_encoded : Style

-- The first part of a fault's message: missing, without an element, or with one.
pub data FaultPart : Type 0 where
  no_part typed_part : FaultPart
  element_part : PartElement → FaultPart

pub record Operation : Type 0 where
  pub name : String
  pub target_namespace : Option String
  pub style : String
  pub soap_version : Option String
  pub soap_action : String
  pub soap_action_required : Bool
  pub input : Option Parameter
  pub output : Option Parameter
  pub faults : List FaultPart

-- The child soap:operation that `addChild` reads.
pub record SoapOperation : Type 0 where
  pub ns_uri : String
  pub soap_action : Option String
  pub style : Option String
  pub soap_action_required : Option String

pub data OperationChild : Type 0 where
  input_child output_child : Parameter → OperationChild
  fault_child : FaultPart → OperationChild
  soap_operation : SoapOperation → OperationChild
  other_child : OperationChild

abbrev is_yes : Option String → Bool
is_yes none = false
is_yes (some v) = v == "true" || v == "1"

unfoldable pub add_child : Operation → OperationChild → Operation
add_child o (input_child p) = record o { input = some p }
add_child o (output_child p) = record o { output = some p }
add_child o (fault_child f) = record o { faults = o.faults ++ (f ∷ []) }
add_child o (soap_operation c) = record o {
  soap_action = or_else c.soap_action "";
  style = or_else c.style "";
  soap_action_required = is_yes c.soap_action_required;
  soap_version =
      if c.ns_uri == "http://schemas.xmlsoap.org/wsdl/soap/"
      then some "1.1"
      else if c.ns_uri == "http://schemas.xmlsoap.org/wsdl/soap12/"
      then some "1.2"
      else some "1.1";
}
add_child o other_child = o

-- `param && param.body`, and its parts.
abbrev pub body_of : Option Parameter → Option SoapBody
body_of none = none
body_of (some p) = p.body

abbrev pub parts_of : Option Parameter → Dict Part
parts_of p = elim (body_of p) [ none ↦ [] | some b ↦ b.parts ]

-- `part.element && !part.type`
abbrev pub is_element_part : Part → Bool
is_element_part p = elim p.element [
  | none ↦ false
  | some e ↦ elim p.type [ none ↦ true | some t ↦ false ]
]

-- The loop of `getMode` over the parts of a body: how many parts there are and the last one's
-- element, or the error for the first part that is no element part.
unfoldable pub count_parts :
    Error → Dict Part → ℕ → Option PartElement → Result (ℕ × Option PartElement)
count_parts e [] n last = ok (n, last)
count_parts e ((k, p) ∷ parts) n last =
    let rest = count_parts e parts (suc n) p.element in if is_element_part p then rest else throw e

-- `element.$name === this.$name`
abbrev pub is_named : String → Option PartElement → Bool
is_named n none = false
is_named n (some e) = e.name == n

abbrev pub input_use : Operation → String
input_use o = elim (body_of o.input) [
  | none ↦ "literal"
  | some b ↦ or_else b.use_attribute "literal"
]

-- The branch of `getMode` for style document and use literal: the loop over the output's parts, what
-- follows the loop over the input's parts, and the whole.
unfoldable pub output_mode : Operation → Result (Option Style)
output_mode o = do
  (m, _) ← count_parts assertion (parts_of o.output) 0 none
  ok (if nat_eq m 1 then some document_literal_wrapped else some document_literal)

unfoldable pub input_mode : Operation → ℕ × Option PartElement → Result (Option Style)
input_mode o (n, last) =
    if nat_eq n 1 && is_named o.name last then output_mode o else ok (some document_literal)

abbrev pub part_error : Error
part_error = error "Document/literal part should use element"

unfoldable pub literal_mode : Operation → Result (Option Style)
literal_mode o = count_parts part_error (parts_of o.input) 0 none >>= input_mode o

-- `none` is undefined, as `this.mode` is before the one call of `getMode`.
unfoldable pub get_mode : Operation → Result (Option Style)
get_mode o =
    if o.style == "document" && input_use o == "literal"
    then literal_mode o
    else if o.style == "document" && input_use o == "encoded"
    then ok (some document_encoded)
    else if o.style == "rpc" && input_use o == "encoded"
    then ok (some rpc_encoded)
    else if o.style == "rpc" && input_use o == "literal"
    then ok (some rpc_literal)
    else ok none

-- What `describe` makes of the input or the output in the modes for documents: the first part's
-- element, or a type with the elements of all parts.
wrapped_item : Dict Part → Item
wrapped_item [] = other
wrapped_item ((k, p) ∷ parts) = elim p.element [ none ↦ other | some e ↦ an_element e.described ]

part_elements : Dict Part → TypeDescriptor → TypeDescriptor
part_elements [] t = t
part_elements ((k, p) ∷ parts) t =
    part_elements parts (elim p.element [ none ↦ t | some e ↦ add_element t e.described ])

-- `new ElementDescriptor(qname, type, form, false)` with a form that the constructor accepts.
abbrev pub plain_element : QName → Option QName → Form → TypeDescriptor → ElementDescriptor
plain_element qname type form t =
    element
      (record {
        qname = qname;
        type = type;
        form = form;
        is_many = false;
        is_simple = false;
        is_nillable = false;
        js_type = none;
      })
      t

type_qname : PartType → Option QName
type_qname (simple_type ns name prefix) = some (of_parts ns name prefix)
type_qname (other_type q) = q

-- One round of the loops over the parts in the rpc modes.
rpc_part : Option String → String → Part → TypeDescriptor → TypeDescriptor
unfolding type_qname
rpc_part ns name p t = elim p.type [
  | some ty ↦
      add_element t (plain_element (of_parts ns name none) (type_qname ty) unqualified new_type)
  | none ↦ elim p.element [ none ↦ t | some e ↦ add_element t e.described ]
]

rpc_parts : Option String → Dict Part → TypeDescriptor → TypeDescriptor
unfolding rpc_part
rpc_parts ns [] t = t
rpc_parts ns ((k, p) ∷ parts) t = rpc_parts ns parts (rpc_part ns k p t)

-- `(this.input && this.input.body && this.input.body.namespace) || this.targetNamespace`
abbrev pub rpc_namespace : Operation → Option String
rpc_namespace o = elim (body_of o.input) [
  | none ↦ o.target_namespace
  | some b ↦ if truthy? b.namespace then b.namespace else o.target_namespace
]

rpc_item : Option String → String → Dict Part → Item
unfolding rpc_parts
rpc_item ns name parts = an_element (
    plain_element (of_parts ns name none) none qualified
      (descriptor (elements (rpc_parts ns parts new_type)) [] none false))

-- The descriptors of the input's and the output's bodies, by mode.
unfoldable pub describe_bodies : Operation → Option Style → Result (Item × Item)
unfolding wrapped_item part_elements rpc_item
describe_bodies o none = ok (other, other)
describe_bodies o (some document_literal_wrapped) =
    ok (wrapped_item (parts_of o.input), wrapped_item (parts_of o.output))
describe_bodies o (some document_literal) = ok (
  a_type (part_elements (parts_of o.input) new_type),
  a_type (part_elements (parts_of o.output) new_type),
)
describe_bodies o (some document_encoded) = throw (error "{{WSDL}} style not supported: %s")
describe_bodies o (some _) =
    let ns = rpc_namespace o in
    ok (
      rpc_item ns o.name (parts_of o.input),
      rpc_item ns (String.◌++◌ o.name "Response") (parts_of o.output),
    )

-- `describeHeaders`; a header whose part has no element is left out, with a warning at most.
add_headers : List SoapHeader → TypeDescriptor → TypeDescriptor
add_headers [] t = t
add_headers (h ∷ hs) t = add_headers hs (elim h.part [
  | none ↦ t
  | some p ↦ elim p.element [ none ↦ t | some e ↦ add_element t e.described ]
])

unfoldable pub describe_headers : Option Parameter → Option TypeDescriptor
unfolding add_headers
describe_headers none = none
describe_headers (some p) = some (add_headers p.headers new_type)
