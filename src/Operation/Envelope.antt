-- ===== src/Operation/Envelope.antt =====
-- src/parser/wsdl/operation.js: `createEnvelopeDescriptor`, `describeFaults` and `describe`.
-- The code adds to descriptors that it has added to their parents before. A clone shares the arrays
-- of its original, so the parents see what comes later; here the inner descriptors are built first.
pub mod Bodies
pub mod Faults
use strong_soap.Common.{
  String, Bool, true, false, ◌==◌, Option, none, some, List, [], ◌∷◌, if◌then◌else◌, or_else,
  truthy?,
}
use strong_soap.Common.Result.{Result, ok, throw, error, type_error, ◌>>=◌}
use strong_soap.QName.{of_parts}
use strong_soap.Descriptor.{
  ElementDescriptor, TypeDescriptor, Form, qualified, unqualified, new_type, add_element, add, Item,
  an_element, a_type,
}
use strong_soap.Operation.{
  Operation, Style, FaultPart, no_part, typed_part, element_part, plain_element, describe_bodies,
  describe_headers,
}

-- `parameterDescriptor.body`: a descriptor, or the object with the descriptors of all faults.
pub data Body : Type 0 where
  item_body : Item → Body
  fault_body : (faults : List ElementDescriptor) → Body

pub record ParameterDescriptor : Type 0 where
  pub body : Body
  pub headers : Option TypeDescriptor

abbrev pub soap_ns_uri : Option String → Option String
soap_ns_uri none = none
soap_ns_uri (some v) =
    if v == "1.1"
    then some "http://schemas.xmlsoap.org/soap/envelope/"
    else if v == "1.2"
    then some "http://www.w3.org/2003/05/soap-envelope"
    else none

-- `new ElementDescriptor(new QName(nsURI, name, prefix), null, form, false)` and what is added to it.
abbrev pub soap_element :
    Option String → String → String → Form → TypeDescriptor → ElementDescriptor
soap_element ns prefix name form t = plain_element (of_parts ns name (some prefix)) none form t

-- A descriptor with an element added.
abbrev pub with_element : TypeDescriptor → ElementDescriptor → TypeDescriptor
with_element t e = add t (an_element e) false

-- The loop over the faults.
unfoldable pub add_faults : TypeDescriptor → List ElementDescriptor → TypeDescriptor
unfolding add
add_faults t [] = t
add_faults t (f ∷ fs) = add_faults (with_element t f) fs

unfoldable pub fault_1_1 : Option String → String → List ElementDescriptor → ElementDescriptor
unfolding add add_faults
fault_1_1 ns prefix faults =
    let code = soap_element ns prefix "faultcode" unqualified new_type in
    let text = soap_element ns prefix "faultstring" unqualified new_type in
    let actor = soap_element ns prefix "faultactor" unqualified new_type in
    let detail = soap_element ns prefix "detail" unqualified (add_faults new_type faults) in
    soap_element ns prefix "Fault" qualified
      (with_element (with_element (with_element (with_element new_type code) text) actor) detail)

unfoldable pub fault_1_2 : Option String → String → List ElementDescriptor → ElementDescriptor
unfolding add add_faults
fault_1_2 ns prefix faults =
    let value = soap_element ns prefix "Value" qualified new_type in
    let subcode = soap_element ns prefix "Subcode" qualified (with_element new_type value) in
    let code =
      soap_element ns prefix "Code" qualified
        (with_element (with_element new_type value) subcode) in
    let text = soap_element ns prefix "Text" qualified new_type in
    let reason = soap_element ns prefix "Reason" qualified (with_element new_type text) in
    let node = soap_element ns prefix "Node" qualified new_type in
    let role = soap_element ns prefix "Role" qualified new_type in
    let detail = soap_element ns prefix "Detail" qualified (add_faults new_type faults) in
    soap_element ns prefix "Fault" qualified (
      with_element
        (with_element (with_element (with_element (with_element new_type code) reason) node) role)
        detail)

-- The Fault of another version has no elements, and the first fault is added to undefined.
unfoldable pub fault_other :
    Option String → String → List ElementDescriptor → Result ElementDescriptor
fault_other ns prefix [] = ok (soap_element ns prefix "Fault" qualified new_type)
fault_other ns prefix (f ∷ fs) = throw type_error

unfoldable pub fault_element :
    Option String → Option String → String → List ElementDescriptor → Result ElementDescriptor
unfolding fault_1_1 fault_1_2 fault_other
fault_element none ns prefix faults = fault_other ns prefix faults
fault_element (some v) ns prefix faults =
    if v == "1.1"
    then ok (fault_1_1 ns prefix faults)
    else if v == "1.2"
    then ok (fault_1_2 ns prefix faults)
    else fault_other ns prefix faults

-- What is added to the Body: the item, the headers, the Fault of an output.
unfoldable pub add_item : Body → TypeDescriptor → TypeDescriptor
unfolding add
add_item (item_body i) t = add t i false
add_item (fault_body fs) t = t

unfoldable pub add_header_types : Option TypeDescriptor → TypeDescriptor → TypeDescriptor
unfolding add
add_header_types none t = t
add_header_types (some h) t = add t (a_type h) false

unfoldable pub add_fault :
    Body → Bool → Option String → Option String → String → TypeDescriptor → Result TypeDescriptor
unfolding add fault_element
add_fault (fault_body fs) true version ns prefix t = do
  f ← fault_element version ns prefix fs
  ok (with_element t f)
add_fault (fault_body fs) false version ns prefix t = ok t
add_fault (item_body i) out version ns prefix t = ok t

-- `nsURI || soapNsURI`
abbrev pub envelope_ns : Option String → Option String → Option String
envelope_ns ns version = if truthy? ns then ns else soap_ns_uri version

-- The Envelope with its Header and Body, in a new type descriptor.
unfoldable pub wrap : Option String → String → TypeDescriptor → TypeDescriptor
unfolding add add_element
wrap ns prefix body =
    let header = soap_element ns prefix "Header" qualified new_type in
    with_element new_type (
      soap_element ns prefix "Envelope" qualified
        (add_element (add_element new_type header) (soap_element ns prefix "Body" qualified body)))

unfoldable pub create_envelope_descriptor :
    ParameterDescriptor
    → Bool
    → Option String
    → Option String
    → Option String
    → Result TypeDescriptor
unfolding wrap add_item add_header_types add_fault
create_envelope_descriptor param is_output version prefix ns_uri =
    let p = or_else prefix "soap" in
    let ns = envelope_ns ns_uri version in
    do
      body ←
          add_fault param.body is_output version ns p
            (add_header_types param.headers (add_item param.body new_type))
      ok (wrap ns p body)

-- A part without an element is left out with a warning, which reads the part's name.
unfoldable pub describe_faults : List FaultPart → Result (List ElementDescriptor)
describe_faults [] = ok []
describe_faults (no_part ∷ fs) = throw type_error
describe_faults (typed_part ∷ fs) = describe_faults fs
describe_faults (element_part e ∷ fs) = do rest ← describe_faults fs; ok (e.described ∷ rest)

pub record OperationDescriptor : Type 0 where
  pub name : String
  pub style : Option Style
  pub soap_action : String
  pub soap_version : Option String
  pub input : ParameterDescriptor
  pub output : ParameterDescriptor
  pub faults : List ElementDescriptor
  pub input_envelope : TypeDescriptor
  pub output_envelope : TypeDescriptor
  pub fault_envelope : TypeDescriptor

-- `describe` of an operation that has no descriptor yet, in the mode that `getMode` has set.
unfoldable pub describe : Operation → Option Style → Result OperationDescriptor
unfolding describe_bodies describe_headers create_envelope_descriptor describe_faults
describe o mode = do
  (input, output) ← describe_bodies o mode
  faults ← describe_faults o.faults
  let in_param : ParameterDescriptor = record {
    body = item_body input;
    headers = describe_headers o.input;
  }
  let out_param : ParameterDescriptor = record {
    body = item_body output;
    headers = describe_headers o.output;
  }
  in_envelope ← create_envelope_descriptor in_param false o.soap_version none none
  out_envelope ← create_envelope_descriptor out_param true o.soap_version none none
  fault_envelope ←
      create_envelope_descriptor (record { body = fault_body faults; headers = none }) true
        o.soap_version none none
  ok (record {
    name = o.name;
    style = mode;
    soap_action = o.soap_action;
    soap_version = o.soap_version;
    input = in_param;
    output = out_param;
    faults = faults;
    input_envelope = in_envelope;
    output_envelope = out_envelope;
    fault_envelope = fault_envelope;
  })
