-- ===== src/Operation/Tests.antt =====
-- Runs of src/parser/wsdl/operation.js, and its theorems at inputs.
use strong_soap.Common.{String, ◌≡◌, ◌↔◌, refl, true, false, none, some, [], ◌∷◌}
use strong_soap.Common.Result.{ok, throw, error, type_error}
use strong_soap.QName.{of_parts}
use strong_soap.Descriptor.{
  ElementDescriptor, TypeDescriptor, qualified, new_type, an_element, find_element,
}
use strong_soap.Descriptor.Adding.{first, added_element}
use strong_soap.Operation.{
  literal_mode, count_parts, input_mode, output_mode, Part, Parameter, Operation, document_literal,
  document_literal_wrapped, document_encoded, element_part, no_part, soap_operation, add_child,
  get_mode, plain_element,
}
use strong_soap.Operation.Modes.{IsWrapped, get_mode-IsWrapped_iff}
use strong_soap.Operation.Envelope.{
  item_body, fault_body, create_envelope_descriptor, describe, describe_faults,
}
use strong_soap.Operation.Envelope.Bodies.{at, header_element, create_envelope_descriptor-finds}
use strong_soap.Operation.Envelope.Faults.{soap_1_2, declared, fault_envelope-finds}

program : Unit {0}
unfolding add_child get_mode literal_mode count_parts input_mode output_mode
    create_envelope_descriptor describe describe_faults find_element
program = tt

abbrev described : String → ElementDescriptor
described n = plain_element (of_parts (some "urn:t") n (some "t")) none qualified new_type

abbrev part : String → Part
part n = record { element = some (record { name = n; described = described n }); type = none }

abbrev parameter : String → Parameter
parameter n = record {
  name = none;
  body =
      some (record { use_attribute = none; namespace = none; parts = ("parameters", part n) ∷ [] });
  headers = [];
}

abbrev operation : Operation
operation = record {
  name = "Quote";
  target_namespace = some "urn:t";
  style = "document";
  soap_version = some "1.2";
  soap_action = "";
  soap_action_required = false;
  input = some (parameter "Quote");
  output = some (parameter "QuoteResponse");
  faults = element_part (record { name = "Missing"; described = described "Missing" }) ∷ [];
}

mode_tests :
    (get_mode operation ≡ ok (some document_literal_wrapped))
    × (get_mode (record operation { name = "Price" }) ≡ ok (some document_literal))
    × (get_mode (record operation { style = "" }) ≡ ok none)
    × (describe_faults (no_part ∷ []) ≡ throw type_error)
    × (describe operation (some document_encoded)
        ≡ throw (error "{{WSDL}} style not supported: %s"))
unfolding program
mode_tests = (refl, refl, refl, refl, refl)

soap_operation_test :
    (add_child operation (
      soap_operation (record {
        ns_uri = "http://schemas.xmlsoap.org/wsdl/soap/";
        soap_action = some "urn:quote";
        style = some "rpc";
        soap_action_required = some "1";
      }))).soap_version
    ≡ some "1.1"
unfolding program
soap_operation_test = refl

get_mode-IsWrapped_iff_example :
    (get_mode operation ≡ ok (some document_literal_wrapped)) ↔ IsWrapped operation
get_mode-IsWrapped_iff_example = get_mode-IsWrapped_iff operation

create_envelope_descriptor-finds_example :
    (d : TypeDescriptor) × (b : TypeDescriptor) × (create_envelope_descriptor
        (record { body = item_body (an_element (described "Quote")); headers = some new_type })
        false
        (some "1.1")
        none
        none
      ≡ ok d)
    × (at d ("Envelope" ∷ "Body" ∷ []) ≡ some b)
    × (at d ("Envelope" ∷ "Header" ∷ []) ≡ some new_type)
    × ((n : String)
        → find_element b n
          ≡ first
              (added_element (an_element (described "Quote")) false n)
              (header_element (some new_type) n))
create_envelope_descriptor-finds_example =
    create_envelope_descriptor-finds (an_element (described "Quote")) (some new_type) false
      (some "1.1") none none

fault_envelope-finds_example :
    (d : TypeDescriptor) × (detail : TypeDescriptor) × (create_envelope_descriptor
        (record { body = fault_body (described "Missing" ∷ []); headers = none })
        true
        (some "1.2")
        none
        none
      ≡ ok d)
    × (at d ("Envelope" ∷ "Body" ∷ "Fault" ∷ "Detail" ∷ []) ≡ some detail)
    × ((n : String) → find_element detail n ≡ declared (described "Missing" ∷ []) n)
fault_envelope-finds_example = fault_envelope-finds soap_1_2 (described "Missing" ∷ []) none none
