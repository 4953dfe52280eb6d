-- ===== src/Bindings/Tests.antt =====
-- Runs of the post-processing in src/parser/wsdl, and its theorems at inputs.
use strong_soap.Common.{String, ◌≡◌, refl, none, some, [], ◌∷◌, false}
use strong_soap.Common.Dict.{Dict, get}
use strong_soap.Common.Result.{ok}
use strong_soap.QName.{parse, exec, has_brace}
use strong_soap.Bindings.{
  Part, split_spaces, PortOperation, BindingOperation, Resolved, BoundOperation, resolve_port_type,
  bind_operations,
}
use strong_soap.Bindings.Messages.{returns, operations_name, returns-resolve_port_type}
use strong_soap.Bindings.Bound.{Takes, bind_operations-bound}

split_test : split_spaces "a  b" ≡ "a" ∷ "b" ∷ []
unfolding split_spaces
split_test = refl

-- One message with two parts, and one that is not defined.
abbrev typed : String → Part
typed t = record { element = none; type = some t }

abbrev request : Dict Part
request = ("a", typed "xsd:string") ∷ ("b", typed "xsd:int") ∷ []

abbrev messages : Dict (Dict Part)
messages = ("Request", request) ∷ ("Broken", ("a", typed "{") ∷ []) ∷ []

abbrev asks : String → PortOperation
asks m = record {
  input = some (record { message = some m });
  output = none;
  faults = [];
  parameter_order = none;
}

abbrev port_type : Dict PortOperation
port_type = ("get", asks "tns:Request") ∷ ("put", asks "tns:Missing") ∷ []

returns-resolve_port_type_example :
    returns (resolve_port_type messages port_type []) ≡ operations_name messages port_type
returns-resolve_port_type_example = returns-resolve_port_type messages port_type []

missing_test : operations_name messages port_type ≡ false
unfolding parse exec has_brace
missing_test = refl

-- A message that is defined, with a part whose type is no name.
broken_test : operations_name messages (("get", asks "tns:Broken") ∷ []) ≡ false
unfolding parse exec has_brace
broken_test = refl

abbrev ports : Dict Resolved
ports =
    ("get", record { input = some request; output = none; faults = []; parameter_order = none })
    ∷ []

-- A body that names one of the parts, and an operation that the portType does not have.
abbrev operations : Dict BindingOperation
operations =
    (
      "get",
      record {
        style = none;
        input = some (record { body = some (some "b"); headers = [] });
        output = none;
        faults = [];
      },
    )
    ∷ ("other", record { style = none; input = none; output = none; faults = [] })
    ∷ []

abbrev bound : BoundOperation
bound = record {
  style = "document";
  input = some (record {
    message = some request;
    parts = some (("b", some (typed "xsd:int")) ∷ []);
    header_parts = [];
  });
  output = none;
  faults = [];
  parameter_order = none;
}

bound_test : bind_operations messages "document" ports operations [] ≡ ok (("get", bound) ∷ [])
unfolding bind_operations
bound_test = refl

bind_operations-bound_example :
    (r : Resolved) × (get "get" ports ≡ some r) × Takes messages "document" ports r bound
bind_operations-bound_example =
    bind_operations-bound messages "document" ports operations (("get", bound) ∷ []) "get" bound
      bound_test refl
