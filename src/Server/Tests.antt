-- ===== src/Server/Tests.antt =====
-- Runs of src/server.js, and its theorems at inputs.
use Prim.Native.String
use strong_soap.Common.{
  ◌≤◌, String, Bool, true, false, ◌≡◌, refl, Option, none, some, [], ◌∷◌, length,
}
use strong_soap.Common.Dict.{Dict}
use strong_soap.Common.Result.{ok, throw, type_error}
use strong_soap.QName.{of_parts, parse, exec, has_brace}
use strong_soap.NsContext.{
  declare_namespace, register_namespace, get_prefix_mapping, get_namespace_uri,
  get_namespace_mapping, add_namespace,
}
use strong_soap.Descriptor.{ElementDescriptor, qualified, new_type, add}
use strong_soap.Operation.{Part, Parameter, document_literal, element_part, plain_element}
use strong_soap.Operation.Envelope.{describe}
use strong_soap.XmlReader.Values.{
  Json, undefined, null_value, text, number, object, no_field, field,
}
use strong_soap.XmlReader.{new_options}
use strong_soap.XmlWriter.{Handler, attribute_by}
use strong_soap.XmlWriter.Values.{Calls, child, sort_keys, to_xml_date_or_time}
use strong_soap.XmlWriter.Element.{write_document}
use strong_soap.Base.{new_base, initialize_options, create_namespace_context, write_headers}
use strong_soap.Server.{
  BoundOperation, Binding, Port, Search, find_binding, find_operation, message_name,
}
use strong_soap.Server.Replies.{Setting, message, result_message, send_error}
use strong_soap.Server.Requests.{
  Called, returns, throws, Method, returned, dispatch, run_method, execute_method,
}
use strong_soap.Server.Listening.{Service, Request, process, request_listener}
use strong_soap.Server.Ports.{Sought, at_path, places, last_service_name, find_binding-Sought}
use strong_soap.Server.Answers.{settled, settled-bound}
use strong_soap.Server.Finishes.{finishes}

abbrev described : String → ElementDescriptor
described n = plain_element (of_parts (some "urn:t") n (some "t")) none qualified new_type

abbrev part : String → Part
part n = record { element = some (record { name = n; described = described n }); type = none }

abbrev parameter : String → Parameter
parameter n = record {
  name = none;
  body =
      some (record { use_attribute = none; namespace = none; parts = ("parameters", part n) ∷ [] });
  headers = [];
}

abbrev quote : Option Parameter → BoundOperation
quote output = record {
  operation = record {
    name = "Quote";
    target_namespace = some "urn:t";
    style = "document";
    soap_version = some "1.1";
    soap_action = "";
    soap_action_required = false;
    input = some (parameter "Quote");
    output = output;
    faults = element_part (record { name = "Missing"; described = described "Missing" }) ∷ [];
  };
  mode = some document_literal;
  input_parts = some "Quote" ∷ [];
  output_parts = some "QuoteResponse" ∷ [];
}

abbrev two_way : BoundOperation
two_way = quote (some (parameter "QuoteResponse"))

abbrev binding : String → Binding
binding style = record { style = style; operations = ("Quote", two_way) ∷ [] }

abbrev handler : Handler
handler = record {
  options = new_options none none none none;
  ignore_unknown_properties = false;
  enforce_restrictions = false;
  timezone_enabled = true;
  iso = λ v. none;
  nonzero = λ v. true;
  restriction = λ q. none;
  described = λ q. ok none;
  subtype = λ e v. none;
}

-- The first two names in a body.
abbrev shown : Calls → String
shown (child n v (child m w c d) e) = String.◌++◌ n (String.◌++◌ " " m)
shown (child n v c d) = n
shown c = ""

abbrev is_true : Json → Bool
is_true undefined = false
is_true null_value = false
is_true v = true

abbrev setting : Setting
setting = record {
  handler = handler;
  options = initialize_options none none none none;
  base = new_base;
  namespaces = [];
  find_element = λ u n. none;
  parse_xml = λ t. throw type_error;
  print = λ e. shown e.body;
  is_true = is_true;
  created = "now";
  expires = "later";
}

abbrev price : Called
price = record {
  error = null_value;
  result = object (field "QuoteResponse" (object (field "price" (text "3") no_field)) no_field);
}

abbrev missing : Json
missing = object (field "Fault" (object (field "faultcode" (text "c") no_field)) no_field)

-- A method that calls its callback twice, and once more later.
abbrev eager : Method
eager args = record { before = price ∷ price ∷ []; ending = returns undefined; later = price ∷ [] }

abbrev failing : Method
failing args = record { before = []; ending = throws missing; later = [] }

program : Unit {0}
unfolding message result_message send_error describe create_namespace_context write_headers
    write_document attribute_by sort_keys to_xml_date_or_time declare_namespace register_namespace
    get_prefix_mapping get_namespace_uri get_namespace_mapping add_namespace parse exec has_brace
    of_parts add find_binding find_operation dispatch run_method process request_listener
    message_name execute_method
program = tt

settled-bound_example : length (settled setting false two_way eager undefined).0.answers ≤ 1
settled-bound_example = settled-bound setting false two_way eager undefined

abbrev port : String → String → Port
port path style = record { pathname = path; binding = binding style }

abbrev ports : String → Dict (Dict Port)
ports style =
    ("Stock", ("Soap", port "/stock/" style) ∷ ("Soap12", port "/stock12" style) ∷ []) ∷ []

find_binding-Sought_example :
    Sought
      (at_path "/stock12" (places (ports "document")))
      (last_service_name none (ports "document"))
      (places (ports "document"))
      (record { service_name = none; port_name = none; first_port = none })
      (find_binding "/stock12" (ports "document"))
find_binding-Sought_example = find_binding-Sought "/stock12" (ports "document")

-- A path that no port has: the first binding with the last port's name.
lost_path_test : (find_binding "/other" (ports "document")).0.port_name ≡ some "Soap12"
unfolding find_binding
lost_path_test = refl

abbrev services : Dict (Dict (Dict Method))
services = ("Stock", ("Soap", ("Quote", failing) ∷ []) ∷ []) ∷ []

abbrev search : Search
search = record { service_name = some "Stock"; port_name = some "Soap"; first_port = none }

abbrev body : Json
body = object (field "Quote" (object no_field) no_field)

-- In the style document a Fault that is thrown is answered.
document_fault_test :
    dispatch setting false (ports "document") services search (binding "document") body ≡ (
      record {
        handled = false;
        answers = record { xml = "soap:Fault faultcode"; status = some (number "500") } ∷ [];
      },
      returned,
    )
unfolding program
document_fault_test = refl

abbrev service : Service
service = record {
  setting = setting;
  path = "/stock";
  ports = ports "document";
  services = services;
  wsdl_text = "<definitions/>";
  read = λ t. ok (object (field "Body" body no_field));
  authenticate = none;
  authorize = none;
  inflate = none;
  lower = λ t. t;
  error_text = λ e. "error";
}

abbrev request : Request
request = record {
  method = "POST";
  pathname = "/stock";
  query = none;
  content_type = some "text/xml";
  is_gzip = false;
  remote_address = "";
  chunks = "<a>" ∷ "</a>" ∷ [];
}

listen_test : finishes (request_listener service request) ≡ 1
unfolding program
listen_test = refl

-- The status of a Fault is written as an element without content.
status_test :
    send_error setting false two_way (object (field "statusCode" (number "400") no_field))
    ≡ ok (record { xml = "soap:Fault statusCode"; status = some (number "400") })
unfolding program
status_test = refl
