-- ===== src/Base.antt =====
-- src/base.js, the part that the client and the server share, and `SOAPElement` of src/soapModel.js.
-- What a schema's element is described by and what `parseXml` makes of a text are arguments.
pub mod Headers
pub mod Prefixes
mod Tests
use Prim.Native.String
use strong_soap.Common.{
  ℕ, zero, suc, ◌+◌, String, Bool, true, false, ◌||◌, ◌==◌, Option, none, some, List, [], ◌∷◌, ◌++◌,
  if◌then◌else◌, or_else, length,
}
use strong_soap.Common.Dict.{Dict, get, put}
use strong_soap.Common.Result.{Result, ok, throw, diverge, type_error, ◌>>=◌}
use strong_soap.QName.{QName}
use strong_soap.NsContext.{NamespaceContext, new_context, declare_namespace, add_namespace}
use strong_soap.Descriptor.{ElementDescriptor, Item, an_element, other}
use strong_soap.XmlReader.Values.{Json, text, object, array, date, null_value}
use strong_soap.XmlWriter.Values.{Calls, done, then_calls, occurs}
use strong_soap.XmlWriter.{Handler}
use strong_soap.XmlWriter.Element.{write_document}

-- `new SOAPElement(value, qname)`: XML text, or a value with a name.
pub data SoapElement : Type 0 where
  xml : String → SoapElement
  valued : Json → Option QName → SoapElement

abbrev pub new_soap_element : Json → Option QName → SoapElement
new_soap_element (text t) none = xml t
new_soap_element v q = valued v q

-- The fields of a client or a server that Base keeps. A place of `soapHeaders` that is written behind
-- the array's end leaves holes before it.
pub record Base : Type 0 where
  pub soap_headers : List (Option SoapElement)
  pub http_headers : Dict String

abbrev pub new_base : Base
new_base = record { soap_headers = []; http_headers = [] }

-- The result is the index of the new header.
abbrev pub add_soap_header : Base → Json → Option QName → Base × ℕ
add_soap_header b v q = (
  record b { soap_headers = b.soap_headers ++ some (new_soap_element v q) ∷ [] },
  length b.soap_headers,
)

-- `a[i] = x`
unfoldable pub write_at : List (Option SoapElement) → ℕ → SoapElement → List (Option SoapElement)
write_at [] zero x = some x ∷ []
write_at [] (suc i) x = none ∷ write_at [] i x
write_at (y ∷ l) zero x = some x ∷ l
write_at (y ∷ l) (suc i) x = y ∷ write_at l i x

-- `a[i]`
unfoldable pub read_at : List (Option SoapElement) → ℕ → Option SoapElement
read_at [] i = none
read_at (y ∷ l) zero = y
read_at (y ∷ l) (suc i) = read_at l i

unfoldable pub change_soap_header : Base → ℕ → Json → Option QName → Base
unfolding write_at
change_soap_header b i v q = record b {
  soap_headers = write_at b.soap_headers i (new_soap_element v q);
}

abbrev pub clear_soap_headers : Base → Base
clear_soap_headers b = record b { soap_headers = [] }

-- The values are the texts that `String(value)` makes of them.
abbrev pub set_http_header : Base → String → String → Base
set_http_header b name value = record b { http_headers = put name value b.http_headers }

abbrev pub appended : Option String → String → String
appended none value = value
appended (some val) value = String.◌++◌ val (String.◌++◌ ", " value)

abbrev pub add_http_header : Base → String → String → Base
add_http_header b name value = record b {
  http_headers = put name (appended (get name b.http_headers) value) b.http_headers;
}

abbrev pub clear_http_headers : Base → Base
clear_http_headers b = record b { http_headers = [] }

-- The options of the WSDL that `_initializeOptions` sets.
pub record BaseOptions : Type 0 where
  pub attributes_key : String
  pub envelope_key : String
  pub force_soap_version : Option String
  pub pretty_response : Bool

abbrev pub initialize_options :
    Option String → Option String → Option String → Option Bool → BaseOptions
initialize_options attributes envelope version pretty = record {
  attributes_key = or_else attributes "attributes";
  envelope_key = or_else envelope "soap";
  force_soap_version = version;
  pretty_response = elim pretty [ none ↦ true | some b ↦ b ];
}

-- The URIs that `createNamespaceContext` leaves out.
unfoldable pub is_standard : String → Bool
unfolding occurs
is_standard u =
    (u == "http://xml.apache.org/xml-soap")
    || (u == "http://schemas.xmlsoap.org/wsdl/")
    || (u == "http://schemas.xmlsoap.org/wsdl/soap/")
    || (u == "http://schemas.xmlsoap.org/wsdl/soap12/")
    || (u == "http://schemas.xmlsoap.org/soap/encoding/")
    || (u == "http://www.w3.org/2001/XMLSchema")
    || occurs "http://schemas.xmlsoap.org/" u
    || occurs "http://www.w3.org/" u
    || occurs "http://xml.apache.org/" u

-- The loop of `createNamespaceContext` over the namespaces of the WSDL.
unfoldable pub add_namespaces : Dict String → NamespaceContext → NamespaceContext
unfolding is_standard
add_namespaces [] c = c
add_namespaces ((prefix, u) ∷ namespaces) c =
    add_namespaces namespaces
      (if (prefix == "") || is_standard u then c else (add_namespace c prefix u false).0)

unfoldable pub create_namespace_context : Dict String → String → String → Result NamespaceContext
unfolding add_namespaces
create_namespace_context namespaces prefix u = do
  (c, found) ← declare_namespace new_context (some prefix) u
  ok (add_namespaces namespaces c)

-- `typeof value === 'object'`
abbrev pub is_object : Json → Bool
is_object null_value = true
is_object (date t) = true
is_object (array xs) = true
is_object (object d) = true
is_object v = false

module _ (h : Handler) (find_element : String → String → Option (Result ElementDescriptor))
    (parse_xml : Option String → Result Calls) where
  -- The descriptor for a header's value.
  abbrev pub header_item : Option QName → Result Item
  header_item none = ok other
  header_item (some q) =
      let u = or_else q.ns_uri "" in
      if u == "" then ok other else elim (find_element u q.name) [
        | none ↦ ok other
        | some described ↦ described >>= λ e. ok (an_element e)
      ]

  -- The calls for one header on the header element.
  unfoldable pub write_header : Option SoapElement → Result Calls
  write_header none = throw type_error
  write_header (some (xml t)) = parse_xml (some t)
  write_header (some (valued v q)) =
      if is_object v
      then (header_item q >>= λ d. write_document h none d v >>= λ r. ok r.1)
      else parse_xml none

  -- `addSoapHeadersToEnvelope`
  unfoldable pub write_headers : List (Option SoapElement) → Result Calls
  unfolding write_header
  write_headers [] = ok done
  write_headers (x ∷ l) =
      write_header x >>= λ calls. write_headers l >>= λ rest. ok (then_calls calls rest)
