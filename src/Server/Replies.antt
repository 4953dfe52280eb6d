-- ===== src/Server/Replies.antt =====
-- src/server.js: the XML of replies and of faults.
-- `print` is `envelope.doc.end` of the package xmlbuilder on what it was told for the envelope.
use Prim.Native.String
use strong_soap.Common.{
  ℕ, zero, suc, String, Bool, ◌==◌, Option, none, some, if◌then◌else◌, or_else,
}
use strong_soap.Common.Dict.{Dict}
use strong_soap.Common.Result.{Result, ok, throw, type_error, ◌>>=◌}
use strong_soap.Descriptor.{
  ElementDescriptor, TypeDescriptor, Elements, nil, cons, elements, content, Item, an_element,
  other,
}
use strong_soap.Operation.Envelope.{describe, Body, item_body, fault_body}
use strong_soap.XmlReader.Values.{Json, undefined, text, number, object, get_field, put_field}
use strong_soap.XmlWriter.{Handler}
use strong_soap.XmlWriter.Values.{Calls, done, attribute, child, then_calls}
use strong_soap.XmlWriter.Element.{write_document}
use strong_soap.Base.{Base, BaseOptions, create_namespace_context, write_headers}
use strong_soap.Server.{BoundOperation}

pub record Envelope : Type 0 where
  pub prefix : String
  pub ns_uri : String
  pub header : Calls
  pub body : Calls

-- What a server, or a client, is made with. `is_true` tells whether JavaScript takes a value for true, and the two
-- dates are those that `toXMLDate` makes.
pub record Setting : Type 0 where
  pub handler : Handler
  pub options : BaseOptions
  pub base : Base
  pub namespaces : Dict String
  pub find_element : String → String → Option (Result ElementDescriptor)
  pub parse_xml : Option String → Result Calls
  pub print : Envelope → String
  pub is_true : Json → Bool
  pub created : String
  pub expires : String

-- `_addWSSecurityHeader`
abbrev pub security_header : Setting → Calls
security_header s =
    child "wsse:Security" none
      (attribute "soap:mustUnderstand" (text "1") (
        attribute "xmlns:wsse"
          (text "http://docs.oasis-open.org/wss/2004/01/oasis-200401-wss-wssecurity-secext-1.0.xsd")
          (attribute "xmlns:wsu"
            (text
              "http://docs.oasis-open.org/wss/2004/01/oasis-200401-wss-wssecurity-utility-1.0.xsd")
            (child "wsu:Timestamp" none
              (attribute "wsu:Id" (text (String.◌++◌ "Timestamp-" s.created)) (
                child "wsu:Created" (some (text s.created)) done
                  (child "wsu:Expires" (some (text s.expires)) done done)))
              done))))
      done

-- `_envelope` on an envelope's header.
unfoldable pub envelope_header : Setting → Bool → Result Calls
envelope_header s timestamp =
    write_headers s.handler s.find_element s.parse_xml s.base.soap_headers >>= λ headers.
    ok (then_calls (if timestamp then security_header s else done) headers)

abbrev pub envelope_uri : Option String → String
envelope_uri none = "http://schemas.xmlsoap.org/soap/envelope/"
envelope_uri (some v) =
    if v == "1.2"
    then "http://www.w3.org/2003/05/soap-envelope"
    else "http://schemas.xmlsoap.org/soap/envelope/"

-- The message of a value in its envelope.
unfoldable pub message : Setting → Bool → Option String → Item → Json → Result String
unfolding envelope_header
message s timestamp version x v = do
  let prefix = or_else (some s.options.envelope_key) "soap"
  c ← create_namespace_context s.namespaces prefix (envelope_uri version)
  (c', body) ← write_document s.handler (some c) x v
  header ← envelope_header s timestamp
  ok (
      s.print
        (record { prefix = prefix; ns_uri = envelope_uri version; header = header; body = body }))

abbrev pub body_item : Body → Item
body_item (item_body x) = x
body_item (fault_body faults) = other

-- The reply of `handleResult` to a value.
unfoldable pub result_message : Setting → Bool → BoundOperation → Json → Result String
unfolding message
result_message s timestamp o v = do
  d ← describe o.operation o.mode
  message s timestamp o.operation.soap_version (body_item d.output.body) v

-- `elements[i]`
unfoldable pub element_at : ℕ → Elements → Option ElementDescriptor
element_at i nil = none
element_at zero (cons e es) = some e
element_at (suc i) (cons e es) = element_at i es

abbrev pub needed : Option ElementDescriptor → Result TypeDescriptor
needed none = throw type_error
needed (some e) = ok (content e)

-- The element descriptor for Fault: the first below the second below the envelope's.
unfoldable pub fault_item : TypeDescriptor → Result Item
unfolding element_at
fault_item t = needed (element_at 0 (elements t)) >>= λ envelope.
    needed (element_at 1 (elements envelope)) >>= λ body.
    ok (elim (element_at 0 (elements body)) [ none ↦ other | some e ↦ an_element e ])

-- `error.Fault.statusCode`, where it counts as true, and the Fault behind it.
abbrev pub status_field : Setting → Json → Option Json
status_field s (object d) = elim (get_field "statusCode" d) [
  | none ↦ none
  | some v ↦ if s.is_true v then some v else none
]
status_field s fault = none

abbrev pub status_of : Setting → Json → Json
status_of s fault = elim (status_field s fault) [ none ↦ number "500" | some v ↦ v ]

abbrev pub without_status : Setting → Json → Json
without_status s (object d) = elim (status_field s (object d)) [
  | none ↦ object d
  | some v ↦ object (put_field "statusCode" undefined d)
]
without_status s fault = fault

-- What the callback of `_process` is given: the text and, for a fault, the status.
pub record Answer : Type 0 where
  pub xml : String
  pub status : Option Json

-- `_sendError`
unfoldable pub send_error : Setting → Bool → BoundOperation → Json → Result Answer
unfolding fault_item message
send_error s timestamp o fault = do
  d ← describe o.operation o.mode
  x ← fault_item d.fault_envelope
  xml ← message s timestamp o.operation.soap_version x (without_status s fault)
  ok (record { xml = xml; status = some (status_of s fault) })
