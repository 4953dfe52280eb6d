-- ===== src/Client.antt =====
-- src/client.js: the arguments of a call, the request's headers and what becomes of the response.
pub mod Calling
pub mod Sending
mod Tests
use Prim.Native.String
use strong_soap.Common.{
  ℕ, Char, code, nat_eq, String, Bool, true, false, not, ◌&&◌, ◌||◌, ◌==◌, Option, none, some, List,
  [], ◌∷◌, if◌then◌else◌, truthy?, or_else,
}
use strong_soap.Common.Dict.{Dict, get, put}
use strong_soap.Common.Result.{Result, Error, ok, throw, diverge, ◌>>=◌}
use strong_soap.Descriptor.{
  TypeDescriptor, Elements, nil, cons, info, elements, Item, an_element, a_type, an_attribute,
  other, content,
}
use strong_soap.Operation.{Operation, Style}
use strong_soap.Operation.Envelope.{describe, OperationDescriptor, Body, item_body, fault_body}
use strong_soap.XmlReader.Values.{
  Json, undefined, null_value, text, array, object, date, Fields, no_field, get_field,
}
use strong_soap.XmlWriter.Values.{occurs, is_nullish}
use strong_soap.Base.{
  Base, add_soap_header, clear_soap_headers, is_object, create_namespace_context, write_headers,
}
use strong_soap.HttpRequest.{merge}
use strong_soap.XmlWriter.Values.{Calls, then_calls}
use strong_soap.XmlWriter.Element.{write_document}
use strong_soap.Server.Replies.{Setting, Envelope, envelope_uri, body_item}

-- An argument of a call of an operation: missing, a function, or a value.
pub data Given {ℓ} (F : Type ℓ) : Type ℓ where
  missing : Given F
  callable : F → Given F
  value : Json → Given F

pub record Arguments {ℓ} (F : Type ℓ) : Type ℓ where
  pub args : Given F
  pub callback : Given F
  pub options : Given F
  pub extra_headers : Given F

module _ {ℓ} {F : Type ℓ} where
  abbrev pub is_callable : Given F → Bool
  is_callable (callable f) = true
  is_callable a = false

  -- `typeof a === 'object'`
  abbrev pub is_object_given : Given F → Bool
  is_object_given (value v) = is_object v
  is_object_given a = false

  abbrev pub no_args : Given F
  no_args = value (object no_field)

  -- `if (!args) args = {}`
  abbrev pub with_args : (Json → Bool) → Given F → Given F
  with_args is_true missing = no_args
  with_args is_true (callable f) = callable f
  with_args is_true (value v) = if is_true v then value v else no_args

  -- How the function that `_defineOperation` makes sorts its arguments; a missing callback stands for
  -- that of a promise.
  unfoldable pub sort_arguments : (Json → Bool) → Arguments F → Arguments F
  sort_arguments is_true a =
      let args = with_args is_true a.args in
      if is_callable args
      then record a { args = no_args; callback = args }
      else if is_callable a.options
      then record a { args = args; callback = a.options; options = a.callback }
      else if is_callable a.extra_headers
      then record {
        args = args;
        callback = a.extra_headers;
        options = a.callback;
        extra_headers = a.options;
      }
      else if is_object_given a.callback
      then record {
        args = args;
        callback = missing;
        options = a.callback;
        extra_headers = a.options;
      }
      else record a { args = args }

-- `a != null ? a : t`
abbrev pub or_default : Option String → String → String
or_default none t = t
or_default (some a) t = a

-- `wsdl.options.forceSoapVersion || operation.soapVersion`
abbrev pub version_of : Option String → Operation → Option String
version_of forced o = if truthy? forced then forced else o.soap_version

abbrev pub is_1_2 : Option String → Bool
is_1_2 none = false
is_1_2 (some v) = v == "1.2"

abbrev pub content_type : Option String → String
content_type version =
    if is_1_2 version then "application/soap+xml; charset=utf-8" else "text/xml; charset=utf-8"

-- `((ns.lastIndexOf("/") !== ns.length - 1) ? ns + "/" : ns) + name`
unfoldable pub ends_in_slash : String → Bool
ends_in_slash String.[] = false
ends_in_slash (String.◌∷◌ c s) = if s == "" then nat_eq (code c) b'/' else ends_in_slash s

abbrev pub default_action : String → String → String
default_action ns name = String.◌++◌ (if ends_in_slash ns then ns else String.◌++◌ ns "/") name

-- The client's SOAPAction, the operation's, which is missing without a child soap:operation, or one
-- made of the target namespace and the name.
abbrev pub soap_action : Option String → Option String → String → String → String
soap_action set action ns name =
    if truthy? set then or_else set "" else or_default action (default_action ns name)

abbrev pub own_headers : Option String → String → Bool → Dict String
own_headers version action required =
    let headers = ("Content-Type", content_type version) ∷ [] in
    if not (is_1_2 version) || required
    then put "SOAPAction" (String.◌++◌ "\"" (String.◌++◌ action "\"")) headers
    else headers

-- `_.omit(extraHeaders, ['soapHeaders'])`
unfoldable pub omit : String → Dict String → Dict String
omit k [] = []
omit k ((j, v) ∷ d) = if j == k then omit k d else (j, v) ∷ omit k d

-- The headers of the request, up to what the security object adds.
unfoldable pub invoke_headers : Option String → String → Bool → Base → Dict String → Dict String
unfolding omit
invoke_headers version action required b extra =
    merge (merge (own_headers version action required) b.http_headers) (omit "soapHeaders" extra)

-- The SOAP headers that a call gives take the place of the client's.
abbrev pub with_dynamic : Base → Option Json → Base
with_dynamic b none = b
with_dynamic b (some v) = (add_soap_header (clear_soap_headers b) v none).0

-- The request's XML. `security` is what the security object's addSoapHeaders calls on the header; the
-- setting's base has the call's SOAP headers.
unfoldable pub invoke_message :
    Setting → Option String → Calls → Operation → Option Style → Json → Result String
invoke_message s version security o mode args = do
  let prefix = or_else (some s.options.envelope_key) "soap"
  c ← create_namespace_context s.namespaces prefix (envelope_uri version)
  headers ← write_headers s.handler s.find_element s.parse_xml s.base.soap_headers
  d ← describe o mode
  (c', body) ← write_document s.handler (some c) (body_item d.input.body) args
  ok (
      s.print (record {
        prefix = prefix;
        ns_uri = envelope_uri version;
        header = then_calls headers security;
        body = body;
      }))

-- What the callback of a call is given: the error of the HTTP request, that of reading the response, the
-- one for a Body that is no object, the response itself with a JSON value for its text, or the result
-- with the message's Header.
pub data Reply : Type 0 where
  request_error read_error parse_error : Reply
  json_reply : Json → Reply
  succeeded : (result : Json) → (header : Json) → Reply

-- `output.$name.replace(/(?:Out(?:put)?|Response)$/, '')`
unfoldable pub strip_suffix : String → String
strip_suffix String.[] = ""
strip_suffix (String.◌∷◌ c s) =
    let t = String.◌∷◌ c s in
    if (t == "Output") || (t == "Out") || (t == "Response")
    then ""
    else String.◌∷◌ c (strip_suffix s)

abbrev pub suffixes : List String
suffixes = "Response" ∷ "Out" ∷ "Output" ∷ ".Response" ∷ ".Out" ∷ ".Output" ∷ []

-- The loop over the suffixes goes on behind a key that it has found.
unfoldable pub by_suffix : String → Fields → List String → Json → Json
by_suffix name body [] result = result
by_suffix name body (t ∷ terms) result =
    by_suffix name body terms
      (elim (get_field (String.◌++◌ name t) body) [ none ↦ result | some v ↦ v ])

abbrev pub key_value : String → Fields → Json
key_value k body = elim (get_field k body) [ none ↦ undefined | some v ↦ v ]

-- The result below Body: by the name of the first element that the output describes, by the output's
-- own name without its suffix, and by the operation's name with one.
module _ (is_true : Json → Bool) where
  unfoldable pub result_of : Option String → Option String → String → Fields → Json
  unfolding strip_suffix by_suffix
  result_of first output name body =
      let by_element : Json = elim first [ none ↦ undefined | some n ↦ key_value n body ] in
      let by_output : Json = if is_true by_element then by_element else elim output [
        | none ↦ key_value "undefined" body
        | some n ↦ key_value (strip_suffix n) body
      ] in
      if is_true by_output then by_output else by_suffix name body suffixes by_output

abbrev pub first_name : Elements → Option String
first_name nil = none
first_name (cons e es) = some (info e).qname.name

abbrev pub item_elements : Item → Elements
item_elements (an_element e) = elements (content e)
item_elements (a_type t) = elements t
item_elements x = nil

-- `outputBodyDescriptor.elements[0].qname.name`
abbrev pub first_output : OperationDescriptor → Option String
first_output d = elim d.output.body [
  | item_body x ↦ first_name (item_elements x)
  | fault_body faults ↦ none
]

abbrev pub is_fault_text : String → Bool
is_fault_text body = occurs "<soap:Fault>" body || occurs "<Fault>" body

-- The callback of the HTTP request. `read` is `xmlToJson` on the sax parser's events, with the envelope
-- that it is given, and `parse_json` is `JSON.parse`, none where it throws.
pub record Response : Type 0 where
  pub failure : Bool
  pub body : String

module _ (is_true : Json → Bool) (read : TypeDescriptor → String → Result Json)
    (parse_json : String → Option Json) where
  -- The `catch` around `xmlToJson`.
  abbrev pub unreadable : Bool → Option Json → Reply
  unreadable true json = read_error
  unreadable false none = read_error
  unreadable false (some v) = if is_true v then json_reply v else read_error

  -- The names that the result is looked for by.
  abbrev pub response_value : Option String → Option String → String → Json → Json → Reply
  response_value first output name (object d) header =
      succeeded (result_of is_true first output name d) header
  response_value first output name (array xs) header =
      succeeded (result_of is_true first output name no_field) header
  response_value first output name (date t) header =
      succeeded (result_of is_true first output name no_field) header
  response_value first output name v header = parse_error

  abbrev pub field_value : String → Json → Json
  field_value k (object d) = key_value k d
  field_value k v = undefined

  abbrev pub read_reply :
      (has_output : Bool)
      → Option String
      → Option String
      → String
      → Option Json
      → Result Json
      → Reply
  read_reply has_output first output name json (ok message) =
      if has_output && is_true (field_value "Body" message)
      then response_value first output name (field_value "Body" message)
          (field_value "Header" message)
      else succeeded null_value (field_value "Header" message)
  read_reply has_output first output name json (throw x) = unreadable has_output json
  read_reply has_output first output name json diverge = unreadable has_output json

  unfoldable pub handle_response :
      OperationDescriptor → (has_output : Bool) → Option String → String → Response → Reply
  unfolding result_of
  handle_response d has_output output name r =
      if r.failure
      then request_error
      else read_reply has_output (first_output d) output name (parse_json r.body)
          (read (if is_fault_text r.body then d.fault_envelope else d.output_envelope) r.body)
