-- ===== src/HttpRequest.antt =====
-- src/http.js: `buildRequest` and `isNtlmAuthRequired`.
-- What node's url.parse makes of the resource's URL, the two values of the package uuid and the version
-- in package.json are arguments.
pub mod Headers
mod Tests
use Prim.Native.String
use strong_soap.Common.{
  ℕ, String, Bool, true, false, ◌&&◌, ◌==◌, not, Option, none, some, List, [], ◌∷◌, if◌then◌else◌,
  truthy, map,
}
use strong_soap.Common.Dict.{Dict, get, put}
use strong_soap.Common.Decimal.{decimal}

infixr 6 ◌++◌
abbrev ◌++◌ : String → String → String
s ++ t = String.◌++◌ s t

-- `curl.hostname` and `parseInt(curl.port, 10)`, which is NaN without a port.
pub record Url : Type 0 where
  pub hostname : Option String
  pub port : Option ℕ

-- The payload: none, a text or an object.
pub data Payload : Type 0 where
  no_data object_data : Payload
  text_data : String → Payload

pub record Attachment : Type 0 where
  pub mimetype : String
  pub content_id : String
  pub name : String
  pub body : String

-- A part of a multipart request: its headers and its body.
pub record RequestPart : Type 0 where
  pub headers : Dict String
  pub body : Payload

-- The values of the options for the package request. `given` stands for what the caller sets.
pub data OptionValue : Type 0 where
  url_value : Url → OptionValue
  text_value given : String → OptionValue
  flag : Bool → OptionValue
  header_values : Dict String → OptionValue
  body_value : Payload → OptionValue
  parts_value : List RequestPart → OptionValue
  attachment_values : List Attachment → OptionValue

abbrev pub is_sent : Payload → Bool
is_sent no_data = false
is_sent object_data = true
is_sent (text_data s) = truthy s

abbrev host_header : Url → String
host_header u =
    let host : String = elim u.hostname [ none ↦ "null" | some h ↦ h ] in
    elim u.port [ none ↦ host | some p ↦ host ++ (":" ++ decimal p) ]

abbrev pub default_headers : String → Url → Dict String
default_headers version u =
    ("User-Agent", "strong-soap/" ++ version)
    ∷ ("Accept", "text/html,application/xhtml+xml,application/xml,text/xml;q=0.9,*/*;q=0.8")
    ∷ ("Accept-Encoding", "none")
    ∷ ("Accept-Charset", "utf-8")
    ∷ ("Connection", "close")
    ∷ ("Host", host_header u)
    ∷ []

-- The headers that a text without attachments adds; the length is in bytes, and its text stands for
-- the number.
unfoldable pub payload_headers : Payload → List Attachment → Dict String → Dict String
payload_headers (text_data s) [] h =
    put "Content-Type" "application/x-www-form-urlencoded"
      (put "Content-Length" (decimal (String.len s)) h)
payload_headers d attachments h = h

-- `for (attr in extra) headers[attr] = extra[attr]`
unfoldable pub merge : Dict String → Dict String → Dict String
merge h [] = h
merge h ((k, v) ∷ extra) = merge (put k v h) extra

abbrev pub multipart_type : String → String → String
multipart_type start boundary =
    "multipart/related; type=\"application/xop+xml\"; start=\"<"
    ++ (start ++ (">\"; start-info=\"text/xml\"; boundary=" ++ boundary))

attachment_part : Attachment → RequestPart
attachment_part a = record {
  headers =
      ("Content-Type", a.mimetype)
      ∷ ("Content-Transfer-Encoding", "binary")
      ∷ ("Content-ID", "<" ++ (a.content_id ++ ">"))
      ∷ ("Content-Disposition", "attachment; filename=\"" ++ (a.name ++ "\""))
      ∷ [];
  body = text_data a.body;
}

-- The parts of a request with attachments, the payload first.
unfoldable pub request_parts : String → Payload → List Attachment → List RequestPart
unfolding attachment_part
request_parts start data_ attachments =
    record {
      headers =
          ("Content-Type", "application/xop+xml; charset=UTF-8; type=\"text/xml\"")
          ∷ ("Content-ID", "<" ++ (start ++ ">"))
          ∷ [];
      body = data_;
    }
    ∷ map attachment_part attachments

-- The headers before the caller's options: the multipart type is set after the extra headers.
unfoldable pub request_headers :
    String → Url → Payload → Dict String → List Attachment → String → String → Dict String
unfolding payload_headers merge
request_headers version u data_ extra attachments start boundary =
    let h = merge (payload_headers data_ attachments (default_headers version u)) extra in
    elim attachments [ [] ↦ h | ◌∷◌ a more ↦ put "Content-Type" (multipart_type start boundary) h ]

-- The branch of the loop over the caller's options for its headers.
unfoldable pub merge_headers : OptionValue → Dict OptionValue → Dict OptionValue
unfolding merge
merge_headers (header_values d) o = elim (get "headers" o) [
  | some (header_values h) ↦ put "headers" (header_values (merge h d)) o
  | _ ↦ o
]
merge_headers v o = o

-- The loop: headers are merged, any other option replaces.
unfoldable pub merge_options : Dict OptionValue → Dict OptionValue → Dict OptionValue
merge_options o [] = o
merge_options o ((k, v) ∷ extra) =
    merge_options (if k == "headers" then merge_headers v o else put k v o) extra

-- `exoptions.attachments || []`
abbrev pub attachments_of : Dict OptionValue → List Attachment
attachments_of extra = elim (get "attachments" extra) [ some (attachment_values l) ↦ l | _ ↦ [] ]

-- The options before the caller's: the payload is the body, or the first part.
unfoldable pub basic_options :
    String → Url → Payload → Dict String → List Attachment → String → String → Dict OptionValue
unfolding request_headers request_parts
basic_options version u data_ headers attachments start boundary =
    let h = request_headers version u data_ headers attachments start boundary in
    let basic : Dict OptionValue =
      ("uri", url_value u)
      ∷ ("method", text_value (if is_sent data_ then "POST" else "GET"))
      ∷ ("headers", header_values h)
      ∷ ("followAllRedirects", flag true)
      ∷ [] in
    elim attachments [
      | [] ↦ put "body" (body_value data_) basic
      | ◌∷◌ a more ↦ put "multipart" (parts_value (request_parts start data_ (a ∷ more))) basic
    ]

unfoldable pub build_request :
    String → Url → Payload → Dict String → Dict OptionValue → String → String → Dict OptionValue
unfolding basic_options merge_options
build_request version u data_ headers extra start boundary =
    merge_options (basic_options version u data_ headers (attachments_of extra) start boundary)
      extra

-- The NTLM security of the caller: `wsdlAuthRequired` may be missing.
unfoldable pub is_ntlm_auth_required : Option (Option Bool) → String → Bool
is_ntlm_auth_required none method = false
is_ntlm_auth_required (some required) method =
    if method == "GET" then elim required [ none ↦ false | some r ↦ r ] else true
