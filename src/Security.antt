-- ===== src/Security.antt =====
-- src/security: WSSecurity.js, CookieSecurity.js, BasicAuthSecurity.js and BearerSecurity.js, with
-- `passwordDigest` and `toXMLDate` of src/utils.js. A security object adds elements to the Header of a
-- request, as calls on the package xmlbuilder, or a header to the HTTP request.
mod Receiver
mod Accepting
mod Tests
use Prim.Native.String
use strong_soap.Common.{
  ℕ, ◌+◌, String, Bool, true, false, ◌||◌, not, ◌==◌, Option, none, some, List, [], ◌∷◌, ◌++◌,
  if◌then◌else◌, ltb, nat_eq, or_else, truthy, code,
}
use strong_soap.Common.Decimal.{decimal}
use strong_soap.Common.Dict.{Dict, put}
use strong_soap.XmlReader.Values.{Json, undefined, text, boolean}
use strong_soap.XmlWriter.Values.{Calls, done, attribute, add_text, child, then_calls, is_nullish}

-- What the packages crypto and buffer compute: the bytes that a text in base 64 stands for, those of a
-- text, and the SHA-1 digest in base 64.
pub record Crypto : Type 0 where
  pub decoded : String → List ℕ
  pub utf8 : String → List ℕ
  pub sha1 : List ℕ → String

-- `passwordDigest(nonce, created, password)`, where the nonce may be undefined.
unfoldable pub password_digest : Crypto → Option String → String → String → String
password_digest c nonce created password =
    c.sha1 (c.decoded (or_else nonce "") ++ (c.utf8 created ++ c.utf8 password))

-- The UTC parts of a date, with the month counted from 0.
pub record Moment : Type 0 where
  pub year : ℕ
  pub month : ℕ
  pub day : ℕ
  pub hours : ℕ
  pub minutes : ℕ
  pub seconds : ℕ

abbrev pub pad : ℕ → String
pad n = if ltb n 10 then String.◌++◌ "0" (decimal n) else decimal n

unfoldable pub to_xml_date : Moment → String
unfolding decimal
to_xml_date d = String.◌++◌ (decimal d.year) (
    String.◌++◌ "-" (
      String.◌++◌ (pad (d.month + 1)) (
        String.◌++◌ "-" (
          String.◌++◌ (pad d.day) (
            String.◌++◌ "T" (
              String.◌++◌ (pad d.hours) (
                String.◌++◌ ":" (
                  String.◌++◌ (pad d.minutes)
                    (String.◌++◌ ":" (String.◌++◌ (pad d.seconds) "Z"))))))))))

-- The keys of the options that are read. A passwordType that is no text is like none.
pub record Options : Type 0 where
  pub password_type : Option String
  pub has_time_stamp : Json
  pub has_token_created : Json
  pub has_nonce : Json
  pub actor : Json
  pub must_understand : Json

-- The constructor's third argument: nothing, the name of a password type, or an object.
pub data Given : Type 0 where
  nothing : Given
  type_name : String → Given
  given : Options → Given

pub record WsSecurity : Type 0 where
  pub username : String
  pub password : String
  pub password_type : String
  pub has_time_stamp : Bool
  pub has_token_created : Bool
  pub has_nonce : Bool
  pub actor : Json
  pub must_understand : Bool

abbrev no_option : Options
no_option = record {
  password_type = none;
  has_time_stamp = undefined;
  has_token_created = undefined;
  has_nonce = undefined;
  actor = undefined;
  must_understand = undefined;
}

abbrev pub valid_type : String → String
valid_type t = if (t == "PasswordDigest") || (t == "PasswordText") then t else "PasswordText"

abbrev pub is_boolean : Json → Bool
is_boolean (boolean b) = true
is_boolean _ = false

-- `is_true` tells which values JavaScript takes for true.
module _ (is_true : Json → Bool) where
  -- `v || typeof v === 'boolean' ? !!v : true`
  abbrev pub true_or_set : Json → Bool
  true_or_set v = if is_true v || is_boolean v then is_true v else true

  -- A field that is set to `!!v` where `v != null`, as it is read later.
  abbrev pub set_flag : Json → Bool
  set_flag v = if is_nullish v then false else is_true v

  abbrev with_options : String → String → String → Options → WsSecurity
  with_options username password type o = record {
    username = username;
    password = password;
    password_type = valid_type type;
    has_time_stamp = true_or_set o.has_time_stamp;
    has_token_created = true_or_set o.has_token_created;
    has_nonce = set_flag o.has_nonce;
    actor = (if is_nullish o.actor then undefined else o.actor);
    must_understand = set_flag o.must_understand;
  }

  unfoldable pub new_ws_security : String → String → Given → WsSecurity
  new_ws_security username password nothing =
      with_options username password "PasswordText" no_option
  new_ws_security username password (type_name t) =
      with_options username password (or_else (some t) "PasswordText") no_option
  new_ws_security username password (given o) =
      with_options username password (or_else o.password_type "PasswordText") o

abbrev pub token_profile : String
token_profile =
    "http://docs.oasis-open.org/wss/2004/01/oasis-200401-wss-username-token-profile-1.0#"

abbrev pub message_security : String
message_security =
    "http://docs.oasis-open.org/wss/2004/01/oasis-200401-wss-soap-message-security-1.0#Base64Binary"

abbrev pub extension_uri : String
extension_uri = "http://docs.oasis-open.org/wss/2004/01/oasis-200401-wss-wssecurity-secext-1.0.xsd"

abbrev pub utility_uri : String
utility_uri = "http://docs.oasis-open.org/wss/2004/01/oasis-200401-wss-wssecurity-utility-1.0.xsd"

abbrev pub only_if : Bool → Calls → Calls
only_if b c = if b then c else done

abbrev pub labelled : String → String → String → String → Calls → Calls
labelled name key value content =
    child name none (attribute key (text value) (add_text (text content) done))

abbrev pub nonce_element : String → Calls
nonce_element nonce = labelled "wsse:Nonce" "EncodingType" message_security nonce done

abbrev pub timestamp : String → String → Calls
timestamp created expires =
    child "wsu:Timestamp" none
      (attribute "wsu:Id" (text (String.◌++◌ "Timestamp-" created)) (
        child "wsu:Created" (some (text created)) done
          (child "wsu:Expires" (some (text expires)) done done)))
      done

-- The password, with the nonce that has been made for it.
abbrev pub password_calls : Crypto → WsSecurity → String → Option String → Calls
password_calls c w created nonce =
    if w.password_type == "PasswordText"
    then labelled "wsse:Password" "Type" (String.◌++◌ token_profile "PasswordText") w.password
        (elim nonce [ none ↦ done | some n ↦ only_if (truthy n) (nonce_element n) ])
    else labelled "wsse:Password" "Type" (String.◌++◌ token_profile "PasswordDigest")
        (password_digest c nonce created w.password) (nonce_element (or_else nonce ""))

abbrev pub token : Crypto → WsSecurity → String → Option String → Calls
token c w created nonce =
    child "wsse:UsernameToken" none
      (attribute "wsu:Id" (text (String.◌++◌ "SecurityToken-" created)) (
        child "wsse:Username" (some (text w.username)) done (
          then_calls
            (only_if w.has_token_created (child "wsu:Created" (some (text created)) done done))
            (password_calls c w created nonce))))
      done

-- `addSoapHeaders` at the moment `now`, with the moment ten minutes later. `nonce` is the digest in base
-- 64 of the text that it is given and of `Math.random()`.
unfoldable pub add_soap_headers :
    Crypto → (Json → Bool) → (nonce : String → String) → (now later : Moment) → WsSecurity → Calls
unfolding password_digest
add_soap_headers c is_true nonce now later w =
    let created = to_xml_date now in
    let made : Option String =
      if w.has_nonce || not (w.password_type == "PasswordText")
      then some (nonce created)
      else none in
    child "wsse:Security" none
      (then_calls (only_if (is_true w.actor) (attribute "soap:actor" w.actor done)) (
        then_calls (only_if w.must_understand (attribute "soap:mustUnderstand" (text "1") done)) (
          attribute "xmlns:wsse" (text extension_uri) (
            attribute "xmlns:wsu" (text utility_uri) (
              then_calls (only_if w.has_time_stamp (timestamp created (to_xml_date later)))
                (token c w created made))))))
      done

-- `c.split(';')[0]`
unfoldable pub before_semicolon : String → String
before_semicolon String.[] = ""
before_semicolon (String.◌∷◌ c s) =
    let rest = String.◌∷◌ c (before_semicolon s) in if nat_eq (code c) b';' then "" else rest

-- The constructor of CookieSecurity, on a list of cookies; one cookie is a list of one.
unfoldable pub cookie_of : List String → String
unfolding before_semicolon
cookie_of [] = ""
cookie_of (c ∷ []) = before_semicolon c
cookie_of (c ∷ d ∷ cs) = String.◌++◌ (before_semicolon c) (String.◌++◌ "; " (cookie_of (d ∷ cs)))

-- The `addHttpHeaders` of CookieSecurity, BearerSecurity and BasicAuthSecurity.
abbrev pub add_cookie : String → Dict String → Dict String
add_cookie cookie headers = put "Cookie" cookie headers

abbrev pub add_bearer : String → Dict String → Dict String
add_bearer token headers = put "Authorization" (String.◌++◌ "Bearer " token) headers

abbrev pub add_basic : (base64 : String → String) → String → String → Dict String → Dict String
add_basic base64 username password headers =
    put "Authorization"
      (String.◌++◌ "Basic " (base64 (String.◌++◌ username (String.◌++◌ ":" password)))) headers
