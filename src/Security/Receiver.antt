-- ===== src/Security/Receiver.antt =====
-- A receiver of the Header that src/security/WSSecurity.js writes: it reads the UsernameToken and
-- checks the name and the password as the WS-Security UsernameToken profile 1.0 says, a Nonce or
-- Created that is not there counting as empty.
use Prim.Native.String
use strong_soap.Common.{
  String, Bool, false, ◌&&◌, ◌==◌, Option, none, some, ◌++◌, if◌then◌else◌, is_text, or_else,
}
use strong_soap.XmlReader.Values.{Json, text}
use strong_soap.XmlWriter.Values.{Calls, done, attribute, add_text, add_raw, add_cdata, child}
use strong_soap.Security.{Crypto, token, token_profile}

-- An element's text and what is called on it.
pub record Found : Type 0 where
  pub value : Option Json
  pub inner : Calls

-- The first child of that name.
unfoldable pub find_child : String → Calls → Option Found
find_child n done = none
find_child n (attribute k v c) = find_child n c
find_child n (add_text v c) = find_child n c
find_child n (add_raw v c) = find_child n c
find_child n (add_cdata v c) = find_child n c
find_child n (child m v inner c) =
    if m == n then some (record { value = v; inner = inner }) else find_child n c

abbrev plain : Json → Option String
plain (text t) = some t
plain v = none

abbrev first_text : Calls → Option String
first_text done = none
first_text (attribute k v c) = first_text c
first_text (add_text v c) = plain v
first_text (add_raw v c) = first_text c
first_text (add_cdata v c) = first_text c
first_text (child m v inner c) = first_text c

abbrev pub text_of : Option Found → Option String
text_of none = none
text_of (some f) = elim f.value [ none ↦ first_text f.inner | some v ↦ plain v ]

unfoldable pub find_attribute : String → Calls → Option String
find_attribute n done = none
find_attribute n (attribute k v c) = if k == n then plain v else find_attribute n c
find_attribute n (add_text v c) = find_attribute n c
find_attribute n (add_raw v c) = find_attribute n c
find_attribute n (add_cdata v c) = find_attribute n c
find_attribute n (child m v inner c) = find_attribute n c

-- The password of a token is the text or, by its Type, the digest with the Nonce and the Created beside it.
unfoldable pub accepts_password : Crypto → String → Calls → Option Found → Bool
unfolding find_child find_attribute
accepts_password c password token none = false
accepts_password c password token (some p) =
    if is_text (find_attribute "Type" p.inner) (String.◌++◌ token_profile "PasswordDigest")
    then is_text (text_of (some p)) (
        c.sha1 (
          c.decoded (or_else (text_of (find_child "wsse:Nonce" token)) "")
          ++ (c.utf8 (or_else (text_of (find_child "wsu:Created" token)) "") ++ c.utf8 password)))
    else is_text (text_of (some p)) password

abbrev pub inner_of : Option Found → Calls
inner_of none = done
inner_of (some f) = f.inner

abbrev pub token_of : Calls → Calls
token_of header =
    inner_of (find_child "wsse:UsernameToken" (inner_of (find_child "wsse:Security" header)))

unfoldable pub accepts : Crypto → String → String → Calls → Bool
unfolding find_child accepts_password
accepts c username password header =
    is_text (text_of (find_child "wsse:Username" (token_of header))) username
    && accepts_password c password (token_of header) (find_child "wsse:Password" (token_of header))
