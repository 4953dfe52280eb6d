-- ===== src/Security/Tests.antt =====
-- src/security: the modules at concrete inputs.
use Prim.Native.String
use strong_soap.Common.{
  ℕ, String, Bool, true, false, ◌≡◌, refl, List, ◌∷◌, [], some, inr, code, eq_iff,
}
use strong_soap.XmlReader.Values.{Json, undefined, null_value, text, boolean}
use strong_soap.Security.{
  cookie_of, to_xml_date, Moment, Crypto, Options, given, WsSecurity, new_ws_security, nothing,
  add_soap_headers,
}
use strong_soap.Security.Receiver.{accepts}
use strong_soap.Security.Accepting.{add_soap_headers-accepts, add_soap_headers-refused}

cookies_test : cookie_of ("a=1; Path=/" ∷ "b=2" ∷ []) ≡ "a=1; b=2"
unfolding cookie_of
cookies_test = refl

abbrev now : Moment
now = record { year = 2019; month = 8; day = 3; hours = 23; minutes = 55; seconds = 59 }

abbrev later : Moment
later = record { year = 2019; month = 8; day = 4; hours = 0; minutes = 5; seconds = 59 }

date_test : to_xml_date now ≡ "2019-09-03T23:55:59Z"
unfolding to_xml_date
date_test = refl

abbrev codes : String → List ℕ
codes String.[] = []
codes (String.◌∷◌ c s) = code c ∷ codes s

-- A digest that shows how many bytes it is over.
abbrev tally : List ℕ → String
tally [] = ""
tally (b ∷ bs) = String.◌++◌ "x" (tally bs)

abbrev toy : Crypto
toy = record { decoded = codes; utf8 = codes; sha1 = tally }

abbrev is_true : Json → Bool
is_true undefined = false
is_true null_value = false
is_true (boolean b) = b
is_true v = true

abbrev nonce : String → String
nonce created = "n0"

abbrev digest_options : Options
digest_options = record {
  password_type = some "PasswordDigest";
  has_time_stamp = boolean false;
  has_token_created = undefined;
  has_nonce = undefined;
  actor = text "urn:actor";
  must_understand = boolean true;
}

abbrev without_created : Options
without_created = record digest_options { has_token_created = boolean false }

abbrev made_by : Options → WsSecurity
made_by o = new_ws_security is_true "user" "secret" (given o)

defaults_test : (new_ws_security is_true "user" "secret" nothing).has_time_stamp ≡ true
unfolding new_ws_security
defaults_test = refl

add_soap_headers-accepts_example :
    accepts toy "user" "secret"
      (add_soap_headers toy is_true nonce now later (made_by digest_options))
    ≡ true
unfolding new_ws_security
add_soap_headers-accepts_example =
    add_soap_headers-accepts toy is_true nonce now later (made_by digest_options) (inr refl)

add_soap_headers-refused_example :
    accepts toy "user" "secret"
      (add_soap_headers toy is_true nonce now later (made_by without_created))
    ≡ false
unfolding new_ws_security to_xml_date
add_soap_headers-refused_example =
    add_soap_headers-refused toy is_true nonce now later (made_by without_created)
      (λ e. cc ((eq_iff _ _).1 e)) refl (λ e. cc ((eq_iff _ _).1 e))
