-- ===== src/HttpRequest/Tests.antt =====
-- Runs of `buildRequest` of src/http.js, and its theorem at inputs.
use strong_soap.Common.{String, true, false, ◌≡◌, refl, none, some, [], ◌∷◌}
use strong_soap.Common.Dict.{Dict, get}
use strong_soap.Common.Decimal.{decimal}
use strong_soap.HttpRequest.{
  Url, no_data, text_data, OptionValue, header_values, text_value, given, build_request,
  payload_headers, is_ntlm_auth_required, merge_headers,
}

program : Unit {0}
unfolding build_request payload_headers is_ntlm_auth_required decimal merge_headers
program = tt

abbrev host : Url
host = record { hostname = some "example.org"; port = some 8080 }

abbrev soap_headers : Dict String
soap_headers = ("Content-Type", "text/xml") ∷ ("SOAPAction", "urn:a") ∷ []

abbrev own_options : Dict OptionValue
own_options = ("timeout", given "100") ∷ ("headers", header_values (("Host", "proxy") ∷ [])) ∷ []

request_tests :
    (get "method" (build_request "5" host no_data [] [] "s" "b") ≡ some (text_value "GET"))
    × (get "headers" (build_request "5" host (text_data "<a/>") soap_headers own_options "s" "b")
        ≡ some (
            header_values (
              ("User-Agent", "strong-soap/5")
              ∷ (
                "Accept",
                "text/html,application/xhtml+xml,application/xml,text/xml;q=0.9,*/*;q=0.8",
              )
              ∷ ("Accept-Encoding", "none")
              ∷ ("Accept-Charset", "utf-8")
              ∷ ("Connection", "close")
              ∷ ("Host", "proxy")
              ∷ ("Content-Length", "4")
              ∷ ("Content-Type", "text/xml")
              ∷ ("SOAPAction", "urn:a")
              ∷ [])))
    × (get "timeout" (build_request "5" host no_data [] own_options "s" "b") ≡ some (given "100"))
unfolding program
request_tests = (refl, refl, refl)

ntlm_tests :
    (is_ntlm_auth_required (some none) "GET" ≡ false)
    × (is_ntlm_auth_required (some (some true)) "GET" ≡ true)
    × (is_ntlm_auth_required (some none) "POST" ≡ true)
    × (is_ntlm_auth_required none "POST" ≡ false)
unfolding program
ntlm_tests = (refl, refl, refl, refl)
