-- ===== src/Client/Tests.antt =====
-- Runs of src/client.js, and its theorems at inputs.
use strong_soap.Common.{String, Bool, true, ◌≡◌, refl, none, some, [], ◌∷◌}
use strong_soap.Common.Dict.{Dict}
use strong_soap.XmlReader.Values.{text, object, Fields, no_field, field}
use strong_soap.Base.{Base, new_base, set_http_header}
use strong_soap.Client.{
  Given, missing, callable, value, Arguments, sort_arguments, strip_suffix, result_of,
}
use strong_soap.Client.Calling.{sort_arguments-orders}

abbrev one : Fields
one = field "a" (text "1") no_field

sort_arguments-orders_example :
    let sorted : Arguments Bool = record {
      args = value (object one);
      callback = callable true;
      options = value (object no_field);
      extra_headers = value (object one);
    } in
    let call = λ (x y z : Given Bool).
      sort_arguments
        (λ v. true)
        (record { args = value (object one); callback = x; options = y; extra_headers = z }) in
    (call (callable true) (value (object no_field)) (value (object one)) ≡ sorted)
    × ((call (value (object no_field)) (callable true) (value (object one)) ≡ sorted)
        × ((call (value (object no_field)) (value (object one)) (callable true) ≡ sorted)
            × (call (value (object no_field)) (value (object one)) missing
                ≡ record sorted { callback = missing })))
sort_arguments-orders_example = sort_arguments-orders (λ v. true) one no_field one true refl

-- With the function first, the options in the second place are lost.
lost_options_test :
    (sort_arguments {F = Bool}
      (λ v. true)
      (record {
        args = callable true;
        callback = value (object one);
        options = missing;
        extra_headers = missing;
      })).options
    ≡ missing
unfolding sort_arguments
lost_options_test = refl

abbrev client : Base
client = set_http_header new_base "Via" "b"

abbrev extra : Dict String
extra = ("soapHeaders", "x") ∷ ("SOAPAction", "urn:x") ∷ []

result_tests :
    (result_of
        (λ v. true)
        (some "QuoteResponse")
        none
        "Quote"
        (field "QuoteResponse" (text "1") no_field)
      ≡ text "1")
    × ((strip_suffix "QuoteOutput" ≡ "Quote") × (strip_suffix "OutQuote" ≡ "OutQuote"))
unfolding result_of strip_suffix
result_tests = (refl, (refl, refl))
