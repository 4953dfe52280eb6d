-- ===== src/Restriction/Tests.antt =====
-- Runs of src/parser/xsd/restriction.js, and its theorems at inputs.
use strong_soap.Common.{true, false, ltb, nat_eq, ◌≡◌, refl, none, some}
use strong_soap.Common.Result.{ok}
use strong_soap.XmlReader.Values.{text}
use strong_soap.XmlReader.{new_options}
use strong_soap.XmlWriter.{Handler}
use strong_soap.Restriction.{
  Facets, no_facets, add_child, Conversions, enforce, text_below, text_length,
}
use strong_soap.Restriction.Texts.{refusal}

-- Every facet's number is taken for 3.
abbrev conversions : Conversions
conversions = record {
  below = λ v t. false;
  at_most = λ v t. false;
  at_least = λ v t. false;
  above = λ v t. false;
  count_above = λ n t. ltb 3 n;
  count_below = λ n t. ltb n 3;
  count_is = λ n t. nat_eq n 3;
  is_nan = λ v. false;
  to_text = λ v. "";
  to_fixed = λ s t. s;
  integer_digits = λ s. 0;
  to_fixed_rest = λ s t n. s;
  matches = λ t v. true;
}

abbrev facets : Facets
facets =
    add_child (add_child (add_child no_facets "minInclusive" "9") "length" "3") "whiteSpace"
      "collapse"

-- The text 10 is refused where at least 9 is asked for.
limit_test :
    enforce conversions none (record no_facets { min_inclusive = some "9" }) (text "10") ≡ refusal
unfolding enforce text_below
limit_test = refl

-- One character beyond U+FFFF has the length 2, and is below U+FF61.
length_test : text_length "😀" ≡ 2
unfolding text_length
length_test = refl

order_test : text_below "😀" "｡" ≡ true
unfolding text_below
order_test = refl

abbrev handler : Handler
handler = record {
  options = new_options none none none none;
  ignore_unknown_properties = false;
  enforce_restrictions = true;
  timezone_enabled = true;
  iso = λ v. none;
  nonzero = λ v. true;
  restriction = λ q. none;
  described = λ q. ok none;
  subtype = λ e v. none;
}
