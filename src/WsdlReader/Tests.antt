-- ===== src/WsdlReader/Tests.antt =====
-- Runs of the reading of documents in src/parser/wsdl.js and src/parser/element.js, and their theorems
-- at inputs.
use strong_soap.Common.{◌≡◌, refl, none, some, List, [], ◌∷◌}
use strong_soap.Common.Dict.{get}
use strong_soap.Common.Result.{ok, throw, assertion, ◌>>=◌}
use strong_soap.QName.{parse, exec, has_brace}
use strong_soap.Descriptor.Adding.{first}
use strong_soap.XmlReader.{Event, opened, closed, text_read}
use strong_soap.WsdlReader.Registry.{
  registered, plain, wsdl_uri, soap_element, soap_uri, get_element_type,
}
use strong_soap.WsdlReader.{Frame, no_tree, end_element, run}
use strong_soap.WsdlReader.Reading.{root_xmlns, end_element-declares}

abbrev definitions : Frame
definitions = record {
  head = record {
    ns_name = "definitions";
    prefix = "";
    name = "definitions";
    ns_uri = some "";
    element_class = registered wsdl_uri "definitions";
    xmlns = ("", wsdl_uri) ∷ [];
    attributes = ("name", "a") ∷ [];
    value = none;
    target_namespace = none;
  };
  children = no_tree;
}

-- An element of a vocabulary that the program does not know.
abbrev unknown : Frame
unknown = record {
  head = record {
    ns_name = "p:policy";
    prefix = "p";
    name = "policy";
    ns_uri = some "urn:p";
    element_class = plain;
    xmlns = ("p", "urn:p") ∷ [];
    attributes = [];
    value = none;
    target_namespace = none;
  };
  children = no_tree;
}

soap_test : get_element_type (some soap_uri) "binding" ≡ soap_element
unfolding get_element_type
soap_test = refl

abbrev events : List Event
events = text_read "t" ∷ closed "definitions" ∷ opened "types" [] ∷ closed "types" ∷ []

end_element-declares_example :
    (end_element "p:policy" unknown (definitions ∷ []) >>= λ (stack : List Frame).
    ok (get "p" (root_xmlns stack)))
    ≡ ok (first (get "p" (root_xmlns (definitions ∷ []))) (get "p" unknown.head.xmlns))
end_element-declares_example = end_element-declares unknown definitions [] "p" refl

-- An element that is no schema, within types.
refused_test :
    run
      (opened "types" [] ∷ opened "foo" [] ∷ closed "foo" ∷ [])
      (record { stack = definitions ∷ []; text = "" })
    ≡ throw assertion
unfolding run parse exec has_brace get_element_type
refused_test = refl
