-- ===== src/Base/Tests.antt =====
-- Runs of the methods of src/base.js, and its theorems at inputs.
use strong_soap.Common.{
  String, true, false, ◌≡◌, ◌≢◌, refl, Option, none, some, [], ◌∷◌, arith, eq_iff, ◌==◌,
  if◌then◌else◌,
}
use strong_soap.Common.Dict.{Dict, get}
use strong_soap.Common.Result.{Result, ok}
use strong_soap.QName.{QName}
use strong_soap.NsContext.{NamespaceContext, get_namespace_uri}
use strong_soap.Descriptor.{ElementDescriptor}
use strong_soap.XmlReader.Values.{text}
use strong_soap.XmlReader.{new_options}
use strong_soap.XmlWriter.{Handler}
use strong_soap.XmlWriter.Values.{Calls, done, add_text}
use strong_soap.Base.{Base, new_base, add_soap_header, create_namespace_context}
use strong_soap.Base.Prefixes.{taken, NotReserved, create_namespace_context-resolves}

abbrev name : Option QName
name = some (record { ns_uri = some "urn:h"; prefix = some ""; name = "Token" })

abbrev one_header : Base
one_header = (add_soap_header new_base (text "<a/>") none).0

abbrev handler : Handler
handler = record {
  options = new_options none none none none;
  ignore_unknown_properties = false;
  enforce_restrictions = false;
  timezone_enabled = true;
  iso = λ v. none;
  nonzero = λ v. true;
  restriction = λ q. none;
  described = λ q. ok none;
  subtype = λ e v. none;
}

abbrev no_element : String → String → Option (Result ElementDescriptor)
no_element u n = none

abbrev parsed : Option String → Result Calls
parsed none = ok done
parsed (some t) = ok (add_text (text t) done)

abbrev namespaces : Dict String
namespaces = ("tns", "urn:b") ∷ ("wsdl", "http://schemas.xmlsoap.org/wsdl/") ∷ []

not_equal : (a b : String) → (a == b) ≡ false → a ≢ b
not_equal a b h e = ground (arith, eq_iff a b)

create_namespace_context-resolves_example :
    (c : NamespaceContext) × ((create_namespace_context namespaces "soap" "urn:e" ≡ ok c)
      × ((q : String)
          → NotReserved q
          → get_namespace_uri c q false
            ≡ taken (get q namespaces) (if "soap" == q then some "urn:e" else none)))
create_namespace_context-resolves_example =
    create_namespace_context-resolves namespaces "soap" "urn:e" (refl, (refl, tt))
      (
        (not_equal "tns" "xml" refl, not_equal "tns" "xmlns" refl),
        ((not_equal "wsdl" "xml" refl, not_equal "wsdl" "xmlns" refl), tt),
      )
      (not_equal "soap" "" refl, (not_equal "soap" "xml" refl, not_equal "soap" "xmlns" refl))
