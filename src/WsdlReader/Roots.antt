-- ===== src/WsdlReader/Roots.antt =====
-- The outermost element of a document under the events of `_parse` in src/parser/wsdl.js.
use strong_soap.Common.{String, ◌≡◌, Option, none, some, List, [], ◌∷◌, ◌⊎◌}
use strong_soap.Common.Dict.{Dict}
use strong_soap.Common.Result.{Result, error, assertion, ok, throw, diverge}
use strong_soap.QName.{QName}
use strong_soap.WsdlReader.Registry.{ElementClass}
use strong_soap.WsdlReader.{Frame, State}

-- The value of a call has a property, or a name was refused, or a child by types.
abbrev pub RefusedOr {ℓ} : {A : Type ℓ} → (A → Type 0) → Result A → Type 0
RefusedOr P (ok a) = P a
RefusedOr P (throw e) = (e ≡ error "Invalid qname: %s") ⊎ (e ≡ assertion)
RefusedOr P diverge = ⊥

-- The name, the class and the attributes of the outermost element.
abbrev pub root_of : List Frame → Option (String × ElementClass × Dict String)
root_of [] = none
root_of (f ∷ []) = some (f.head.ns_name, f.head.element_class, f.head.attributes)
root_of (f ∷ g ∷ fs) = root_of (g ∷ fs)

-- The root is as it was.
abbrev pub HasRoot : Option (String × ElementClass × Dict String) → State → Type 0
HasRoot r s = root_of s.stack ≡ r
