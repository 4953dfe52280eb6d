-- ===== src/Xsd/Tests.antt =====
-- Runs of the descriptions in src/parser/xsd, and their theorems at inputs.
use strong_soap.Common.{String, ◌≡◌, refl, Bool, true, false, none, some, [], ◌∷◌}
use strong_soap.Common.Result.{ok, ◌>>=◌}
use strong_soap.Descriptor.{
  ElementDescriptor, element, new_type, js_string, unqualified, new_element, an_element, info,
  clone,
}
use strong_soap.Descriptor.Gathering.{own}
use strong_soap.Xsd.{
  Attrs, begin_element, describe_inner, schema, no_schema, Target, a_simple, SimpleType, Node,
  typed, anonymous, simple_type, complex_type, particle, node, end, get_qname, describe,
  describe_typed,
}
use strong_soap.Xsd.Flat.{brought, describe-gathers}
use strong_soap.Xsd.Typing.{describe_inner-nillable}

-- No number is above one.
abbrev none_above : String → Bool
none_above s = false

-- An element of a schema's type, with nillable="false".
abbrev attrs : Attrs
attrs = record {
  target_namespace = some "urn:a";
  name = some "item";
  form = none;
  max_occurs = none;
  nillable = some "false";
  parents = no_schema ∷ schema none none ∷ [];
}

abbrev target : Target
target = a_simple (some "http://www.w3.org/2001/XMLSchema") (some "string") (some js_string)

abbrev item : ElementDescriptor
item =
    element
      (record {
        qname = get_qname (some "urn:a") (some "item");
        type = some (get_qname (some "http://www.w3.org/2001/XMLSchema") (some "string"));
        form = unqualified;
        is_many = false;
        is_simple = true;
        is_nillable = true;
        js_type = some js_string;
      })
      new_type

item_test : describe_typed none_above attrs target ≡ ok item
unfolding describe_typed begin_element new_element
item_test = refl

-- A sequence that may be repeated around one that may not.
abbrev nested : Node
nested = complex_type none (
    node (particle (some "unbounded") (node (particle none (node (typed attrs target) end)) end))
      end)

nested_test :
    brought none_above false nested
    ≡ ok (record { elements = clone item false ∷ []; attributes = [] })
unfolding brought describe describe_typed begin_element new_element
nested_test = refl

describe-gathers_example :
    (describe none_above nested >>= λ x. ok (own false x)) ≡ brought none_above false nested
describe-gathers_example = describe-gathers none_above false nested

abbrev inner : SimpleType
inner = record { target_namespace = some "urn:a"; js_type = some js_string }

abbrev inner_item : ElementDescriptor
inner_item =
    element
      (record {
        qname = get_qname (some "urn:a") (some "item");
        type = some (get_qname (some "urn:a") (some "item"));
        form = unqualified;
        is_many = false;
        is_simple = true;
        is_nillable = false;
        js_type = some js_string;
      })
      new_type

inner_test :
    describe none_above (anonymous attrs (node (simple_type inner) end))
    ≡ ok (an_element inner_item)
unfolding describe begin_element new_element describe_inner
inner_test = refl

describe_inner-nillable_example :
    ((info inner_item).is_nillable ≡ false) × ((info inner_item).is_simple ≡ true)
describe_inner-nillable_example =
    describe_inner-nillable none_above attrs inner inner_item inner_test
