-- ===== src/Descriptor/Tests.antt =====
-- Runs of src/parser/xsd/descriptor.js, and its theorems at inputs.
use strong_soap.Common.{String, Bool, ◌≡◌, refl, true, false, none, some, [], ◌∷◌}
use strong_soap.Common.Result.{ok, throw, assertion}
use strong_soap.QName.{QName}
use strong_soap.Descriptor.{
  AttributeDescriptor, qualified, unqualified, ElementDescriptor, element, TypeDescriptor,
  descriptor, nil, cons, new_attribute, new_element, new_type, clone, an_element, an_attribute,
  a_type, other, add, find_element, find_attribute, find,
}

program : Unit {0}
unfolding new_attribute new_element add clone find_element find_attribute find
program = tt

abbrev local : String → QName
local n = record { ns_uri = some "urn:t"; prefix = none; name = n }

abbrev attr : AttributeDescriptor
attr = record { qname = local "id"; type = none; form = unqualified }

abbrev leaf : String → Bool → ElementDescriptor
leaf n many =
    element
      (record {
        qname = local n;
        type = none;
        form = qualified;
        is_many = many;
        is_simple = false;
        is_nillable = false;
        js_type = none;
      })
      new_type

abbrev pair : TypeDescriptor
pair = descriptor (cons (leaf "a" false) (cons (leaf "b" true) nil)) (attr ∷ []) none false

constructor_tests :
    (new_element (local "a") none none false ≡ ok (leaf "a" false))
    × (new_attribute (local "id") none (some "unqualified") ≡ ok attr)
    × (new_element (local "a") none (some "any") true ≡ throw assertion)
unfolding program
constructor_tests = (refl, refl, refl)

add_tests :
    (add new_type (an_element (leaf "a" false)) true
      ≡ descriptor (cons (leaf "a" true) nil) [] none false)
    × (add new_type (a_type pair) true ≡ pair)
    × (find pair "b" ≡ an_element (leaf "b" true))
    × (find pair "id" ≡ an_attribute attr)
    × (find pair "c" ≡ other)
unfolding program
add_tests = (refl, refl, refl, refl, refl)
