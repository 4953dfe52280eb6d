-- ===== src/Operation/Envelope/Bodies.antt =====
-- What `createEnvelopeDescriptor` of src/parser/wsdl/operation.js puts below Envelope, Header and Body
-- for an input or an output.
use strong_soap.Common.{
  String, Bool, true, false, ◌≡◌, refl, sym, ap, ◌∙◌, ◌==◌, Option, Bool-cases, inl, inr, none,
  some, truthy, or_else, List, [], ◌∷◌,
}
use strong_soap.Common.Result.{ok}
use strong_soap.QName.{of_parts}
use strong_soap.Descriptor.{
  ElementDescriptor, TypeDescriptor, content, elements, new_type, add, add_element, clone, Item,
  a_type, find_element, find_in,
}
use strong_soap.Descriptor.Adding.{first, first-none, added_element, find_element-add}
use strong_soap.Operation.Envelope.{
  item_body, add_item, add_header_types, wrap, add_fault, create_envelope_descriptor, envelope_ns,
}

-- The descriptor that a path of element names leads to.
abbrev pub at : TypeDescriptor → List String → Option TypeDescriptor
at t [] = some t
at t (n ∷ ns) = elim (find_element t n) [ none ↦ none | some e ↦ at (content e) ns ]

-- What the headers' type describes under a name.
abbrev pub header_element : Option TypeDescriptor → String → Option ElementDescriptor
header_element none n = none
header_element (some h) n = find_in (elements h) n

find_element-add_header_types :
    (h : Option TypeDescriptor) (u : TypeDescriptor) (n : String)
    → find_element (add_header_types h u) n ≡ first (find_element u n) (header_element h n)
unfolding add_header_types find_element find_in
find_element-add_header_types none u n = sym (first-none (find_element u n))
find_element-add_header_types (some h) u n = find_element-add u (a_type h) false n

pub or_else-truthy : (p : Option String) → truthy (or_else p "soap") ≡ true
or_else-truthy none = refl
or_else-truthy (some s) = elim (Bool-cases (s == "")) [
  | inl empty ↦ rw empty refl
  | inr full ↦ rw full (rw full refl)
]

pub name-of_parts :
    (ns : Option String) (n q : String) → truthy q ≡ true → (of_parts ns n (some q)).name ≡ n
unfolding of_parts
name-of_parts ns n q h = rw h refl

pub at-wrap :
    (ns : Option String) (p : Option String) (body : TypeDescriptor)
    → (at (wrap ns (or_else p "soap") body) ("Envelope" ∷ "Body" ∷ []) ≡ some body)
      × (at (wrap ns (or_else p "soap") body) ("Envelope" ∷ "Header" ∷ []) ≡ some new_type)
unfolding wrap add add_element clone find_element find_in
at-wrap ns p body =
    let named = λ (n : String). name-of_parts ns n (or_else p "soap") (or_else-truthy p) in
    rw (named "Envelope") (rw (named "Header") (rw (named "Body") (refl, refl)))

-- The descriptor of an input's or output's envelope is always built. Below Envelope and Body a name
-- leads to the element that the item describes, else to the one that the headers describe; Header is
-- empty.
pub create_envelope_descriptor-finds :
    (i : Item) (h : Option TypeDescriptor) (out : Bool) (v p ns : Option String)
    → (d : TypeDescriptor) × (b : TypeDescriptor) × (create_envelope_descriptor
          (record { body = item_body i; headers = h })
          out
          v
          p
          ns
        ≡ ok d)
      × (at d ("Envelope" ∷ "Body" ∷ []) ≡ some b)
      × (at d ("Envelope" ∷ "Header" ∷ []) ≡ some new_type)
      × ((n : String) → find_element b n ≡ first (added_element i false n) (header_element h n))
unfolding create_envelope_descriptor add_item add_fault find_element find_in
create_envelope_descriptor-finds i h out v p ns =
    let b = add_header_types h (add new_type i false) in
    let (body, header) = at-wrap (envelope_ns ns v) p b in
    (
      _,
      b,
      refl,
      body,
      header,
      λ n.
          find_element-add_header_types h (add new_type i false) n
          ∙ ap (λ o. first o (header_element h n)) (find_element-add new_type i false n),
    )
