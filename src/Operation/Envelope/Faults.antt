-- ===== src/Operation/Envelope/Faults.antt =====
-- The Fault in the envelopes of src/parser/wsdl/operation.js, and when `describe` ends in a descriptor.
use strong_soap.Common.{
  String, true, false, ◌≡◌, ◌≢◌, refl, sym, ap, ◌∙◌, Option, none, some, List, [], ◌∷◌, or_else,
  All, ◌++◌, Option-cases, inl, inr,
}
use strong_soap.Common.Result.{ok}
use strong_soap.Descriptor.{
  ElementDescriptor, TypeDescriptor, descriptor, Elements, nil, content, new_type, Item, add,
  add_element, push, clone, an_element, find_element, find_in,
}
use strong_soap.Descriptor.Adding.{first, first_assoc, first-none, added_element, find_element-add}
use strong_soap.Operation.{
  Operation, Style, document_encoded, FaultPart, no_part, typed_part, element_part,
  document_literal, document_literal_wrapped, rpc_literal, rpc_encoded, describe_bodies,
}
use strong_soap.Operation.Envelope.{
  fault_body, add_faults, add_item, add_header_types, add_fault, fault_element, fault_1_1,
  fault_1_2, with_element, wrap, create_envelope_descriptor, envelope_ns, describe_faults, describe,
  OperationDescriptor,
}
use strong_soap.Operation.Envelope.Bodies.{at, at-wrap, name-of_parts, or_else-truthy}

-- The first of the declared faults with a name, as the detail element describes it.
abbrev pub declared : List ElementDescriptor → String → Option ElementDescriptor
declared [] n = none
declared (f ∷ fs) n = first (added_element (an_element f) false n) (declared fs n)

find_element-add_faults :
    (t : TypeDescriptor) (fs : List ElementDescriptor) (n : String)
    → find_element (add_faults t fs) n ≡ first (find_element t n) (declared fs n)
unfolding add_faults
find_element-add_faults t [] n = sym (first-none (find_element t n))
find_element-add_faults t (f ∷ fs) n =
    find_element-add_faults (with_element t f) fs n
    ∙ ap (λ o. first o (declared fs n)) (find_element-add t (an_element f) false n)
    ∙ first_assoc (find_element t n) (added_element (an_element f) false n) (declared fs n)

-- The two versions with a Fault.
pub data Version : Type 0 where
  soap_1_1 soap_1_2 : Version

abbrev pub text : Version → String
text soap_1_1 = "1.1"
text soap_1_2 = "1.2"

abbrev pub detail_name : Version → String
detail_name soap_1_1 = "detail"
detail_name soap_1_2 = "Detail"

abbrev fault_of : Version → Option String → String → List ElementDescriptor → ElementDescriptor
fault_of soap_1_1 = fault_1_1
fault_of soap_1_2 = fault_1_2

add_faults-shape :
    (es : Elements) (fs : List ElementDescriptor)
    → (es' : Elements) × (add_faults (descriptor es [] none false) fs
        ≡ descriptor es' [] none false)
unfolding add_faults add add_element
add_faults-shape es [] = (es, refl)
add_faults-shape es (f ∷ fs) = add_faults-shape (push es (clone f false)) fs

at_fault :
    (v : Version) (ns p : Option String) (fs : List ElementDescriptor)
    → at
        (with_element new_type (fault_of v ns (or_else p "soap") fs))
        ("Fault" ∷ detail_name v ∷ [])
      ≡ some (add_faults new_type fs)
unfolding fault_1_1 fault_1_2 add add_element clone find_element find_in push
at_fault soap_1_1 ns p fs =
    let named = λ (n : String). name-of_parts ns n (or_else p "soap") (or_else-truthy p) in
    let (_, shape) = add_faults-shape nil fs in
    rw shape (
      rw (named "Fault") (
        rw (named "faultcode")
          (rw (named "faultstring") (rw (named "faultactor") (rw (named "detail") refl)))))
at_fault soap_1_2 ns p fs =
    let named = λ (n : String). name-of_parts ns n (or_else p "soap") (or_else-truthy p) in
    let (_, shape) = add_faults-shape nil fs in
    rw shape (
      rw (named "Fault") (
        rw (named "Code")
          (rw (named "Reason") (rw (named "Node") (rw (named "Role") (rw (named "Detail") refl))))))

at-cons :
    (t : TypeDescriptor) (x : String) (xs : List String) (e : ElementDescriptor)
    → find_element t x ≡ some e
    → at t (x ∷ xs) ≡ at (content e) xs
at-cons t x xs e h = rw (h, at) refl

at-missing :
    (t : TypeDescriptor) (x : String) (xs : List String)
    → find_element t x ≡ none
    → at t (x ∷ xs) ≡ none
at-missing t x xs h = rw (h, at) refl

at-append :
    (t : TypeDescriptor) (xs ys : List String) {u : TypeDescriptor}
    → at t xs ≡ some u
    → at t (xs ++ ys) ≡ at u ys
at-append t [] ys {u} h = cc h
at-append t (x ∷ xs) ys {u} h = elim (Option-cases (find_element t x)) [
  | inl e ↦ absurd (cc (at-missing t x xs e, h))
  | inr (e, found) ↦
      at-cons t x (xs ++ ys) e found
      ∙ at-append (content e) xs ys {u = u} (sym (at-cons t x xs e found) ∙ h)
]

envelope_of :
    (v : Version) (fs : List ElementDescriptor) (p ns : Option String)
    → create_envelope_descriptor
        (record { body = fault_body fs; headers = none })
        true
        (some (text v))
        p
        ns
      ≡ ok (
          wrap (envelope_ns ns (some (text v))) (or_else p "soap") (
            with_element new_type
              (fault_of v (envelope_ns ns (some (text v))) (or_else p "soap") fs)))
unfolding create_envelope_descriptor add_item add_header_types add_fault fault_element
envelope_of soap_1_1 fs p ns = refl
envelope_of soap_1_2 fs p ns = refl

-- For SOAP 1.1 and 1.2 the descriptor of the envelope for faults is built, and below Envelope, Body,
-- Fault and detail (Detail in 1.2) a name leads to the first declared fault with that name.
pub fault_envelope-finds :
    (v : Version) (fs : List ElementDescriptor) (p ns : Option String)
    → (d : TypeDescriptor) × (detail : TypeDescriptor) × (create_envelope_descriptor
          (record { body = fault_body fs; headers = none })
          true
          (some (text v))
          p
          ns
        ≡ ok d)
      × (at d ("Envelope" ∷ "Body" ∷ "Fault" ∷ detail_name v ∷ []) ≡ some detail)
      × ((n : String) → find_element detail n ≡ declared fs n)
unfolding find_element find_in
fault_envelope-finds v fs p ns =
    let q = envelope_ns ns (some (text v)) in
    let body = with_element new_type (fault_of v q (or_else p "soap") fs) in
    let (below, _) = at-wrap q p body in
    (
      wrap q (or_else p "soap") body,
      add_faults new_type fs,
      envelope_of v fs p ns,
      at-append (wrap q (or_else p "soap") body) ("Envelope" ∷ "Body" ∷ [])
            ("Fault" ∷ detail_name v ∷ []) {u = body} below
          ∙ at_fault v q p fs,
      find_element-add_faults new_type fs,
    )

describe_bodies_total :
    (o : Operation) (m : Option Style)
    → m ≢ some document_encoded
    → (r : Item × Item) × (describe_bodies o m ≡ ok r)
unfolding describe_bodies
describe_bodies_total o none h = (_, refl)
describe_bodies_total o (some document_literal_wrapped) h = (_, refl)
describe_bodies_total o (some document_literal) h = (_, refl)
describe_bodies_total o (some rpc_literal) h = (_, refl)
describe_bodies_total o (some rpc_encoded) h = (_, refl)
describe_bodies_total o (some document_encoded) h = absurd (h refl)

describe_faults_total :
    (fs : List FaultPart)
    → All (λ f. f ≢ no_part) fs
    → (r : List ElementDescriptor) × (describe_faults fs ≡ ok r)
unfolding describe_faults
describe_faults_total [] h = ([], refl)
describe_faults_total (no_part ∷ fs) (h, hs) = absurd (h refl)
describe_faults_total (typed_part ∷ fs) (h, hs) = describe_faults_total fs hs
describe_faults_total (element_part e ∷ fs) (h, hs) =
    let (r, k) = describe_faults_total fs hs in (e.described ∷ r, rw k refl)

-- `describe` ends in a descriptor for an operation of SOAP 1.1 or 1.2 whose mode is not
-- documentEncoded and whose faults have messages with parts.
pub describe_total :
    (o : Operation) (m : Option Style) (v : Version)
    → o.soap_version ≡ some (text v)
    → m ≢ some document_encoded
    → All (λ f. f ≢ no_part) o.faults
    → (d : OperationDescriptor) × (describe o m ≡ ok d)
unfolding describe create_envelope_descriptor add_fault
describe_total o m v version mode faults =
    let (r, bodies) = describe_bodies_total o m mode in
    let (fs, described) = describe_faults_total o.faults faults in
    rw bodies (rw described (rw version (rw (envelope_of v fs none none) (_, refl))))
