-- ===== src/Xsd/Typing.antt =====
-- The descriptor of one element in src/parser/xsd/element.js: what its type, its reference and its
-- attribute nillable make of it.
use strong_soap.Common.{
  String, ◌≡◌, refl, ap, sym, ◌∙◌, Bool, true, false, ◌||◌, Option, none, some, truthy?, Bool-cases,
  inl, inr,
}
use mathlib.Core.Path.{subst}
use strong_soap.QName.{QName}
use strong_soap.Common.Result.{ok, value-Chain}
use strong_soap.Descriptor.{
  ElementDescriptor, element, descriptor, info, new_element, clone, an_element, Form, form_of,
  new_type,
}
use strong_soap.Xsd.{
  Attrs, Target, a_ref, a_complex, a_simple, SimpleType, anonymous, simple_type, node, end, is_many,
  begin_element, get_form, get_qname, element_form, type_name, with_nillable, to_target, of_complex,
  of_simple, describe_typed, describe_inner, describe_anonymous, describe,
}

abbrev pub refers_to_nillable : Target → Bool
refers_to_nillable (a_ref r) = (info r).is_nillable
refers_to_nillable t = false

module _ (exceeds_one : String → Bool) where
  abbrev blank : Attrs → Option QName → Form → ElementDescriptor
  blank a type f =
      element
        (record {
          qname = get_qname a.target_namespace a.name;
          type = type;
          form = f;
          is_many = is_many exceeds_one a.max_occurs;
          is_simple = false;
          is_nillable = false;
          js_type = none;
        })
        new_type

  begin_element-blank :
      (a : Attrs) (type : Option QName) {d : ElementDescriptor}
      → begin_element exceeds_one a type ≡ ok d
      → (f : Form) × (d ≡ blank a type f)
  unfolding begin_element new_element
  begin_element-blank a type e =
      let c = value-Chain {first = form_of (some (get_form element_form a))} _ e in
      (c.middle, sym (cc c.left))

  to_target-nillable :
      (a : Attrs) (target : Target) (f : Form)
      → (info (
          to_target exceeds_one a target
            (with_nillable a.nillable (blank a (type_name exceeds_one target) f)))).is_nillable
        ≡ (truthy? a.nillable || refers_to_nillable target)
  unfolding to_target with_nillable of_complex of_simple clone
  to_target-nillable a (a_ref (element i (descriptor es ats ext mixed))) f =
      elim (Bool-cases (truthy? a.nillable)) [ inl e ↦ rw e refl | inr e ↦ rw e refl ]
  to_target-nillable a (a_complex ns n (descriptor es ats ext mixed)) f =
      elim (Bool-cases (truthy? a.nillable)) [ inl e ↦ rw e refl | inr e ↦ rw e refl ]
  to_target-nillable a (a_simple ns n js) f = elim (Bool-cases (truthy? a.nillable)) [
    | inl e ↦ rw e refl
    | inr e ↦ rw e refl
  ]

  made_from :
      (P : ElementDescriptor → Type 0) (a : Attrs) (target : Target) (d : ElementDescriptor)
      → describe_typed exceeds_one a target ≡ ok d
      → ((f : Form)
          → P (
              to_target exceeds_one a target
                (with_nillable a.nillable (blank a (type_name exceeds_one target) f))))
      → P d
  unfolding describe_typed
  made_from P a target d e h =
      let c =
        value-Chain {first = begin_element exceeds_one a (type_name exceeds_one target)} _ e in
      let (f, made) = begin_element-blank a (type_name exceeds_one target) c.reached in
      let same : d
          ≡ to_target exceeds_one a target
              (with_nillable a.nillable (blank a (type_name exceeds_one target) f)) =
        sym (cc c.left)
        ∙ ap (λ x. to_target exceeds_one a target (with_nillable a.nillable x)) made in
      subst P (sym same) (h f)

  -- The descriptor of an element with a type or a reference is nillable exactly where its attribute nillable has a text
  -- that is not empty, be it false, or where it refers to a nillable element.
  pub describe_typed-nillable :
      (a : Attrs) (target : Target) (d : ElementDescriptor)
      → describe_typed exceeds_one a target ≡ ok d
      → (info d).is_nillable ≡ (truthy? a.nillable || refers_to_nillable target)
  describe_typed-nillable a target d e =
      made_from (λ d. (info d).is_nillable ≡ (truthy? a.nillable || refers_to_nillable target)) a
        target d e (to_target-nillable a target)

  -- An element with a simple type inside is never described as nillable, whatever its attribute says.
  pub describe_inner-nillable :
      (a : Attrs) (s : SimpleType) (d : ElementDescriptor)
      → describe exceeds_one (anonymous a (node (simple_type s) end)) ≡ ok (an_element d)
      → ((info d).is_nillable ≡ false) × ((info d).is_simple ≡ true)
  unfolding describe describe_inner
  describe_inner-nillable a s d e =
      let outer = value-Chain {first = begin_element exceeds_one a none} _ e in
      let last =
        value-Chain
          {first = describe_anonymous exceeds_one a (with_nillable a.nillable outer.middle)
            (node (simple_type s) end)}
          _ outer.left in
      let inner = value-Chain {first = describe_inner exceeds_one a s} _ last.reached in
      let named = some (get_qname s.target_namespace a.name) in
      let first = value-Chain {first = begin_element exceeds_one a named} _ inner.reached in
      let (f, made) = begin_element-blank a named first.reached in
      let same : d ≡ of_simple (blank a named f) s.js_type =
        cc (last.left, inner.left, first.left, ap (λ x. of_simple x s.js_type) made) in
      rw same (unfold of_simple in (refl, refl))
