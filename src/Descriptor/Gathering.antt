-- ===== src/Descriptor/Gathering.antt =====
-- The elements and attributes of descriptors of src/parser/xsd/descriptor.js as lists, and what `add`
-- makes of them.
use strong_soap.Common.{
  ◌≡◌, refl, ap, sym, ◌∙◌, Bool, none, some, Option, List, [], ◌∷◌, ◌++◌, append_assoc, append-nil,
}
use strong_soap.Descriptor.{
  AttributeDescriptor, ElementDescriptor, TypeDescriptor, descriptor, Elements, nil, cons, elements,
  attributes, extension, Extension, elements_list, push, add_element, add_attribute, add_elements,
  add_attributes, set_extension, clone, add, Item, an_element, an_attribute, a_type, other,
}

-- Elements and attributes, each in their order.
pub record Held : Type 0 where
  pub elements : List ElementDescriptor
  pub attributes : List AttributeDescriptor

abbrev pub nothing_held : Held
nothing_held = record { elements = []; attributes = [] }

abbrev pub joined : Held → Held → Held
joined x y = record {
  elements = x.elements ++ y.elements;
  attributes = x.attributes ++ y.attributes;
}

abbrev pub held : TypeDescriptor → Held
held t = record { elements = elements_list (elements t); attributes = attributes t }

-- What an item is to the descriptor that it is added to.
abbrev pub own : Bool → Item → Held
own many (an_element e) = record { elements = clone e many ∷ []; attributes = [] }
own many (an_attribute a) = record { elements = []; attributes = a ∷ [] }
own many (a_type t) = held t
own many other = nothing_held

elements-push :
    (es : Elements) (e : ElementDescriptor)
    → elements_list (push es e) ≡ elements_list es ++ (e ∷ [])
unfolding push
elements-push nil e = refl
elements-push (cons x es) e = ap (λ l. x ∷ l) (elements-push es e)

elements-add_element :
    (t : TypeDescriptor) (e : ElementDescriptor)
    → held (add_element t e) ≡ joined (held t) (record { elements = e ∷ []; attributes = [] })
unfolding add_element
elements-add_element (descriptor es ats ext mixed) e = rw (elements-push es e) (rw (append-nil ats))

attributes-add_attribute :
    (t : TypeDescriptor) (a : AttributeDescriptor)
    → held (add_attribute t a) ≡ joined (held t) (record { elements = []; attributes = a ∷ [] })
unfolding add_attribute
attributes-add_attribute (descriptor es ats ext mixed) a = rw (append-nil (elements_list es))

pub joined_assoc : (x y z : Held) → joined (joined x y) z ≡ joined x (joined y z)
joined_assoc x y z =
    rw (append_assoc x.elements y.elements z.elements)
      (rw (append_assoc x.attributes y.attributes z.attributes))

pub joined-nothing : (x : Held) → joined x nothing_held ≡ x
joined-nothing x = rw (append-nil x.elements) (rw (append-nil x.attributes))

elements-add_elements :
    (t : TypeDescriptor) (es : Elements)
    → held (add_elements t es)
      ≡ joined (held t) (record { elements = elements_list es; attributes = [] })
unfolding add_elements
elements-add_elements t nil = sym (joined-nothing (held t))
elements-add_elements t (cons e es) =
    elements-add_elements (add_element t e) es
    ∙ ap (λ x. joined x (record { elements = elements_list es; attributes = [] }))
        (elements-add_element t e)
    ∙ joined_assoc (held t) _ _

attributes-add_attributes :
    (t : TypeDescriptor) (ats : List AttributeDescriptor)
    → held (add_attributes t ats) ≡ joined (held t) (record { elements = []; attributes = ats })
unfolding add_attributes
attributes-add_attributes t [] = sym (joined-nothing (held t))
attributes-add_attributes t (a ∷ ats) =
    attributes-add_attributes (add_attribute t a) ats
    ∙ ap (λ x. joined x (record { elements = []; attributes = ats })) (attributes-add_attribute t a)
    ∙ joined_assoc (held t) _ _

held-set_extension : (t : TypeDescriptor) (x : Option Extension) → held (set_extension t x) ≡ held t
unfolding set_extension
held-set_extension (descriptor es ats ext mixed) none = refl
held-set_extension (descriptor es ats ext mixed) (some x) = refl

-- After what it held before, a descriptor holds what an item is to it.
pub held-add :
    (t : TypeDescriptor) (item : Item) (many : Bool)
    → held (add t item many) ≡ joined (held t) (own many item)
unfolding add
held-add t (an_element e) many = elements-add_element t (clone e many)
held-add t (an_attribute a) many = attributes-add_attribute t a
held-add t other many = sym (joined-nothing (held t))
held-add t (a_type u) many =
    held-set_extension _ (extension u)
    ∙ attributes-add_attributes (add_elements t (elements u)) (attributes u)
    ∙ ap (λ x. joined x (record { elements = []; attributes = attributes u }))
        (elements-add_elements t (elements u))
    ∙ joined_assoc (held t) _ _
    ∙ ap (joined (held t)) (rw (append-nil (elements_list (elements u))))
