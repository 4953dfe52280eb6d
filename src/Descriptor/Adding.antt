-- ===== src/Descriptor/Adding.antt =====
-- What `add`, `clone` and the lookups of src/parser/xsd/descriptor.js do together.
use strong_soap.Common.{
  String, ◌≡◌, refl, ap, sym, ◌∙◌, Bool, true, false, ◌||◌, ◌==◌, Option, none, some, List, [], ◌∷◌,
  ◌++◌, arith, if◌then◌else◌, append_assoc, append-nil,
}
use strong_soap.Descriptor.{
  AttributeDescriptor, ElementDescriptor, element, TypeDescriptor, descriptor, Elements, nil, cons,
  info, elements, attributes, extension, Extension, push, add_element, add_attribute, clone, Item,
  an_element, an_attribute, a_type, other, add_elements, add_attributes, set_extension, add,
  find_in, find_element, find_attribute, find_attribute_in,
}

-- The first of two results.
abbrev pub first {ℓ} : {A : Type ℓ} → Option A → Option A → Option A
first none b = b
first (some a) b = some a

find_in-push :
    (es : Elements) (e : ElementDescriptor) (n : String)
    → find_in (push es e) n ≡ first (find_in es n) (find_in (cons e nil) n)
unfolding find_in push
find_in-push nil e n = refl
find_in-push (cons x es) e n = ground (arith, find_in-push es e n)

pub first_assoc {ℓ} : {A : Type ℓ} (a b c : Option A) → first (first a b) c ≡ first a (first b c)
first_assoc none b c = refl
first_assoc (some a) b c = refl

pub first-none {ℓ} : {A : Type ℓ} (a : Option A) → first a none ≡ a
first-none none = refl
first-none (some a) = refl

find_in-cons :
    (e : ElementDescriptor) (es : Elements) (n : String)
    → find_in (cons e es) n ≡ first (find_in (cons e nil) n) (find_in es n)
unfolding find_in
find_in-cons e es n = ground arith

find_element-add_element :
    (t : TypeDescriptor) (e : ElementDescriptor) (n : String)
    → find_element (add_element t e) n ≡ first (find_element t n) (find_in (cons e nil) n)
unfolding find_element add_element
find_element-add_element (descriptor es ats ext mixed) e n = find_in-push es e n

find_element-add_elements :
    (t : TypeDescriptor) (es : Elements) (n : String)
    → find_element (add_elements t es) n ≡ first (find_element t n) (find_in es n)
unfolding add_elements find_in
find_element-add_elements t nil n = sym (first-none (find_element t n))
find_element-add_elements t (cons e es) n =
    find_element-add_elements (add_element t e) es n
    ∙ ap (λ o. first o (find_in es n)) (find_element-add_element t e n)
    ∙ first_assoc (find_element t n) (find_in (cons e nil) n) (find_in es n)
    ∙ ap (first (find_element t n)) (sym (find_in-cons e es n))

elements-add_attributes :
    (t : TypeDescriptor) (ats : List AttributeDescriptor)
    → elements (add_attributes t ats) ≡ elements t
unfolding add_attributes add_attribute
elements-add_attributes t [] = refl
elements-add_attributes (descriptor es bs ext mixed) (x ∷ ats) =
    elements-add_attributes (add_attribute (descriptor es bs ext mixed) x) ats

elements-set_extension :
    (t : TypeDescriptor) (x : Option Extension) → elements (set_extension t x) ≡ elements t
unfolding set_extension
elements-set_extension t none = refl
elements-set_extension (descriptor es ats ext mixed) (some x) = refl

cloned-find :
    (e : ElementDescriptor) (is_many : Bool) (n : String)
    → find_in (cons (clone e is_many) nil) n
      ≡ (if (info e).qname.name == n then some (clone e is_many) else none)
unfolding find_in clone
cloned-find (element i (descriptor es ats ext mixed)) is_many n = refl

-- The element with a name that an added item brings.
abbrev pub added_element : Item → Bool → String → Option ElementDescriptor
added_element (an_element e) is_many n =
    if (info e).qname.name == n then some (clone e is_many) else none
added_element (a_type u) is_many n = find_element u n
added_element _ is_many n = none

-- After `add` of any item, `findElement` returns what it returned before, and only where that was
-- null the element that the item brings: of an element a clone, of a type its own first match.
pub find_element-add :
    (t : TypeDescriptor) (item : Item) (is_many : Bool) (n : String)
    → find_element (add t item is_many) n ≡ first (find_element t n) (added_element item is_many n)
unfolding add find_element
find_element-add t (an_element e) is_many n =
    find_element-add_element t (clone e is_many) n
    ∙ ap (first (find_element t n)) (cloned-find e is_many n)
find_element-add t (an_attribute a) is_many n =
    ap (λ es. find_in es n) (elements-add_attributes t (a ∷ []))
    ∙ sym (first-none (find_element t n))
find_element-add t (a_type u) is_many n =
    let grown = add_elements t (elements u) in
    ap (λ es. find_in es n)
      (elements-set_extension (add_attributes grown (attributes u)) (extension u)
        ∙ elements-add_attributes grown (attributes u))
    ∙ find_element-add_elements t (elements u) n
find_element-add t other is_many n = sym (first-none (find_element t n))

-- Cloning keeps a repeated element repeated: two clones are one with both flags, and all that the
-- lookups read is unchanged.
pub clone-clone : (e : ElementDescriptor) (a b : Bool) → clone (clone e a) b ≡ clone e (b || a)
unfolding clone
clone-clone (element i (descriptor es ats ext mixed)) true true = refl
clone-clone (element i (descriptor es ats ext mixed)) true false = refl
clone-clone (element i (descriptor es ats ext mixed)) false true = refl
clone-clone (element i (descriptor es ats ext mixed)) false false = refl

find_attribute_in-append :
    (ats bs : List AttributeDescriptor) (n : String)
    → find_attribute_in (ats ++ bs) n ≡ first (find_attribute_in ats n) (find_attribute_in bs n)
unfolding find_attribute_in
find_attribute_in-append [] bs n = refl
find_attribute_in-append (a ∷ ats) bs n = ground (arith, find_attribute_in-append ats bs n)

attributes-add_elements :
    (t : TypeDescriptor) (es : Elements) → attributes (add_elements t es) ≡ attributes t
unfolding add_elements add_element
attributes-add_elements t nil = refl
attributes-add_elements (descriptor es bs ext mixed) (cons e fs) =
    attributes-add_elements (add_element (descriptor es bs ext mixed) e) fs

attributes-add_attributes :
    (t : TypeDescriptor) (ats : List AttributeDescriptor)
    → attributes (add_attributes t ats) ≡ attributes t ++ ats
unfolding add_attributes add_attribute
attributes-add_attributes t [] = sym (append-nil (attributes t))
attributes-add_attributes (descriptor es bs ext mixed) (x ∷ ats) =
    attributes-add_attributes (add_attribute (descriptor es bs ext mixed) x) ats
    ∙ append_assoc bs (x ∷ []) ats

attributes-set_extension :
    (t : TypeDescriptor) (x : Option Extension) → attributes (set_extension t x) ≡ attributes t
unfolding set_extension
attributes-set_extension t none = refl
attributes-set_extension (descriptor es ats ext mixed) (some x) = refl

-- The attributes that an added item brings.
abbrev pub added_attributes : Item → List AttributeDescriptor
added_attributes (an_attribute a) = a ∷ []
added_attributes (a_type u) = attributes u
added_attributes _ = []

attributes-add :
    (t : TypeDescriptor) (item : Item) (is_many : Bool)
    → attributes (add t item is_many) ≡ attributes t ++ added_attributes item
unfolding add add_element
attributes-add (descriptor es ats ext mixed) (an_element e) is_many = sym (append-nil ats)
attributes-add t (an_attribute a) is_many = attributes-add_attributes t (a ∷ [])
attributes-add t (a_type u) is_many =
    let grown = add_elements t (elements u) in
    attributes-set_extension (add_attributes grown (attributes u)) (extension u)
    ∙ attributes-add_attributes grown (attributes u)
    ∙ ap (λ ats. ats ++ attributes u) (attributes-add_elements t (elements u))
attributes-add t other is_many = sym (append-nil (attributes t))

-- After `add` of any item, `findAttribute` returns what it returned before, and only where that was
-- null the first attribute with the name that the item brings.
pub find_attribute-add :
    (t : TypeDescriptor) (item : Item) (is_many : Bool) (n : String)
    → find_attribute (add t item is_many) n
      ≡ first (find_attribute t n) (find_attribute_in (added_attributes item) n)
unfolding find_attribute
find_attribute-add t item is_many n =
    ap (λ ats. find_attribute_in ats n) (attributes-add t item is_many)
    ∙ find_attribute_in-append (attributes t) (added_attributes item) n
