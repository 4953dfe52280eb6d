-- ===== src/Xsd/Flat.antt =====
-- What `describe` of src/parser/xsd gathers, written without the descriptors in between: the elements
-- and attributes below a node in the order of the document.
use strong_soap.Common.{
  String, Bool, false, none, some, ◌≡◌, refl, ap, sym, ◌∙◌, [], truthy?, Option,
}
use strong_soap.Common.Result.{Result, ok, throw, diverge, ◌>>=◌, >>=-assoc}
use strong_soap.Descriptor.{TypeDescriptor, descriptor, nil, new_type, add, a_type}
use strong_soap.Descriptor.Gathering.{
  Held, nothing_held, joined, held, own, joined_assoc, joined-nothing, held-add,
}
use strong_soap.Xsd.{
  Node, Nodes, end, node, typed, anonymous, simple_type, complex_type, complex_content, restriction,
  particle, group_ref, attribute, attribute_ref, Described, with_extension, add_base, add_extended,
  is_many, describe, describe_children,
}

abbrev held_base : Option TypeDescriptor → Held
held_base none = nothing_held
held_base (some t) = held t

abbrev held_extended : Option Described → Held
held_extended none = nothing_held
held_extended (some d) = held d.type

module _ (exceeds_one : String → Bool) where
  unfoldable mutual
    -- The elements of a node in the order of the document. Only the group right above an element can
    -- make it an array: its maxOccurs is passed on, and those of the groups around it are not.
    pub brought : Bool → Node → Result Held
    brought many (complex_type mixed ns) = all_brought false ns
    brought many (complex_content ns) = all_brought false ns
    brought many (Node.extension base max ns) =
        all_brought (is_many exceeds_one max) ns >>= λ x. ok (joined (held_extended base) x)
    brought many (restriction base max ns) =
        all_brought (is_many exceeds_one max) ns >>= λ x. ok (joined (held_base base) x)
    brought many (particle max ns) = all_brought (is_many exceeds_one max) ns
    brought many n = describe exceeds_one n >>= λ item. ok (own many item)

    pub all_brought : Bool → Nodes → Result Held
    all_brought many end = ok nothing_held
    all_brought many (node n ns) = do x ← brought many n; y ← all_brought many ns; ok (joined x y)

-- Chains of calls that agree after every value of the first.
both_after {ℓ κ} :
    {A : Type ℓ} {B : Type κ} (m : Result A) (f g : A → Result B)
    → ((a : A) → f a ≡ g a)
    → (m >>= f) ≡ (m >>= g)
both_after (ok a) f g h = h a
both_after (throw e) f g h = refl
both_after diverge f g h = refl

bind-ok {ℓ} : {A : Type ℓ} (m : Result A) → (m >>= λ a. ok a) ≡ m
bind-ok (ok a) = refl
bind-ok (throw e) = refl
bind-ok diverge = refl

held-add_base : (base : Option TypeDescriptor) → held (add_base base) ≡ held_base base
held-add_base none = refl
held-add_base (some t) = held-add new_type (a_type t) false

held-with_extension :
    (d : Described) (t : TypeDescriptor) → held (with_extension d.extension t) ≡ held t
held-with_extension d (descriptor es ats ext mixed) = refl

held-add_extended : (base : Option Described) → held (add_extended base) ≡ held_extended base
held-add_extended none = refl
held-add_extended (some d) =
    held-with_extension d (add new_type (a_type d.type) false)
    ∙ held-add new_type (a_type d.type) false

module _ (exceeds_one : String → Bool) where
  all_brought-ok :
      (many : Bool) (ns : Nodes)
      → (all_brought exceeds_one many ns >>= λ x. ok (joined nothing_held x))
        ≡ all_brought exceeds_one many ns
  all_brought-ok many ns = bind-ok (all_brought exceeds_one many ns)

  mutual
    unfolding describe brought

    describe-brings :
        (many : Bool) (n : Node)
        → (describe exceeds_one n >>= λ item. ok (own many item)) ≡ brought exceeds_one many n
    describe-brings many (typed a target) = refl
    describe-brings many (anonymous a ns) = refl
    describe-brings many (simple_type s) = refl
    describe-brings many (group_ref item) = refl
    describe-brings many (attribute a type) = refl
    describe-brings many (attribute_ref d) = refl
    describe-brings many (complex_type mixed ns) =
        >>=-assoc (describe_children exceeds_one false ns (descriptor nil [] none (truthy? mixed)))
          _ _
        ∙ describe_children-brings false ns (descriptor nil [] none (truthy? mixed))
        ∙ all_brought-ok false ns
    describe-brings many (complex_content ns) =
        >>=-assoc (describe_children exceeds_one false ns new_type) _ _
        ∙ describe_children-brings false ns new_type
        ∙ all_brought-ok false ns
    describe-brings many (Node.extension base max ns) =
        >>=-assoc (describe_children exceeds_one (is_many exceeds_one max) ns (add_extended base)) _
          _
        ∙ describe_children-brings (is_many exceeds_one max) ns (add_extended base)
        ∙ both_after (all_brought exceeds_one (is_many exceeds_one max) ns) _ _
            (λ x. ap (λ h. ok (joined h x)) (held-add_extended base))
    describe-brings many (restriction base max ns) =
        >>=-assoc (describe_children exceeds_one (is_many exceeds_one max) ns (add_base base)) _ _
        ∙ describe_children-brings (is_many exceeds_one max) ns (add_base base)
        ∙ both_after (all_brought exceeds_one (is_many exceeds_one max) ns) _ _
            (λ x. ap (λ h. ok (joined h x)) (held-add_base base))
    describe-brings many (particle max end) = refl
    describe-brings many (particle max (node n ns)) =
        >>=-assoc (describe_children exceeds_one (is_many exceeds_one max) (node n ns) new_type) _ _
        ∙ describe_children-brings (is_many exceeds_one max) (node n ns) new_type
        ∙ all_brought-ok (is_many exceeds_one max) (node n ns)

    describe_children-brings :
        (many : Bool) (ns : Nodes) (t : TypeDescriptor)
        → (describe_children exceeds_one many ns t >>= λ u. ok (held u))
          ≡ (all_brought exceeds_one many ns >>= λ x. ok (joined (held t) x))
    describe_children-brings many end t = ap ok (sym (joined-nothing (held t)))
    describe_children-brings many (node n ns) t =
        >>=-assoc (describe exceeds_one n) _ _
        ∙ both_after (describe exceeds_one n) _ _ (λ item.
          describe_children-brings many ns (add t item many)
          ∙ both_after (all_brought exceeds_one many ns) _ _ (λ y.
            ap (λ h. ok (joined h y)) (held-add t item many)
            ∙ ap ok (joined_assoc (held t) (own many item) y)))
        ∙ rw (← describe-brings many n) (simp (>>=-assoc))

  -- What `describe` returns for a node is, to the descriptor that it is added to, the elements and
  -- attributes below the node in the order of the document. An element is an array where its own
  -- maxOccurs or that of the group right above it says so, whatever the groups around that say. Where
  -- a node cannot be described, the error is that of the first one.
  pub describe-gathers :
      (many : Bool) (n : Node)
      → (describe exceeds_one n >>= λ item. ok (own many item)) ≡ brought exceeds_one many n
  describe-gathers many n = describe-brings many n
