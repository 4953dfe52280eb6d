-- ===== src/WsdlReader/Reading.antt =====
-- What the end of an element in src/parser/element.js does to the elements that are open.
use strong_soap.Common.{
  String, true, ◌≡◌, refl, ap, sym, ◌∙◌, List, [], ◌∷◌, arith, eq_iff, eq_refl, Option-cases, inl,
  inr,
}
use strong_soap.Common.Dict.{Dict, get, put, get-put}
use strong_soap.Descriptor.Adding.{first, first-none}
use strong_soap.Common.Result.{ok, ◌>>=◌}
use strong_soap.WsdlReader.Registry.{accepts_child}
use strong_soap.WsdlReader.{Frame, extend, extend_root, end_element, add_child, with_child}

get-extend :
    (p : String) (base obj : Dict String) → get p (extend base obj) ≡ first (get p base) (get p obj)
unfolding extend
get-extend p base [] = sym (first-none (get p base))
get-extend p base ((k, v) ∷ obj) = elim (Option-cases (get k base)) [
  | inl e ↦ rw e (get-extend p (put k v base) obj ∙ ground (arith, get-put k p v base, eq_iff k p))
  | inr (u, e) ↦ rw e (get-extend p base obj ∙ ground (arith, eq_iff k p))
]

-- The declarations of the outermost element.
abbrev pub root_xmlns : List Frame → Dict String
root_xmlns [] = []
root_xmlns (f ∷ []) = f.head.xmlns
root_xmlns (f ∷ g ∷ fs) = root_xmlns (g ∷ fs)

root_xmlns-extend_root :
    (x : Dict String) (f : Frame) (fs : List Frame)
    → root_xmlns (extend_root x f fs) ≡ extend (root_xmlns (f ∷ fs)) x
unfolding extend_root
root_xmlns-extend_root x f [] = refl
root_xmlns-extend_root x f (g ∷ []) = refl
root_xmlns-extend_root x f (g ∷ h ∷ fs) = root_xmlns-extend_root x g (h ∷ fs)

root_xmlns-with_child :
    (p t : Frame) (fs : List Frame) → root_xmlns (with_child p t ∷ fs) ≡ root_xmlns (p ∷ fs)
root_xmlns-with_child p t [] = refl
root_xmlns-with_child p t (f ∷ fs) = refl

-- Where an element with another below it on the stack ends, and the class of this takes it as a child,
-- its declarations become those of the outermost element too, for every prefix that this does not
-- declare itself.
pub end_element-declares :
    (f g : Frame) (fs : List Frame) (p : String)
    → accepts_child g.head.element_class f.head.element_class ≡ true
    → (end_element f.head.ns_name f (g ∷ fs) >>= λ stack. ok (get p (root_xmlns stack)))
      ≡ ok (first (get p (root_xmlns (g ∷ fs))) (get p f.head.xmlns))
unfolding end_element add_child
end_element-declares f g fs p taken = rw (eq_refl f.head.ns_name) (
    rw taken (
      ap (λ x. ok (get p x)) (root_xmlns-extend_root f.head.xmlns (with_child g f) fs)
      ∙ ap (λ x. ok (get p (extend x f.head.xmlns))) (root_xmlns-with_child g f fs)
      ∙ ap ok (get-extend p (root_xmlns (g ∷ fs)) f.head.xmlns)))
