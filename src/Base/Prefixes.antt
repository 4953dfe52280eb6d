-- ===== src/Base/Prefixes.antt =====
-- `createNamespaceContext` of src/base.js: which prefixes the context of a message knows.
use mathlib.Core.Path.{subst}
use strong_soap.Common.{
  String, true, false, ◌≡◌, ◌≢◌, refl, sym, ap, ◌∙◌, Option, none, some, [], ◌∷◌, arith, ◌==◌, ◌||◌,
  if◌then◌else◌, eq_iff, eq_false, Bool-cases, inl, inr, is_text,
}
use strong_soap.Common.Dict.{Dict, get, IsDistinct, get-none_of_absent}
use strong_soap.Common.Result.{ok}
use strong_soap.NsContext.{NamespaceContext, NamespaceScope, add_namespace, get_namespace_uri}
use strong_soap.NsContext.Lookups.{add_namespace_lem}
use strong_soap.NsContext.Fresh.{
  declared_scope, declared_context, declare_namespace-new, declared_context-resolves,
}
use strong_soap.Base.{is_standard, add_namespaces, create_namespace_context}

eq_true : (a b : String) → (a == b) ≡ true → a ≡ b
eq_true a b h = ground (arith, eq_iff a b)

-- What a prefix resolves to where the WSDL's namespaces come before another binding.
abbrev pub taken : Option String → Option String → Option String
taken none before = before
taken (some u) before = if is_standard u then before else some u

add_namespace-scope :
    (s : NamespaceScope) (parents : NamespaceContext) (p u : String)
    → (t : NamespaceScope) × ((add_namespace (s ∷ parents) p u false).0 ≡ t ∷ parents)
unfolding add_namespace
add_namespace-scope s parents p u =
    elim (Bool-cases (is_text (get_namespace_uri (s ∷ parents) p false) u)) [
      | inl same ↦ rw same (s, refl)
      | inr new ↦ rw new (_, refl)
    ]

-- One round of the loop that does not skip its prefix.
round-lem :
    (s : NamespaceScope) (parents : NamespaceContext) (p u q : String) (d : Dict String)
    → ((t : NamespaceScope)
        → get_namespace_uri (add_namespaces d (t ∷ parents)) q false
          ≡ taken (get q d) (get_namespace_uri (t ∷ parents) q false))
    → get_namespace_uri (add_namespaces d (add_namespace (s ∷ parents) p u false).0) q false
      ≡ taken (get q d) (get_namespace_uri (add_namespace (s ∷ parents) p u false).0 q false)
round-lem s parents p u q d ih = let (t, e) = add_namespace-scope s parents p u in rw e (ih t)

abbrev pub NotReserved : String → Type 0
NotReserved p = (p ≢ "") × ((p ≢ "xml") × (p ≢ "xmlns"))

abbrev pub AllNotReserved : Dict String → Type 0
AllNotReserved [] = Unit
AllNotReserved ((p, u) ∷ d) = ((p ≢ "xml") × (p ≢ "xmlns")) × AllNotReserved d

add_namespaces-resolves :
    (d : Dict String) (s : NamespaceScope) (parents : NamespaceContext) (q : String)
    → IsDistinct d
    → AllNotReserved d
    → q ≢ ""
    → get_namespace_uri (add_namespaces d (s ∷ parents)) q false
      ≡ taken (get q d) (get_namespace_uri (s ∷ parents) q false)
unfolding add_namespaces
add_namespaces-resolves [] s parents q distinct free given = refl
add_namespaces-resolves ((p, u) ∷ d) s parents q (absent, distinct) ((x, y), free) given =
    let ih = λ (t : NamespaceScope). add_namespaces-resolves d t parents q distinct free given in
    let (self, others, _, _) = add_namespace_lem s parents p u false x y in
    elim (Bool-cases (p == q)) [
      | inl same ↦
          let e : p ≡ q = eq_true p q same in
          let filled : (p == "") ≡ false = eq_false p "" (λ f. given (sym e ∙ f)) in
          let gone : get q d ≡ none =
            subst (λ r. get r d ≡ none) e (get-none_of_absent p d absent) in
          let found : get_namespace_uri (add_namespace (s ∷ parents) p u false).0 q false ≡ some u =
            subst
              (λ r. get_namespace_uri (add_namespace (s ∷ parents) p u false).0 r false ≡ some u) e
              self in
          elim (Bool-cases (is_standard u)) [
            | inl skipped ↦
                rw (same, filled, skipped)
                  (ih s ∙ ap (λ o. taken o (get_namespace_uri (s ∷ parents) q false)) gone)
            | inr new ↦
                rw (same, filled, new)
                  (round-lem s parents p u q d ih
                    ∙ ap
                        (λ o.
                          taken o
                            (get_namespace_uri (add_namespace (s ∷ parents) p u false).0 q false))
                        gone
                    ∙ found)
          ]
      | inr differs ↦ elim (Bool-cases ((p == "") || is_standard u)) [
        | inl skipped ↦ rw (differs, skipped) (ih s)
        | inr new ↦
            rw (differs, new)
              (round-lem s parents p u q d ih
                ∙ ap (taken (get q d)) (others q false (ground (arith, eq_iff p q))))
      ]
    ]

-- The context for a message exists. In it every prefix that is not reserved resolves to what the WSDL
-- binds it to, but for the URIs of the standards that are left out and for a prefix that the WSDL does
-- not bind: of these the envelope's own prefix resolves to the envelope's URI and no other at all.
pub create_namespace_context-resolves :
    (d : Dict String) (p u : String)
    → IsDistinct d
    → AllNotReserved d
    → NotReserved p
    → (c : NamespaceContext) × ((create_namespace_context d p u ≡ ok c)
        × ((q : String)
            → NotReserved q
            → get_namespace_uri c q false ≡ taken (get q d) (if p == q then some u else none)))
unfolding create_namespace_context
create_namespace_context-resolves d p u distinct free (given, (x, y)) =
    let (m, declares) = declare_namespace-new p u given x y in
    (
      add_namespaces d (declared_context p u),
      (
        rw declares refl,
        λ q (named, (v, w)).
            add_namespaces-resolves d (declared_scope p u) [] q distinct free named
            ∙ ap (taken (get q d)) (declared_context-resolves p u q v w),
      ),
    )
