-- ===== src/NsContext/Shadowing.antt =====
-- When the reverse lookups of src/parser/nscontext.js, from a URI to a prefix, can be trusted.
use strong_soap.Common.{
  String, ◌≡◌, ◌≢◌, refl, ap, ◌∙◌, Bool, true, false, ◌&&◌, ◌==◌, some, [], ◌∷◌, arith, inl, inr,
  truthy?, eq_iff, eq_refl, eq_false, Option-cases, Bool-cases,
}
use strong_soap.Common.Dict.{Dict, get, IsDistinct, contains-keys}
use strong_soap.NsContext.{
  Mapping, NamespaceScope, NamespaceContext, xml_uri, xmlns_uri, get_namespace_uri, find_uri,
  get_prefix, find_declared, get_prefix_mapping, mapping, add_namespace, push_context,
}

-- What one binding of a scope satisfies: its prefix is not reserved, the mapping carries that
-- prefix, and the parents do not resolve it to a non-empty URI.
pub record IsFresh (parents : NamespaceContext) (p : String) (m : Mapping) : Type 0 where
  pub no_xml : (p == "xml") ≡ false
  pub no_xmlns : (p == "xmlns") ≡ false
  pub own : m.prefix ≡ p
  pub unshadowing : truthy? (get_namespace_uri parents p false) ≡ false

-- No scope binds a reserved prefix, a prefix twice, or one that its parents resolve.
abbrev pub IsUnshadowed : NamespaceContext → Type 0
IsUnshadowed [] = Unit
IsUnshadowed (s ∷ parents) =
    ((p : String) (m : Mapping) → get p s.namespaces ≡ some m → IsFresh parents p m)
    × IsDistinct s.namespaces
    × IsUnshadowed parents

pub find_uri-get :
    (u : String) (d : Dict Mapping) (p : String)
    → IsDistinct d
    → find_uri u d ≡ some p
    → (m : Mapping) × (get p d ≡ some m) × (m.uri ≡ u)
unfolding find_uri
find_uri-get u [] p _ h = cc
find_uri-get u ((k, m) ∷ d) p (new, dist) h = elim (Bool-cases (m.uri == u)) [
  | inl here ↦ (m, ground (arith, eq_refl k, eq_refl p), (eq_iff m.uri u).0 here)
  | inr later ↦
      let (m', found, same) = find_uri-get u d p dist (ground arith) in
      (m', ground (arith, eq_iff k p, contains-keys p d found), same)
]

find_declared-get :
    (u : String) (d : Dict Mapping) (m : Mapping)
    → IsDistinct d
    → find_declared u d ≡ some m
    → (p : String) × (get p d ≡ some m) × (m.uri ≡ u) × (m.declared ≡ true)
unfolding find_declared
find_declared-get u [] m _ h = cc
find_declared-get u ((k, m') ∷ d) m (new, dist) h = elim (Bool-cases (m'.uri == u && m'.declared)) [
  | inl here ↦ (k, ground (arith, eq_refl k), ground (arith, eq_iff m.uri u), ground arith)
  | inr later ↦
      let (p, found, same, decl) = find_declared-get u d m dist (ground arith) in
      (p, ground (arith, eq_iff k p, contains-keys p d found), same, decl)
]

-- A prefix that the parents resolve to a non-empty URI resolves to it in the child as well.
pub uri-child :
    (s : NamespaceScope) (parents : NamespaceContext) (p u : String)
    → IsUnshadowed (s ∷ parents)
    → (u == "") ≡ false
    → get_namespace_uri parents p false ≡ some u
    → get_namespace_uri (s ∷ parents) p false ≡ some u
unfolding get_namespace_uri
uri-child s [] p u h ne e = cc
uri-child s (t ∷ parents) p u h ne e = elim (Option-cases (get p s.namespaces)) [
  | inl missing ↦ ground arith
  | inr (m, found) ↦ absurd (ground (arith, (h.0 p m found).unshadowing))
]

-- A prefix that a scope binds resolves to the binding's URI.
pub uri_of_get :
    (s : NamespaceScope) (parents : NamespaceContext) (p : String) (m : Mapping)
    → IsFresh parents p m
    → get p s.namespaces ≡ some m
    → get_namespace_uri (s ∷ parents) p false ≡ some m.uri
unfolding get_namespace_uri
uri_of_get s parents p m f e = ground (arith, f.no_xml, f.no_xmlns)

uri_reserved :
    (s : NamespaceScope) (parents : NamespaceContext)
    → (get_namespace_uri (s ∷ parents) "xml" false ≡ some xml_uri)
      × (get_namespace_uri (s ∷ parents) "xmlns" false ≡ some xmlns_uri)
unfolding get_namespace_uri
uri_reserved s parents = (refl, refl)

-- In an unshadowed context a prefix that `getPrefix` returns for a non-empty URI resolves to it.
pub get_prefix_sound :
    (c : NamespaceContext) (u p : String) (local : Bool)
    → IsUnshadowed c
    → (u == "") ≡ false
    → get_prefix c u local ≡ some p
    → get_namespace_uri c p false ≡ some u
unfolding get_prefix
get_prefix_sound [] u p local h ne e = cc
get_prefix_sound (s ∷ parents) u p local h ne e = elim (Bool-cases (u == xml_uri)) [
  | inl x ↦ ground (arith, eq_iff u xml_uri, uri_reserved s parents)
  | inr nx ↦ elim (Bool-cases (u == xmlns_uri)) [
    | inl y ↦ ground (arith, eq_iff u xmlns_uri, uri_reserved s parents)
    | inr ny ↦ elim (Option-cases (find_uri u s.namespaces)) [
      | inl missing ↦
          uri-child s parents p u h ne (get_prefix_sound parents u p false h.2 ne (ground arith))
      | inr (q, found) ↦
          let (m, bound, same) = find_uri-get u s.namespaces q h.1 found in
          ground (arith, uri_of_get s parents q m (h.0 q m bound) bound)
    ]
  ]
]

-- In an unshadowed context a mapping that `getPrefixMapping` returns for a non-empty URI is
-- declared, has that URI, and its prefix resolves to it.
pub get_prefix_mapping_sound :
    (c : NamespaceContext) (u : String) (m : Mapping) (local : Bool)
    → IsUnshadowed c
    → (u == "") ≡ false
    → get_prefix_mapping c u local ≡ some (mapping m)
    → (m.declared ≡ true) × (m.uri ≡ u) × (get_namespace_uri c m.prefix false ≡ some u)
unfolding get_prefix_mapping
get_prefix_mapping_sound [] u m local h ne e = cc
get_prefix_mapping_sound (s ∷ parents) u m local h ne e =
    elim (Option-cases (find_declared u s.namespaces)) [
      | inl missing ↦
          let (decl, same, resolved) =
            get_prefix_mapping_sound parents u m false h.2 ne (ground arith) in
          (decl, same, uri-child s parents m.prefix u h ne resolved)
      | inr (m', found) ↦
          let (q, bound, same, decl) = find_declared-get u s.namespaces m' h.1 found in
          let it : m' ≡ m = ground arith in
          let f = h.0 q m' bound in
          (
            rw (← it) decl,
            rw (← it) same,
            rw (← it, f.own) (uri_of_get s parents q m' f bound ∙ ap some same),
          )
    ]

-- Shadowing breaks `getPrefix`: bind, in a new scope, a prefix of an outer URI to another URI.
-- The outer URI's reverse lookup still gives the prefix, which now resolves to the other one.
pub get_prefix_shadowed :
    (c : NamespaceContext) (u u' p : String)
    → u ≢ u'
    → u ≢ xml_uri
    → u ≢ xmlns_uri
    → p ≢ "xml"
    → p ≢ "xmlns"
    → get_prefix c u false ≡ some p
    → (get_prefix (add_namespace (push_context c) p u' true).0 u false ≡ some p)
      × (get_namespace_uri (add_namespace (push_context c) p u' true).0 p false ≡ some u')
unfolding get_prefix get_namespace_uri add_namespace
get_prefix_shadowed c u u' p ne a b x y e = ground (
  arith,
  eq_false u xml_uri a,
  eq_false u xmlns_uri b,
  eq_false p "xml" x,
  eq_false p "xmlns" y,
  eq_iff u' u,
  eq_refl p,
)
