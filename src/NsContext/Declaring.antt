-- ===== src/NsContext/Declaring.antt =====
-- `declareNamespace` of src/parser/nscontext.js: what it returns, and when it throws.
use strong_soap.Common.{
  String, ◌≡◌, ◌≢◌, refl, true, false, ◌&&◌, ◌==◌, Option, none, some, [], ◌∷◌, arith, inl, inr,
  eq_iff, eq_false, Option-cases, Bool-cases, if◌then◌else◌,
}
use strong_soap.Common.Dict.{Dict, get, put, get-put, put-IsDistinct}
use strong_soap.Common.Result.{Result, ok, throw, type_error}
use strong_soap.NsContext.{
  Mapping, NamespaceScope, NamespaceContext, get_namespace_uri, get_namespace_mapping, bind_prefix,
  PrefixMapping, mapping, reserved, xml_uri, xmlns_uri, register_namespace, mark_declared,
  declare_mapping, declare_namespace, find_declared, get_prefix_mapping,
}
use strong_soap.NsContext.Lookups.{get_namespace_uri-bind_self}
use strong_soap.NsContext.Shadowing.{uri_of_get, IsUnshadowed}
use strong_soap.NsContext.Registering.{register_namespace-Registers}

-- What `declareNamespace` may end in, in a scope `s` over `parents`.
pub data Declares (s : NamespaceScope) (parents : NamespaceContext) (u : String)
    (r : Result (NamespaceContext × Option Mapping)) : Type 0 where
  -- It returns a declared mapping for the URI, whose prefix resolves to it, and from then on the
  -- lookup of a declared mapping finds one.
  declared_now :
      (t : NamespaceScope) (m : Mapping) (found : PrefixMapping)
      → r ≡ ok (t ∷ parents, some m)
      → m.declared ≡ true
      → m.uri ≡ u
      → get_namespace_uri (t ∷ parents) m.prefix false ≡ some u
      → get_prefix_mapping (t ∷ parents) u false ≡ some found
      → IsUnshadowed (t ∷ parents)
      → Declares s parents u r
  -- It returns null: a declared mapping for the URI was there.
  already :
      (t : NamespaceScope) (m : Mapping)
      → r ≡ ok (t ∷ parents, none)
      → m.declared ≡ true
      → m.uri ≡ u
      → get_namespace_uri (t ∷ parents) m.prefix false ≡ some u
      → IsUnshadowed (t ∷ parents)
      → Declares s parents u r
  -- It throws: an outer scope, not the current one, holds an undeclared mapping for the URI.
  outer :
      (m : Mapping)
      → r ≡ throw type_error
      → get m.prefix s.namespaces ≡ none
      → get_namespace_mapping (s ∷ parents) m.prefix ≡ some m
      → m.uri ≡ u
      → m.declared ≡ false
      → Declares s parents u r

find_declared-put :
    (p u : String) (m : Mapping) (d : Dict Mapping)
    → m.uri ≡ u
    → m.declared ≡ true
    → (m' : Mapping) × (find_declared u (put p m d) ≡ some m')
unfolding find_declared
find_declared-put p u m [] same decl = (m, ground (arith, eq_iff m.uri u))
find_declared-put p u m ((k, w) ∷ d) same decl = elim (Bool-cases (k == p)) [
  | inl here ↦ (m, ground (arith, eq_iff m.uri u))
  | inr later ↦ elim (Bool-cases (w.uri == u && w.declared)) [
    | inl hit ↦ (w, ground arith)
    | inr miss ↦ let (m', found) = find_declared-put p u m d same decl in (m', ground arith)
  ]
]

-- The lookup of a declared mapping succeeds where the current scope binds one.
finds-declared :
    (t : NamespaceScope) (parents : NamespaceContext) (u : String) (m : Mapping)
    → find_declared u t.namespaces ≡ some m
    → (found : PrefixMapping) × (get_prefix_mapping (t ∷ parents) u false ≡ some found)
unfolding get_prefix_mapping
finds-declared t parents u m h = (
  if u == xml_uri then reserved "xml" else if u == xmlns_uri then reserved "xmlns" else mapping m,
  ground arith,
)

-- Marking a mapping that the scope binds.
marked-IsUnshadowed :
    (t : NamespaceScope) (parents : NamespaceContext) (p : String) (m : Mapping)
    → IsUnshadowed (t ∷ parents)
    → get p t.namespaces ≡ some m
    → IsUnshadowed (bind_prefix (t ∷ parents) p (record m { declared = true }))
marked-IsUnshadowed t parents p m h bound =
    let m' : Mapping = record m { declared = true } in
    let f = h.0 p m bound in
    (
      λ q w e. elim (Bool-cases (p == q)) [
        | inl same ↦
            let is_q : p ≡ q = (eq_iff p q).0 same in
            let is_w : m' ≡ w = ground (arith, get-put p q m' t.namespaces) in
            rw (← is_w, ← is_q)
              (record {
                no_xml = f.no_xml;
                no_xmlns = f.no_xmlns;
                own = f.own;
                unshadowing = f.unshadowing;
              })
        | inr other ↦ h.0 q w (ground (arith, get-put p q m' t.namespaces))
      ],
      put-IsDistinct p m' t.namespaces h.1,
      h.2,
    )

mark-Declares :
    (s t : NamespaceScope) (parents : NamespaceContext) (u : String) (m m' : Mapping)
    → IsUnshadowed (t ∷ parents)
    → get m.prefix t.namespaces ≡ some m'
    → get_namespace_uri (t ∷ parents) m.prefix false ≡ some u
    → Declares s parents u (mark_declared (t ∷ parents) m)
unfolding mark_declared
mark-Declares s t parents u m m' h bound resolved =
    let p = m.prefix in
    let marked : Mapping = record m' { declared = true } in
    let t' : NamespaceScope = record t { namespaces = put p marked t.namespaces } in
    let f = h.0 p m' bound in
    let same : m'.uri ≡ u = ground (arith, uri_of_get t parents p m' f bound) in
    let (w, found) = find_declared-put p u marked t.namespaces same refl in
    let (pm, finds) = finds-declared t' parents u w found in
    rw (bound, mark_declared)
      (declared_now t' marked pm refl refl same
        (cc (get_namespace_uri-bind_self t parents p marked false f.no_xml f.no_xmlns, f.own, same))
        finds (marked-IsUnshadowed t parents p m' h bound))

-- In an unshadowed context with a scope, for every prefix, given or not, and every URI,
-- `declareNamespace` ends in one of three ways, as `Declares` lists them: it returns a declared
-- mapping that resolves and that the lookup of declared mappings then finds; it returns null over
-- a declared mapping that resolves; or it throws over an undeclared mapping of an outer scope.
pub declare_namespace-Declares :
    (s : NamespaceScope) (parents : NamespaceContext) (prefix : Option String) (u : String)
    → IsUnshadowed (s ∷ parents)
    → Declares s parents u (declare_namespace (s ∷ parents) prefix u)
unfolding declare_namespace declare_mapping
declare_namespace-Declares s parents prefix u h =
    let g = register_namespace-Registers s parents prefix u h in
    elim (Bool-cases g.found.declared) [
      | inl decl ↦
          already g.scope g.found (ground (arith, g.returned)) decl g.uri g.resolves g.unshadowed
      | inr fresh ↦ elim (Option-cases (get g.found.prefix g.scope.namespaces)) [
        | inr (m', bound) ↦
            rw g.returned (
              rw fresh (mark-Declares s g.scope parents u g.found m' g.unshadowed bound g.resolves))
        | inl missing ↦ elim g.origin [
          | inl bound ↦ absurd (cc)
          | inr (same, found) ↦
              outer g.found (ground (arith, g.returned)) (cc (missing, same)) found g.uri fresh
        ]
      ]
    ]

-- `declareNamespace` throws where the prefix is bound, undeclared and to the same URI, in an outer
-- scope and not in the current one.
pub declare_namespace-throws :
    (s : NamespaceScope) (parents : NamespaceContext) (p u : String) (m : Mapping)
    → p ≢ ""
    → p ≢ "xml"
    → p ≢ "xmlns"
    → get p s.namespaces ≡ none
    → get_namespace_mapping parents p ≡ some m
    → m.prefix ≡ p
    → m.uri ≡ u
    → m.declared ≡ false
    → declare_namespace (s ∷ parents) (some p) u ≡ throw type_error
unfolding declare_namespace declare_mapping register_namespace get_namespace_mapping
declare_namespace-throws s parents p u m a b c missing found own same fresh =
    ground (arith, eq_false p "" a, eq_false p "xml" b, eq_false p "xmlns" c, eq_iff m.uri u)
