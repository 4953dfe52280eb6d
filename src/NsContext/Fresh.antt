-- ===== src/NsContext/Fresh.antt =====
-- The first declaration in a new context of src/parser/nscontext.js.
use strong_soap.Common.{
  String, true, false, ◌≡◌, ◌≢◌, refl, Option, none, some, [], ◌∷◌, arith, ◌==◌, if◌then◌else◌,
  eq_refl, eq_false,
}
use strong_soap.Common.Result.{ok}
use strong_soap.NsContext.{
  NamespaceContext, NamespaceScope, Mapping, new_scope, new_context, declare_namespace,
  get_namespace_uri, get_namespace_mapping, register_namespace, register_prefix, settle, bind_new,
  declare_mapping, mark_declared,
}

abbrev pub declared_scope : String → String → NamespaceScope
declared_scope p u = record new_scope {
  namespaces = (p, record { uri = u; prefix = p; declared = true }) ∷ [];
}

-- The context that holds one declared mapping.
abbrev pub declared_context : String → String → NamespaceContext
declared_context p u = declared_scope p u ∷ []

mapping_of_new : (p : String) → p ≢ "xml" → p ≢ "xmlns" → get_namespace_mapping new_context p ≡ none
unfolding get_namespace_mapping
mapping_of_new p x y = rw (eq_false p "xml" x, eq_false p "xmlns" y) refl

uri_of_new : (p : String) → p ≢ "xml" → p ≢ "xmlns" → get_namespace_uri new_context p false ≡ none
unfolding get_namespace_uri
uri_of_new p x y = rw (eq_false p "xml" x, eq_false p "xmlns" y) refl

register_prefix-new :
    (p u : String)
    → p ≢ "xml"
    → p ≢ "xmlns"
    → register_prefix new_context p u ≡ ok (bind_new new_context (some p) u)
unfolding register_prefix settle
register_prefix-new p u x y =
    rw (mapping_of_new p x y, register_prefix) (rw (uri_of_new p x y) refl)

declare_mapping-new :
    (p u : String)
    → (let r = bind_new new_context (some p) u in declare_mapping r.0 r.1)
      ≡ ok (declared_context p u, some (record { uri = u; prefix = p; declared = true }))
unfolding declare_mapping mark_declared bind_new
declare_mapping-new p u = rw (eq_refl p, mark_declared) (rw (eq_refl p) refl)

pub declare_namespace-new :
    (p u : String)
    → p ≢ ""
    → p ≢ "xml"
    → p ≢ "xmlns"
    → (m : Option Mapping) × (declare_namespace new_context (some p) u
        ≡ ok (declared_context p u, m))
unfolding declare_namespace register_namespace
declare_namespace-new p u given x y = (
  some (record { uri = u; prefix = p; declared = true }),
  rw (eq_false p "" given, register_prefix-new p u x y) (declare_mapping-new p u),
)

pub declared_context-resolves :
    (p u q : String)
    → q ≢ "xml"
    → q ≢ "xmlns"
    → get_namespace_uri (declared_context p u) q false ≡ (if p == q then some u else none)
unfolding get_namespace_uri
declared_context-resolves p u q x y = ground (arith, eq_false q "xml" x, eq_false q "xmlns" y)
