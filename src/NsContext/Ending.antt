-- ===== src/NsContext/Ending.antt =====
-- src/parser/nscontext.js: the calls that register and declare namespaces return or throw.
use strong_soap.Common.{
  String, Option, none, some, [], ◌∷◌, ◌==◌, Option-cases, inl, inr, truthy?, false,
}
use strong_soap.Common.Dict.{get}
use strong_soap.Common.Ending.{Ended, chain-Ended, if-Ended}
use strong_soap.NsContext.{
  NamespaceContext, generate_prefix, register_namespace, register_prefix, settle, declare_namespace,
  declare_mapping, mark_declared, Mapping, get_namespace_uri, get_namespace_mapping,
}
use strong_soap.NsContext.Prefixes.{generate_prefix-total}

generate_prefix-Ended :
    (c : NamespaceContext) (base : Option String) → Ended (generate_prefix c base)
unfolding generate_prefix
generate_prefix-Ended [] base = tt
generate_prefix-Ended (s ∷ parents) base =
    let (n, made, _, _, _) = generate_prefix-total s parents base in rw made tt

settle-Ended : (c : NamespaceContext) (p : Option String) (u : String) → Ended (settle c p u)
unfolding settle
settle-Ended c none u = tt
settle-Ended c (some p) u =
    if-Ended (truthy? (get_namespace_uri c p false)) _ _
      (chain-Ended (generate_prefix c none) _ (generate_prefix-Ended c none) (λ r. tt)) tt

register_prefix-Ended : (c : NamespaceContext) (p u : String) → Ended (register_prefix c p u)
unfolding register_prefix
register_prefix-Ended [] p u = tt
register_prefix-Ended (s ∷ parents) p u =
    elim (Option-cases (get_namespace_mapping (s ∷ parents) p)) [
      | inl missing ↦ rw (missing, register_prefix) (settle-Ended (s ∷ parents) (some p) u)
      | inr (m, found) ↦
          rw (found, register_prefix)
            (if-Ended (m.uri == u) _ _ tt (settle-Ended (s ∷ parents) (some p) u))
    ]

register_namespace-Ended :
    (c : NamespaceContext) (p : Option String) (u : String) → Ended (register_namespace c p u)
unfolding register_namespace
register_namespace-Ended c none u =
    chain-Ended (generate_prefix c none) _ (generate_prefix-Ended c none)
      (λ r. settle-Ended r.0 r.1 u)
register_namespace-Ended c (some p) u =
    if-Ended (p == "") _ _
      (chain-Ended (generate_prefix c none) _ (generate_prefix-Ended c none)
        (λ r. settle-Ended r.0 r.1 u))
      (register_prefix-Ended c p u)

mark_declared-Ended : (c : NamespaceContext) (m : Mapping) → Ended (mark_declared c m)
unfolding mark_declared
mark_declared-Ended [] m = tt
mark_declared-Ended (s ∷ parents) m = elim (Option-cases (get m.prefix s.namespaces)) [
  | inl missing ↦ rw (missing, mark_declared) tt
  | inr (n, found) ↦ rw (found, mark_declared) tt
]

declare_mapping-Ended : (c : NamespaceContext) (m : Option Mapping) → Ended (declare_mapping c m)
unfolding declare_mapping
declare_mapping-Ended c none = tt
declare_mapping-Ended c (some m) = if-Ended m.declared _ _ tt (mark_declared-Ended c m)

pub declare_namespace-Ended :
    (c : NamespaceContext) (p : Option String) (u : String) → Ended (declare_namespace c p u)
unfolding declare_namespace
declare_namespace-Ended c p u =
    chain-Ended (register_namespace c p u) _ (register_namespace-Ended c p u)
      (λ r. declare_mapping-Ended r.0 r.1)
