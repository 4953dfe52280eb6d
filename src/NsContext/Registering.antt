-- ===== src/NsContext/Registering.antt =====
-- `registerNamespace` and `declareNamespace` of src/parser/nscontext.js.
use strong_soap.Common.{
  ℕ, String, ◌≡◌, ◌⊎◌, refl, ap, ◌∙◌, false, ◌==◌, Option, none, some, [], ◌∷◌, arith, inl, inr,
  truthy?, eq_iff, eq_refl, Option-cases, Bool-cases,
}
use strong_soap.Common.Dict.{get, put, get-put, put-IsDistinct}
use strong_soap.Common.Result.{Result, ok, ◌>>=◌}
use strong_soap.NsContext.{
  Mapping, NamespaceScope, NamespaceContext, get_namespace_uri, get_namespace_mapping, ns_prefix,
  bind_prefix, undeclared, generate_prefix, bind_new, settle, register_prefix, register_namespace,
}
use strong_soap.NsContext.Lookups.{
  get_namespace_uri-mapping, get_namespace_uri-bind_self, get_namespace_uri-bind_ne,
}
use strong_soap.NsContext.Prefixes.{generate_prefix-total}
use strong_soap.NsContext.Shadowing.{IsFresh, IsUnshadowed}

-- What a registration of `u` in the scope `s` ends in: it changes only that scope, returns a
-- mapping for `u` whose prefix resolves to `u`, keeps the context unshadowed, and keeps the meaning
-- of every prefix that resolved to a non-empty URI.
pub record Registers (s : NamespaceScope) (parents : NamespaceContext) (u : String)
    (r : Result (NamespaceContext × Option Mapping)) : Type 0 where
  pub scope : NamespaceScope
  pub found : Mapping
  pub returned : r ≡ ok (scope ∷ parents, some found)
  pub uri : found.uri ≡ u
  pub resolves : get_namespace_uri (scope ∷ parents) found.prefix false ≡ some u
  pub unshadowed : IsUnshadowed (scope ∷ parents)
  -- The current scope binds the mapping, or it existed before and nothing changed.
  pub origin :
      (get found.prefix scope.namespaces ≡ some found)
      ⊎ ((scope.namespaces ≡ s.namespaces)
          × (get_namespace_mapping (s ∷ parents) found.prefix ≡ some found))
  pub keeps :
      (q v : String)
      → (v == "") ≡ false
      → get_namespace_uri (s ∷ parents) q false ≡ some v
      → get_namespace_uri (scope ∷ parents) q false ≡ some v

not-reserved :
    (s : NamespaceScope) (parents : NamespaceContext) (p : String)
    → truthy? (get_namespace_uri (s ∷ parents) p false) ≡ false
    → ((p == "xml") ≡ false) × ((p == "xmlns") ≡ false)
unfolding get_namespace_uri
not-reserved s parents p h = ground arith

unresolved-parents :
    (s : NamespaceScope) (parents : NamespaceContext) (p : String)
    → IsUnshadowed (s ∷ parents)
    → truthy? (get_namespace_uri (s ∷ parents) p false) ≡ false
    → truthy? (get_namespace_uri parents p false) ≡ false
unfolding get_namespace_uri
unresolved-parents s parents p h e = elim (Option-cases (get p s.namespaces)) [
  | inl missing ↦ ground (arith, not-reserved s parents p e)
  | inr (m, found) ↦ (h.0 p m found).unshadowing
]

put-IsFresh :
    (s : NamespaceScope) (parents : NamespaceContext) (p u q : String) (m : Mapping)
    → IsUnshadowed (s ∷ parents)
    → truthy? (get_namespace_uri (s ∷ parents) p false) ≡ false
    → get q (put p (undeclared p u) s.namespaces) ≡ some m
    → IsFresh parents q m
put-IsFresh s parents p u q m h e bound =
    let (x, y) = not-reserved s parents p e in
    let split = get-put p q (undeclared p u) s.namespaces in
    elim (Bool-cases (p == q)) [
      | inl same ↦
          let is_q : p ≡ q = (eq_iff p q).0 same in
          let is_m : undeclared p u ≡ m = ground (arith, split) in
          rw (← is_m, ← is_q)
            (record {
              no_xml = x;
              no_xmlns = y;
              own = refl;
              unshadowing = unresolved-parents s parents p h e;
            })
      | inr other ↦ h.0 q m (ground (arith, split))
    ]

-- Binding a prefix that does not resolve.
bind-Registers :
    (s : NamespaceScope) (parents : NamespaceContext) (p u : String)
    → IsUnshadowed (s ∷ parents)
    → truthy? (get_namespace_uri (s ∷ parents) p false) ≡ false
    → Registers s parents u
        (ok (bind_prefix (s ∷ parents) p (undeclared p u), some (undeclared p u)))
bind-Registers s parents p u h e =
    let (x, y) = not-reserved s parents p e in
    let m : Mapping = undeclared p u in
    record {
      scope = record s { namespaces = put p m s.namespaces };
      found = m;
      returned = refl;
      uri = refl;
      resolves = get_namespace_uri-bind_self s parents p m false x y;
      unshadowed = (
        λ q m' bound. put-IsFresh s parents p u q m' h e bound,
        put-IsDistinct p m s.namespaces h.1,
        h.2,
      );
      origin = inl (ground (arith, get-put p p m s.namespaces, eq_refl p));
      keeps = λ q v ne resolved. elim (Bool-cases (p == q)) [
        | inl same ↦ absurd (ground (arith, eq_iff p q))
        | inr other ↦ get_namespace_uri-bind_ne s parents p q m false other ∙ resolved
      ];
    }

-- The count of the current scope has no part in a lookup.
counted-Registers :
    (s : NamespaceScope) (parents : NamespaceContext) (u : String) (n : ℕ)
    {r : Result (NamespaceContext × Option Mapping)}
    → Registers (record s { prefix_count = n }) parents u r
    → Registers s parents u r
unfolding get_namespace_uri get_namespace_mapping
counted-Registers s parents u n g = record {
  scope = g.scope;
  found = g.found;
  returned = g.returned;
  uri = g.uri;
  resolves = g.resolves;
  unshadowed = g.unshadowed;
  origin = g.origin;
  keeps = g.keeps;
}

uri-counted :
    (s : NamespaceScope) (parents : NamespaceContext) (n : ℕ) (q : String)
    → get_namespace_uri (record s { prefix_count = n } ∷ parents) q false
      ≡ get_namespace_uri (s ∷ parents) q false
unfolding get_namespace_uri
uri-counted s parents n q = refl

-- Binding the prefix that `generatePrefix` returns.
fresh-Registers :
    (s : NamespaceScope) (parents : NamespaceContext) (u : String)
    → IsUnshadowed (s ∷ parents)
    → Registers s parents u (generate_prefix (s ∷ parents) none >>= λ r. ok (bind_new r.0 r.1 u))
unfolding bind_new
fresh-Registers s parents u h =
    let (n, made, _, free, _) = generate_prefix-total s parents none in
    rw made (
      counted-Registers s parents u n (
        bind-Registers (record s { prefix_count = n }) parents (ns_prefix n) u h
          (rw (uri-counted s parents n (ns_prefix n)) free)))

settle-Registers :
    (s : NamespaceScope) (parents : NamespaceContext) (p u : String)
    → IsUnshadowed (s ∷ parents)
    → Registers s parents u (settle (s ∷ parents) (some p) u)
unfolding settle
settle-Registers s parents p u h =
    elim (Bool-cases (truthy? (get_namespace_uri (s ∷ parents) p false))) [
      | inl taken ↦ rw taken (fresh-Registers s parents u h)
      | inr free ↦ rw free (bind-Registers s parents p u h free)
    ]

-- The prefix of the mapping that a prefix resolves to is that prefix.
mapping-prefix :
    (c : NamespaceContext) (p : String) (m : Mapping)
    → IsUnshadowed c
    → get_namespace_mapping c p ≡ some m
    → m.prefix ≡ p
unfolding get_namespace_mapping
mapping-prefix [] p m h e = cc
mapping-prefix (s ∷ parents) p m h e = elim (Option-cases (get p s.namespaces)) [
  | inl missing ↦ ground (arith, eq_iff p "xml", eq_iff p "xmlns", mapping-prefix parents p m h.2)
  | inr (m', found) ↦ ground (arith, eq_iff p "xml", eq_iff p "xmlns", (h.0 p m' found).own)
]

-- A mapping of the prefix to the same URI is returned as it is.
existing-Registers :
    (s : NamespaceScope) (parents : NamespaceContext) (p u : String) (m : Mapping)
    → IsUnshadowed (s ∷ parents)
    → get_namespace_mapping (s ∷ parents) p ≡ some m
    → m.uri ≡ u
    → Registers s parents u (ok (s ∷ parents, some m))
existing-Registers s parents p u m h e same =
    let own = mapping-prefix (s ∷ parents) p m h e in
    record {
      scope = s;
      found = m;
      returned = refl;
      uri = same;
      resolves = rw own (get_namespace_uri-mapping (s ∷ parents) p ∙ rw e (ap some same));
      unshadowed = h;
      origin = inr (refl, cc (own, e));
      keeps = λ q v ne resolved. resolved;
    }

register_prefix-Registers :
    (s : NamespaceScope) (parents : NamespaceContext) (p u : String)
    → IsUnshadowed (s ∷ parents)
    → Registers s parents u (register_prefix (s ∷ parents) p u)
unfolding register_prefix
register_prefix-Registers s parents p u h =
    elim (Option-cases (get_namespace_mapping (s ∷ parents) p)) [
      | inl missing ↦ rw (missing, register_prefix) (settle-Registers s parents p u h)
      | inr (m, found) ↦ elim (Bool-cases (m.uri == u)) [
        | inl same ↦
            rw (found, same, register_prefix)
              (existing-Registers s parents p u m h found ((eq_iff m.uri u).0 same))
        | inr other ↦ rw (found, other, register_prefix) (settle-Registers s parents p u h)
      ]
    ]

generated-Registers :
    (s : NamespaceScope) (parents : NamespaceContext) (u : String)
    → IsUnshadowed (s ∷ parents)
    → Registers s parents u (generate_prefix (s ∷ parents) none >>= λ r. settle r.0 r.1 u)
generated-Registers s parents u h =
    let (n, made, _, _, _) = generate_prefix-total s parents none in
    rw made (
      counted-Registers s parents u n
        (settle-Registers (record s { prefix_count = n }) parents (ns_prefix n) u h))

-- In an unshadowed context with a scope, for every prefix, given or not: `registerNamespace` ends
-- and returns a mapping for the URI; the mapping's prefix resolves to the URI; the context stays
-- unshadowed; every prefix that resolved to a non-empty URI resolves to it still; and only the
-- current scope changes.
pub register_namespace-Registers :
    (s : NamespaceScope) (parents : NamespaceContext) (prefix : Option String) (u : String)
    → IsUnshadowed (s ∷ parents)
    → Registers s parents u (register_namespace (s ∷ parents) prefix u)
unfolding register_namespace
register_namespace-Registers s parents none u h = generated-Registers s parents u h
register_namespace-Registers s parents (some p) u h = elim (Bool-cases (p == "")) [
  | inl empty ↦ rw empty (generated-Registers s parents u h)
  | inr given ↦ rw given (register_prefix-Registers s parents p u h)
]
