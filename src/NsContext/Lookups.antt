-- ===== src/NsContext/Lookups.antt =====
-- What `addNamespace` of src/parser/nscontext.js does to the lookups.
use mathlib.Core.Option
use strong_soap.Common.{
  String, ◌≡◌, ◌≢◌, refl, Bool, true, false, ◌==◌, Option, none, some, [], ◌∷◌, arith, is_text,
  eq_iff, eq_refl, eq_false, inl, inr, Bool-cases,
}
use strong_soap.Common.Dict.{get-put}
use strong_soap.NsContext.{
  Mapping, NamespaceScope, NamespaceContext, get_namespace_uri, get_namespace_mapping, bind_prefix,
  add_namespace, undeclared,
}

-- The URI lookup is the URI of the mapping lookup.
pub get_namespace_uri-mapping :
    (c : NamespaceContext) (p : String)
    → get_namespace_uri c p false ≡ Option.map (λ m. m.uri) (get_namespace_mapping c p)
unfolding get_namespace_uri get_namespace_mapping
get_namespace_uri-mapping [] p = refl
get_namespace_uri-mapping (s ∷ c) p = ground (arith, get_namespace_uri-mapping c p)

-- Of a prefix that is not reserved the lookup reads the current scope, then its parents.
pub get_namespace_uri-bind_self :
    (s : NamespaceScope) (c : NamespaceContext) (p : String) (m : Mapping) (local : Bool)
    → (p == "xml") ≡ false
    → (p == "xmlns") ≡ false
    → get_namespace_uri (bind_prefix (s ∷ c) p m) p local ≡ some m.uri
unfolding get_namespace_uri
get_namespace_uri-bind_self s c p m local x y =
    ground (arith, get-put p p m s.namespaces, eq_refl p)

pub get_namespace_uri-bind_ne :
    (s : NamespaceScope) (c : NamespaceContext) (p q : String) (m : Mapping) (local : Bool)
    → (p == q) ≡ false
    → get_namespace_uri (bind_prefix (s ∷ c) p m) q local ≡ get_namespace_uri (s ∷ c) q local
unfolding get_namespace_uri
get_namespace_uri-bind_ne s c p q m local ne = ground (arith, get-put p q m s.namespaces)

pub uri_of_local :
    (s : NamespaceScope) (c : NamespaceContext) (p u : String) (local : Bool)
    → get_namespace_uri (s ∷ c) p local ≡ some u
    → get_namespace_uri (s ∷ c) p false ≡ some u
unfolding get_namespace_uri
uri_of_local s c p u local h = ground arith

is_text-eq : (o : Option String) (u : String) → is_text o u ≡ true → o ≡ some u
is_text-eq none u h = cc
is_text-eq (some v) u h = ground (arith, eq_iff v u)

is_text-ne : (o : Option String) (u : String) → is_text o u ≡ false → o ≢ some u
is_text-ne none u h e = cc
is_text-ne (some v) u h e = ground (arith, eq_iff v u)

-- In a context with a scope, after `addNamespace` of a prefix that is not reserved: the prefix
-- resolves to the URI; every other prefix resolves as before; and where the call returns false the
-- context is unchanged, where it returns true the lookup did not give the URI.
pub add_namespace_lem :
    (s : NamespaceScope) (parents : NamespaceContext) (p u : String) (local : Bool)
    → p ≢ "xml"
    → p ≢ "xmlns"
    → (get_namespace_uri (add_namespace (s ∷ parents) p u local).0 p false ≡ some u)
      × ((q : String) (l : Bool)
          → p ≢ q
          → get_namespace_uri (add_namespace (s ∷ parents) p u local).0 q l
            ≡ get_namespace_uri (s ∷ parents) q l)
      × ((add_namespace (s ∷ parents) p u local).1 ≡ false
          → (add_namespace (s ∷ parents) p u local).0 ≡ s ∷ parents)
      × ((add_namespace (s ∷ parents) p u local).1 ≡ true
          → get_namespace_uri (s ∷ parents) p local ≢ some u)
unfolding add_namespace
add_namespace_lem s parents p u local x y =
    let resolved = get_namespace_uri (s ∷ parents) p local in
    let m = undeclared p u in
    elim (Bool-cases (is_text resolved u)) [
      | inl same ↦ rw same (
        uri_of_local s parents p u local (is_text-eq resolved u same),
        λ q l ne. refl,
        λ _. refl,
        λ e. absurd (cc e),
      )
      | inr new ↦ rw new (
        get_namespace_uri-bind_self s parents p m false (eq_false p "xml" x) (eq_false p "xmlns" y),
        λ q l ne. get_namespace_uri-bind_ne s parents p q m l (eq_false p q ne),
        λ e. absurd (cc e),
        λ _ e. is_text-ne resolved u new e,
      )
    ]
