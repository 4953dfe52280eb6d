-- ===== src/Schemas/Resolving.antt =====
-- What references of src/parser/element.js resolve to after a schema is added in
-- src/parser/wsdl/types.js.
use strong_soap.Common.{
  String, Bool, true, ◌&&◌, ◌==◌, ◌≡◌, ◌⊎◌, ◌≢◌, refl, ap, sym, ◌∙◌, Option, none, some,
  if◌then◌else◌, truthy?, or_else, is_text, eq_iff, eq_refl, Bool-cases, inl, inr,
}
use strong_soap.Common.Dict.{Dict, get, get-put}
use strong_soap.Common.Result.{ok, value-Chain}
use strong_soap.QName.{QName, parse, null}
use strong_soap.Descriptor.Adding.{first}
use strong_soap.WsdlReader.Registry.{xsd_uri}
use strong_soap.Schemas.{
  Merging, Table, complex_types, simple_types, ObjectType, a_type, an_object, Schema,
  same_namespace, key_of, can_merge, merge_schema, combined, find_there, add_schema, find_object,
  find_in, can_be_builtin, resolve_in, resolve_schema_object,
}

module _ {V : Type 0} (m : Merging V) where
  first-some : (a b : Option V) (v : V) → a ≡ some v → first a b ≡ some v
  first-some a b v e = rw e refl

  -- Found before, found after something is put in front.
  still_first : (a b : Option V) (v : V) → b ≡ some v → (w : V) × (first a b ≡ some w)
  still_first none b v e = (v, e)
  still_first (some x) b v e = (x, refl)

  first_cases : (a b : Option V) (v : V) → first a b ≡ some v → (a ≡ some v) ⊎ (b ≡ some v)
  first_cases none b v e = inr e
  first_cases (some x) b v e = inl e

  get-merge_kept :
      (n : String) (a b : Dict V) (v : V)
      → get n a ≡ some v
      → (w : V) × (get n (m.merge a b) ≡ some w)
  get-merge_kept n a b v e = rw (m.get-merge n a b) (still_first (get n b) (get n a) v e)

  find_object-merge :
      (s source : Schema V) (i : Bool) (t : ObjectType) (n : String) (v : V)
      → can_merge s source i ≡ true
      → find_object t n s ≡ some v
      → (w : V) × (find_object t n (merge_schema m s source i) ≡ some w)
  unfolding find_object merge_schema
  find_object-merge s source i (an_object t) n v c e =
      rw c (get-merge_kept n (s.tables t) (source.tables t) v e)
  find_object-merge s source i a_type n v c e =
      rw c
        (elim (first_cases (get n (s.tables complex_types)) (get n (s.tables simple_types)) v e) [
          | inl complex ↦
              let (w, f) =
                get-merge_kept n (s.tables complex_types) (source.tables complex_types) v complex in
              (w, first-some _ _ w f)
          | inr simple ↦
              let (w, f) =
                get-merge_kept n (s.tables simple_types) (source.tables simple_types) v simple in
              still_first _ _ w f
        ])

  find_object-merge_any :
      (s source : Schema V) (i : Bool) (t : ObjectType) (n : String) (v : V)
      → find_object t n s ≡ some v
      → (w : V) × (find_object t n (merge_schema m s source i) ≡ some w)
  find_object-merge_any s source i t n v e = elim (Bool-cases (can_merge s source i)) [
    | inl merged ↦ find_object-merge s source i t n v merged e
    | inr other ↦ (v, unfold merge_schema in rw other e)
  ]

  -- The schema that has a key after one was added.
  get-add_schema :
      (schemas : Dict (Schema V)) (s : Schema V) (u : String)
      → get u (add_schema m schemas s) ≡ (
          if key_of s.target_namespace == u
          then some (combined m (get u schemas) s)
          else get u schemas)
  unfolding add_schema
  get-add_schema schemas s u = elim (Bool-cases (key_of s.target_namespace == u)) [
    | inl same ↦
        rw (get-put (key_of s.target_namespace) u _ schemas)
          (rw same (ap (λ k. some (combined m (get k schemas) s)) ((eq_iff _ u).0 same)))
    | inr differ ↦ rw (get-put (key_of s.target_namespace) u _ schemas) (rw differ refl)
  ]

  find_object-combined :
      (old : Option (Schema V)) (s : Schema V) (t : ObjectType) (n : String) (v : V)
      → find_there t n old ≡ some v
      → (w : V) × (find_object t n (combined m old s) ≡ some w)
  unfolding combined
  find_object-combined none s t n v e = absurd (cc e)
  find_object-combined (some old) s t n v e = find_object-merge_any old s true t n v e

  find_in-add_schema :
      (schemas : Dict (Schema V)) (s : Schema V) (u : Option String) (t : ObjectType) (n : String)
      (v : V)
      → find_in schemas u t n ≡ some v
      → (w : V) × (find_in (add_schema m schemas s) u t n ≡ some w)
  unfolding find_in
  find_in-add_schema schemas s none t n v e = absurd (cc e)
  find_in-add_schema schemas s (some u) t n v e =
      elim (Bool-cases (key_of s.target_namespace == u)) [
        | inl same ↦
            rw (get-add_schema schemas s u)
              (rw same (find_object-combined (get u schemas) s t n v e))
        | inr differ ↦ rw (get-add_schema schemas s u) (rw differ (v, e))
      ]

  resolve_in-add_schema :
      (builtin : String → Option V) (schemas : Dict (Schema V)) (s : Schema V) (t : ObjectType)
      (uri : Option String) (q : QName) (v : V)
      → resolve_in builtin schemas t uri q ≡ some v
      → (w : V) × (resolve_in builtin (add_schema m schemas s) t uri q ≡ some w)
  unfolding resolve_in
  resolve_in-add_schema builtin schemas s t uri q v e = elim (Bool-cases (is_text q.prefix "xml")) [
    | inl xml ↦ absurd (cc (rw xml at e))
    | inr other ↦ elim (Bool-cases (is_text uri xsd_uri && can_be_builtin t)) [
      | inl standard ↦ (v, rw other (rw standard (rw standard at (rw other at e))))
      | inr own ↦
          rw other
            (rw own (find_in-add_schema schemas s uri t q.name v (rw own at (rw other at e))))
    ]
  ]

  -- A reference that resolves still resolves after a schema is added, whatever the two have in common.
  pub resolve-add_schema :
      (namespaces : String → Option String) (target : Option String) (builtin : String → Option V)
      (schemas : Dict (Schema V)) (s : Schema V) (t : ObjectType) (ns_name : String) (v : V)
      → resolve_schema_object namespaces target builtin schemas t ns_name ≡ ok (some v)
      → (w : V) × (resolve_schema_object namespaces target builtin
            (add_schema m schemas s)
            t
            ns_name
          ≡ ok (some w))
  unfolding resolve_schema_object
  resolve-add_schema namespaces target builtin schemas s t ns_name v e =
      let c = value-Chain {first = parse (some ns_name) null} _ e in
      let (w, found) =
        resolve_in-add_schema builtin schemas s t
          (if truthy? c.middle.prefix then namespaces (or_else c.middle.prefix "") else target)
          c.middle v (cc c.left) in
      (w, rw c.reached (ap ok found))

  -- Every schema stands under its own namespace.
  abbrev pub IsKeyed : Dict (Schema V) → Type 0
  IsKeyed schemas =
      (u : String) (s : Schema V) → get u schemas ≡ some s → key_of s.target_namespace ≡ u

  combined-namespace :
      (old : Option (Schema V)) (s : Schema V) (u : String)
      → ((o : Schema V) → old ≡ some o → key_of o.target_namespace ≡ u)
      → key_of s.target_namespace ≡ u
      → key_of (combined m old s).target_namespace ≡ u
  unfolding combined merge_schema
  combined-namespace none s u h k = k
  combined-namespace (some o) s u h k = elim (Bool-cases (can_merge o s true)) [
    | inl merged ↦ rw merged (h o refl)
    | inr other ↦ rw other (h o refl)
  ]

  pub add_schema-IsKeyed :
      (schemas : Dict (Schema V)) (s : Schema V)
      → IsKeyed schemas
      → IsKeyed (add_schema m schemas s)
  add_schema-IsKeyed schemas s h u r e = elim (Bool-cases (key_of s.target_namespace == u)) [
    | inl same ↦
        let made : r ≡ combined m (get u schemas) s =
          cc (rw same at (rw (get-add_schema schemas s u) at e)) in
        rw made (combined-namespace (get u schemas) s u (h u) ((eq_iff _ u).0 same))
    | inr differ ↦ h u r (rw differ at (rw (get-add_schema schemas s u) at e))
  ]

  key_of-some : (ns : Option String) (u : String) → key_of ns ≡ u → u ≢ "undefined" → ns ≡ some u
  key_of-some none u e ne = absurd (ne (sym e))
  key_of-some (some x) u e ne = ap some e

  can_merge_same :
      (o s : Schema V) (u : String)
      → o.target_namespace ≡ some u
      → s.target_namespace ≡ some u
      → can_merge o s true ≡ true
  unfolding can_merge
  can_merge_same o s u e f =
      let same : same_namespace o.target_namespace s.target_namespace ≡ true =
        ap (λ ns. same_namespace ns s.target_namespace) e
        ∙ ap (same_namespace (some u)) f
        ∙ eq_refl u in
      rw same refl

  combined-defines :
      (old : Option (Schema V)) (s : Schema V) (t : Table) (n : String) (v : V)
      → ((o : Schema V) → old ≡ some o → can_merge o s true ≡ true)
      → get n (s.tables t) ≡ some v
      → get n ((combined m old s).tables t) ≡ some v
  unfolding combined merge_schema
  combined-defines none s t n v h e = e
  combined-defines (some o) s t n v h e =
      rw (h o refl)
        (m.get-merge n (o.tables t) (s.tables t) ∙ first-some _ (get n (o.tables t)) v e)

  -- What a schema defines, other than the types of XML Schema, is found under its target namespace
  -- after the schema is added to schemas that stand under their own namespaces.
  pub add_schema-defines :
      (schemas : Dict (Schema V)) (s : Schema V) (u : String) (t : Table) (n : String) (v : V)
      → IsKeyed schemas
      → s.target_namespace ≡ some u
      → u ≢ "undefined"
      → get n (s.tables t) ≡ some v
      → find_in (add_schema m schemas s) (some u) (an_object t) n ≡ some v
  unfolding find_in find_object
  add_schema-defines schemas s u t n v h own named e = rw (get-add_schema schemas s u) (
      rw ((eq_iff _ u).1 (ap key_of own)) (
        combined-defines (get u schemas) s t n v
          (λ o there.
            can_merge_same o s u (key_of-some o.target_namespace u (h u o there) named) own)
          e))
