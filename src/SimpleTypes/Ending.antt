-- ===== src/SimpleTypes/Ending.antt =====
-- The processing of simple types ends, circular ones included, with the value that each type calls for.
use strong_soap.Common.{
  ℕ, suc, ◌≤◌, ◌<◌, ◌≡◌, refl, ap, ◌∙◌, Option, none, some, List, [], ◌∷◌, ◌++◌, map, is_text,
  get_elem?, length, All, arith, Bool-cases, inl, inr, ◌≢◌,
}
use strong_soap.Common.Result.{Result, ok, ◌>>=◌}
use strong_soap.Descriptor.{JsType, js_string}
use strong_soap.WsdlReader.Registry.{xsd_uri}
use strong_soap.SimpleTypes.{
  TypeValue, TypeValues, nil, cons, js, simple, list_of, union_of, ListNode, UnionNode, SimpleNode,
  Entry, Store, set_type, type_at, item_of, member_types, by_content, js_type_of, resolve_type,
}
use strong_soap.SimpleTypes.Growing.{
  Grows, Grows-refl, Grows-trans, Grows-set_type, Grows-set_type_open, open_count, open_count-Grows,
  open_count-set_type, length-Grows, IsOpen, HasValue, IsThere, HasValue-Grows, type_at-set_type,
}
use strong_soap.SimpleTypes.Known.{
  BaseKnown, ListKnown, UnionKnown, IsClosed, IsClosed-Grows, IsKnown-at, item_of-InRange, Found,
  Found-members, InRange, count, Fits, FitsContent, FitsItem,
}

abbrev FitsOpen : Option TypeValue → SimpleNode → TypeValue → Type 0
FitsOpen none d t = Fits d t
FitsOpen (some u) d t = Unit

-- A type that had no value has one that its children call for.
abbrev pub FitsAt : Option Entry → TypeValue → Type 0
FitsAt none t = Unit
FitsAt (some e) t = FitsOpen e.type e.node t

-- The call returns: the type has a value, the values that were there are kept.
pub record Processed (s : Store) (i : ℕ) (r : Result Store) : Type 0 where
  pub after : Store
  pub returned : r ≡ ok after
  pub grows : Grows s after
  pub has_value : HasValue (get_elem? after i)
  pub fits : FitsAt (get_elem? s i) (type_at i after)

-- What is known of the processing of other types, with at most k types left open.
abbrev Works : ℕ → ℕ → (ℕ → Store → Result Store) → Type 0
Works n k process =
    (j : ℕ) (s : Store)
    → length s ≡ n
    → IsClosed n s
    → j < n
    → open_count s ≤ k
    → Processed s j (process j s)

HasValue-IsThere : (e : Option Entry) → HasValue e → IsThere e
HasValue-IsThere none h = absurd h
HasValue-IsThere (some e) h = tt

some-of : (t : Option JsType) → t ≢ none → (j : JsType) × (t ≡ some j)
some-of none h = absurd (h refl)
some-of (some j) h = (j, refl)

-- The members of a union, one after the other.
record Collected (s : Store) (ms : List (Option ℕ)) (r : Result (Store × TypeValues)) : Type 0 where
  after : Store
  types : TypeValues
  returned : r ≡ ok (after, types)
  grows : Grows s after
  counted : count types ≡ length ms

module _ (n k : ℕ) (process : ℕ → Store → Result Store) (works : Works n k process) where
  member_types-Collected :
      (ms : List (Option ℕ)) (s : Store)
      → length s ≡ n
      → IsClosed n s
      → All (Found n) ms
      → open_count s ≤ k
      → Collected s ms (member_types process ms s)
  unfolding member_types
  member_types-Collected [] s l c h o = record {
    after = s;
    types = nil;
    returned = refl;
    grows = Grows-refl s;
    counted = refl;
  }
  member_types-Collected (none ∷ ms) s l c h o = absurd h.0
  member_types-Collected (some i ∷ ms) s l c (m, h) o =
      let p = works i s l c m o in
      let q =
        member_types-Collected ms p.after (length-Grows s p.after p.grows ∙ l)
          (IsClosed-Grows n s p.after p.grows c) h
          (omega (arith, open_count-Grows s p.after p.grows)) in
      record {
        after = q.after;
        types = cons (type_at i p.after) q.types;
        returned = rw p.returned (rw q.returned refl);
        grows = Grows-trans s p.after q.after p.grows q.grows;
        counted = ap suc q.counted;
      }

  -- A type without a value that is at number i.
  module _ (i : ℕ) (s : Store) (e : Entry) (at : get_elem? s i ≡ some e) (open_type : e.type ≡ none)
      (l : length s ≡ n) (closed : IsClosed n s) (o : open_count s ≤ suc k) where
    is_open : IsOpen (get_elem? s i)
    is_open = rw at open_type

    fits_at : (t : TypeValue) → Fits e.node t → FitsAt (get_elem? s i) t
    fits_at t h = rw at (rw open_type h)

    -- A value that is set after other types have been processed.
    finish :
        (v w : TypeValue) (t : Store)
        → Grows (set_type i v s) t
        → Fits e.node w
        → Processed s i (ok (set_type i w t))
    finish v w t g h =
        let before = type_at-set_type i v s (rw at tt) in
        let last =
          type_at-set_type i w t
            (HasValue-IsThere _ (HasValue-Grows i (set_type i v s) t g before.0)) in
        record {
          after = set_type i w t;
          returned = refl;
          grows = Grows-set_type i v w s t is_open g;
          has_value = last.0;
          fits = fits_at _ (rw (last.1) h);
        }

    settled : (v : TypeValue) → Fits e.node v → Processed s i (ok (set_type i v s))
    settled v h =
        let last = type_at-set_type i v s (rw at tt) in
        record {
          after = set_type i v s;
          returned = refl;
          grows = Grows-set_type_open i v s is_open;
          has_value = last.0;
          fits = fits_at _ (rw (last.1) h);
        }

    abbrev begun : Store
    begun = set_type i (js js_string) s

    begun-Grows : Grows s begun
    begun-Grows = Grows-set_type_open i (js js_string) s is_open

    run : (j : ℕ) → j < n → Processed begun j (process j begun)
    run j m =
        works j begun (length-Grows s begun begun-Grows ∙ l)
          (IsClosed-Grows n s begun begun-Grows closed) m
          (omega (arith, open_count-set_type i (js js_string) s is_open))

    by_item :
        (item : Option ℕ)
        → InRange n item
        → ((t : TypeValue) → FitsItem item t → Fits e.node t)
        → Processed s i (elim item [
          | none ↦ ok begun
          | some j ↦ do s' ← process j begun; ok (set_type i (list_of (type_at j s')) s')
        ])
    by_item none m fits = settled (js js_string) (fits _ refl)
    by_item (some j) m fits =
        let p = run j m in
        rw p.returned
          (finish (js js_string) (list_of (type_at j p.after)) p.after p.grows (fits _ (_, refl)))

    by_content-Processed :
        (b : Option (Option ℕ)) (lists : Option ListNode) (u : Option UnionNode)
        → BaseKnown n b
        → ListKnown n lists
        → UnionKnown n u
        → ((t : TypeValue) → FitsContent b lists u t → Fits e.node t)
        → Processed s i (by_content process i b lists u begun)
    unfolding by_content
    by_content-Processed (some none) lists u kb kl ku fits = settled (js js_string) (fits _ refl)
    by_content-Processed (some (some base)) lists u kb kl ku fits =
        let p = run base kb in
        rw p.returned (finish (js js_string) (simple base) p.after p.grows (fits _ refl))
    by_content-Processed none (some x) u kb kl ku fits =
        by_item (item_of x.item_type x.inner) (item_of-InRange n x.item_type x.inner kl.0 kl.1) fits
    by_content-Processed none none (some u) kb kl ku fits =
        let p =
          member_types-Collected (u.members ++ map some u.inner) begun
            (length-Grows s begun begun-Grows ∙ l) (IsClosed-Grows n s begun begun-Grows closed)
            (Found-members n u.members u.inner ku.0 ku.1)
            (omega (arith, open_count-set_type i (js js_string) s is_open)) in
        rw p.returned (
          finish (js js_string) (union_of p.types) p.after p.grows
            (fits _ (p.types, p.counted, refl)))
    by_content-Processed none none none kb kl ku fits = settled (js js_string) (fits _ refl)

    pub resolve_type-Processed : Processed s i (resolve_type process i e.node s)
    unfolding resolve_type
    resolve_type-Processed =
        let known = IsKnown-at n i s closed at in
        elim (Bool-cases (is_text e.node.target_namespace xsd_uri)) [
          | inl own ↦
              let (j, found) = some-of (js_type_of e.node.name) (known.built_in own) in
              rw own (rw found (settled (js j) (rw (own, Fits) (rw found refl))))
          | inr other ↦ rw other (
              by_content-Processed e.node.restriction e.node.list e.node.union known.base
                known.items known.members (λ t h. rw (other, Fits) h))
        ]
