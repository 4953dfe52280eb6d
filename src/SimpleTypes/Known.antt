-- ===== src/SimpleTypes/Known.antt =====
-- Stores whose references lead to types of the store, and what a value of each type looks like.
use strong_soap.Common.{
  ℕ, zero, suc, ◌<◌, ◌≡◌, ◌≢◌, true, false, Option, none, some, List, [], ◌∷◌, ◌++◌, map, is_text,
  get_elem?, length, All, All-append,
}
use strong_soap.Descriptor.{js_string}
use strong_soap.WsdlReader.Registry.{xsd_uri}
use strong_soap.SimpleTypes.{
  TypeValue, TypeValues, nil, cons, js, simple, list_of, union_of, ListNode, UnionNode, SimpleNode,
  Entry, Store, item_of, js_type_of,
}
use strong_soap.SimpleTypes.Growing.{Grows}

-- A reference that is missing or leads to one of the first n types.
abbrev pub InRange : ℕ → Option ℕ → Type 0
InRange n none = Unit
InRange n (some i) = i < n

abbrev pub Found : ℕ → Option ℕ → Type 0
Found n none = ⊥
Found n (some i) = i < n

abbrev pub BaseKnown : ℕ → Option (Option ℕ) → Type 0
BaseKnown n none = Unit
BaseKnown n (some base) = InRange n base

abbrev pub ListKnown : ℕ → Option ListNode → Type 0
ListKnown n none = Unit
ListKnown n (some l) = InRange n l.item_type × All (λ i. i < n) l.inner

-- The members of a union have to be found.
abbrev pub UnionKnown : ℕ → Option UnionNode → Type 0
UnionKnown n none = Unit
UnionKnown n (some u) = All (Found n) u.members × All (λ i. i < n) u.inner

-- A type in the namespace of XML Schema has a built-in name.
pub record IsKnown (n : ℕ) (d : SimpleNode) : Type 0 where
  pub built_in : is_text d.target_namespace xsd_uri ≡ true → js_type_of d.name ≢ none
  pub base : BaseKnown n d.restriction
  pub items : ListKnown n d.list
  pub members : UnionKnown n d.union

abbrev pub IsClosed : ℕ → Store → Type 0
IsClosed n s = All (λ e. IsKnown n e.node) s

pub IsClosed-Grows : (n : ℕ) (s t : Store) → Grows s t → IsClosed n s → IsClosed n t
IsClosed-Grows n [] [] h k = tt
IsClosed-Grows n [] (e ∷ t) h k = absurd h
IsClosed-Grows n (e ∷ s) [] h k = absurd h
IsClosed-Grows n (e ∷ s) (f ∷ t) (m, a, h) (c, k) = (rw m c, IsClosed-Grows n s t h k)

pub IsKnown-at :
    (n i : ℕ) (s : Store) {e : Entry} → IsClosed n s → get_elem? s i ≡ some e → IsKnown n e.node
IsKnown-at n i [] k g = absurd (cc g)
IsKnown-at n zero (f ∷ s) {e} (c, k) g = let same : f ≡ e = cc g in rw (← same) c
IsKnown-at n (suc i) (f ∷ s) (c, k) g = IsKnown-at n i s k g

pub item_of-InRange :
    (n : ℕ) (item : Option ℕ) (inner : List ℕ)
    → InRange n item
    → All (λ i. i < n) inner
    → InRange n (item_of item inner)
unfolding item_of
item_of-InRange n item [] h k = h
item_of-InRange n item (i ∷ inner) h (l, k) = item_of-InRange n (some i) inner l k

Found-inner : (n : ℕ) (inner : List ℕ) → All (λ i. i < n) inner → All (Found n) (map some inner)
Found-inner n [] h = tt
Found-inner n (i ∷ inner) (l, h) = (l, Found-inner n inner h)

pub Found-members :
    (n : ℕ) (members : List (Option ℕ)) (inner : List ℕ)
    → All (Found n) members
    → All (λ i. i < n) inner
    → All (Found n) (members ++ map some inner)
Found-members n members inner h k =
    All-append (Found n) members (map some inner) h (Found-inner n inner k)

abbrev pub count : TypeValues → ℕ
count nil = 0
count (cons t ts) = suc (count ts)

-- The default where the item type is missing, else a list of a value.
abbrev pub FitsItem : Option ℕ → TypeValue → Type 0
FitsItem none t = t ≡ js js_string
FitsItem (some i) t = (v : TypeValue) × (t ≡ list_of v)

abbrev pub FitsContent : Option (Option ℕ) → Option ListNode → Option UnionNode → TypeValue → Type 0
FitsContent (some none) l u t = t ≡ js js_string
FitsContent (some (some base)) l u t = t ≡ simple base
FitsContent none (some l) u t = FitsItem (item_of l.item_type l.inner) t
FitsContent none none (some u) t =
    (vs : TypeValues) × (count vs ≡ length (u.members ++ map some u.inner)) × (t ≡ union_of vs)
FitsContent none none none t = t ≡ js js_string

-- The value that a type's children call for.
abbrev pub Fits : SimpleNode → TypeValue → Type 0
Fits d t = elim (is_text d.target_namespace xsd_uri) [
  | true ↦ elim (js_type_of d.name) [ none ↦ ⊥ | some j ↦ t ≡ js j ]
  | false ↦ FitsContent d.restriction d.list d.union t
]
