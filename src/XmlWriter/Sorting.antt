-- ===== src/XmlWriter/Sorting.antt =====
-- `_sortKeys` of src/parser/xmlHandler.js.
use mathlib.Core.List.{Perm}
use mathlib.Core.List.Perm
use strong_soap.Common.{
  ℕ, String, Bool, true, false, ◌≡◌, ◌⊎◌, inl, inr, ◌<◌, ◌≤◌, List, [], ◌∷◌, ◌&&◌, ◌||◌, ltb,
  nat_eq, arith, Bool-cases, All,
}
use strong_soap.XmlReader.Values.{Fields}
use strong_soap.XmlWriter.Values.{
  index_in, comes_first, insert_key, sort_by, field_names, sort_keys,
}

-- A place in the order comes before another, or the places are one and the key comes no later.
abbrev pub NotAfter : List String → List String → String → String → Type 0
NotAfter order keys m n =
    (index_in order m < index_in order n)
    ⊎ ((index_in order m ≡ index_in order n) × (index_in keys m ≤ index_in keys n))

-- No text of the list comes after a later one.
abbrev pub InOrder : List String → List String → List String → Type 0
InOrder order keys [] = Unit
InOrder order keys (k ∷ l) = All (NotAfter order keys k) l × InOrder order keys l

-- The comparison on places alone.
first-lem :
    (a b c d : ℕ)
    → (ltb a b || (nat_eq a b && (ltb c d || nat_eq c d))) ≡ true
    → (a < b) ⊎ ((a ≡ b) × (c ≤ d))
first-lem a b c d h = ground (arith)

second-lem :
    (a b c d : ℕ)
    → (ltb a b || (nat_eq a b && (ltb c d || nat_eq c d))) ≡ false
    → (b < a) ⊎ ((b ≡ a) × (d ≤ c))
second-lem a b c d h = ground (arith)

first-NotAfter :
    (order keys : List String) (m n : String)
    → comes_first order keys m n ≡ true
    → NotAfter order keys m n
unfolding comes_first
first-NotAfter order keys m n h =
    first-lem (index_in order m) (index_in order n) (index_in keys m) (index_in keys n) h

second-NotAfter :
    (order keys : List String) (m n : String)
    → comes_first order keys m n ≡ false
    → NotAfter order keys n m
unfolding comes_first
second-NotAfter order keys m n h =
    second-lem (index_in order m) (index_in order n) (index_in keys m) (index_in keys n) h

transitive-lem :
    (a b c x y z : ℕ)
    → (a < b) ⊎ ((a ≡ b) × (x ≤ y))
    → (b < c) ⊎ ((b ≡ c) × (y ≤ z))
    → (a < c) ⊎ ((a ≡ c) × (x ≤ z))
transitive-lem a b c x y z h k = ground (arith)

module _ (order keys : List String) where
  All-NotAfter :
      (m n : String) (l : List String)
      → NotAfter order keys m n
      → All (NotAfter order keys n) l
      → All (NotAfter order keys m) l
  All-NotAfter m n [] h k = tt
  All-NotAfter m n (j ∷ l) h (p, k) = (transitive-lem _ _ _ _ _ _ h p, All-NotAfter m n l h k)

  insert_key-All :
      (m k : String) (l : List String)
      → NotAfter order keys m k
      → All (NotAfter order keys m) l
      → All (NotAfter order keys m) (insert_key (comes_first order keys) k l)
  unfolding insert_key
  insert_key-All m k [] h t = (h, tt)
  insert_key-All m k (j ∷ l) h (p, t) = elim (Bool-cases (comes_first order keys k j)) [
    | inl e ↦ rw e (h, (p, t))
    | inr e ↦ rw e (p, insert_key-All m k l h t)
  ]

  insert_key-InOrder :
      (k : String) (l : List String)
      → InOrder order keys l
      → InOrder order keys (insert_key (comes_first order keys) k l)
  unfolding insert_key
  insert_key-InOrder k [] s = (tt, tt)
  insert_key-InOrder k (j ∷ l) (below, s) = elim (Bool-cases (comes_first order keys k j)) [
    | inl e ↦
        rw e
          (let p = first-NotAfter order keys k j e in ((p, All-NotAfter k j l p below), (below, s)))
    | inr e ↦
        rw e
          (insert_key-All j k l (second-NotAfter order keys k j e) below, insert_key-InOrder k l s)
  ]

  sort_by-InOrder : (l : List String) → InOrder order keys (sort_by (comes_first order keys) l)
  unfolding sort_by
  sort_by-InOrder [] = tt
  sort_by-InOrder (k ∷ l) =
      insert_key-InOrder k (sort_by (comes_first order keys) l) (sort_by-InOrder l)

insert_key-perm :
    (le : String → String → Bool) (k : String) (l : List String) → Perm (insert_key le k l) (k ∷ l)
unfolding insert_key
insert_key-perm le k [] = Perm.rfl
insert_key-perm le k (j ∷ l) = elim (Bool-cases (le k j)) [
  | inl e ↦ rw e Perm.rfl
  | inr e ↦ rw e (Perm.trans (Perm.cons j (insert_key-perm le k l)) (Perm.swap k j l))
]

sort_by-perm : (le : String → String → Bool) (l : List String) → Perm (sort_by le l) l
unfolding sort_by
sort_by-perm le [] = Perm.rfl
sort_by-perm le (k ∷ l) =
    Perm.trans (insert_key-perm le k (sort_by le l)) (Perm.cons k (sort_by-perm le l))

-- The names that mapObject goes through are the object's keys, each as often as there. Their places
-- in the schema's order of elements do not fall, with the names that it lacks behind all others, and
-- names at one place keep the object's order.
pub sort_keys-Sorted :
    (d : Fields) (order : List String)
    → Perm (sort_keys d order) (field_names d) × InOrder order (field_names d) (sort_keys d order)
unfolding sort_keys
sort_keys-Sorted d order = (
  sort_by-perm (comes_first order (field_names d)) (field_names d),
  sort_by-InOrder order (field_names d) (field_names d),
)
