-- ===== src/Exchange/Sorting.antt =====
-- `_sortKeys` of src/parser/xmlHandler.js without an order of the schema keeps the object's order.
use strong_soap.Common.{
  String, Bool, false, ◌==◌, ◌≡◌, refl, ap, ◌∙◌, List, [], ◌∷◌, ◌||◌, ltb, nat_eq, arith, eq_refl,
  All, if◌then◌else◌, suc, ℕ, Bool-cases, inl, inr,
}
use strong_soap.XmlReader.Values.{Fields}
use strong_soap.XmlWriter.Values.{
  index_in, comes_first, insert_key, sort_by, field_names, sort_keys,
}

-- All names of the list are another than k.
abbrev pub Others : String → List String → Type 0
Others k l = All (λ j. (k == j) ≡ false) l

index_in-other :
    (k j : String) (l : List String) → (k == j) ≡ false → index_in (k ∷ l) j ≡ suc (index_in l j)
unfolding index_in
index_in-other k j l h = rw h refl

test-suc : (a b : ℕ) → (ltb (suc a) (suc b) || nat_eq (suc a) (suc b)) ≡ (ltb a b || nat_eq a b)
test-suc a b = ground arith

comes_first-other :
    (k m n : String) (l : List String)
    → (k == m) ≡ false
    → (k == n) ≡ false
    → comes_first [] (k ∷ l) m n ≡ comes_first [] l m n
unfolding comes_first
comes_first-other k m n l h j =
    rw (index_in-other k m l h)
      (rw (index_in-other k n l j) (test-suc (index_in l m) (index_in l n)))

insert_key-other :
    (k m : String) (l s : List String)
    → (k == m) ≡ false
    → Others k s
    → insert_key (comes_first [] (k ∷ l)) m s ≡ insert_key (comes_first [] l) m s
unfolding insert_key
insert_key-other k m l [] h o = refl
insert_key-other k m l (j ∷ s) h (p, o) =
    rw (comes_first-other k m j l h p)
      (ap (λ r. if comes_first [] l m j then m ∷ (j ∷ s) else j ∷ r) (insert_key-other k m l s h o))

insert_key-Others :
    (k m : String) (le : String → String → Bool) (s : List String)
    → (k == m) ≡ false
    → Others k s
    → Others k (insert_key le m s)
unfolding insert_key
insert_key-Others k m le [] h o = (h, tt)
insert_key-Others k m le (j ∷ s) h (p, o) = elim (Bool-cases (le m j)) [
  | inl first ↦ rw first (h, (p, o))
  | inr later ↦ rw later (p, insert_key-Others k m le s h o)
]

sort_by-Others :
    (k : String) (le : String → String → Bool) (s : List String)
    → Others k s
    → Others k (sort_by le s)
unfolding sort_by
sort_by-Others k le [] o = tt
sort_by-Others k le (m ∷ s) (p, o) =
    insert_key-Others k m le (sort_by le s) p (sort_by-Others k le s o)

sort_by-other :
    (k : String) (l s : List String)
    → Others k s
    → sort_by (comes_first [] (k ∷ l)) s ≡ sort_by (comes_first [] l) s
unfolding sort_by
sort_by-other k l [] o = refl
sort_by-other k l (m ∷ s) (p, o) =
    ap (insert_key (comes_first [] (k ∷ l)) m) (sort_by-other k l s o)
    ∙ insert_key-other k m l (sort_by (comes_first [] l) s) p
        (sort_by-Others k (comes_first [] l) s o)

abbrev pub AreDistinct : List String → Type 0
AreDistinct [] = Unit
AreDistinct (k ∷ l) = Others k l × AreDistinct l

insert_key-first : (k : String) (l : List String) → insert_key (comes_first [] (k ∷ l)) k l ≡ k ∷ l
unfolding insert_key comes_first index_in
insert_key-first k [] = refl
insert_key-first k (j ∷ l) = rw (eq_refl k) (ground (arith))

sort_by_self : (l : List String) → AreDistinct l → sort_by (comes_first [] l) l ≡ l
unfolding sort_by
sort_by_self [] h = refl
sort_by_self (k ∷ l) (o, h) =
    ap (insert_key (comes_first [] (k ∷ l)) k) (sort_by-other k l l o ∙ sort_by_self l h)
    ∙ insert_key-first k l

pub sort_keys-own : (d : Fields) → AreDistinct (field_names d) → sort_keys d [] ≡ field_names d
unfolding sort_keys
sort_keys-own d h = sort_by_self (field_names d) h
