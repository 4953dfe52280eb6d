-- ===== src/Schemas/Tests.antt =====
-- Runs of the schemas of src/parser/xsd/schema.js, and their theorems at inputs.
use strong_soap.Common.{
  ℕ, String, ◌≡◌, refl, none, some, [], ◌∷◌, arith, eq_iff, ◌==◌, ap, ◌∙◌, Bool-cases, inl, inr,
}
use strong_soap.Common.Dict.{Dict, get, put, get-put}
use strong_soap.Common.Result.{ok}
use strong_soap.QName.{parse, exec, has_brace}
use strong_soap.Descriptor.Adding.{first}
use strong_soap.Schemas.{
  Merging, elements, an_object, Schema, add_schema, add_child, find_in, resolve_schema_object,
  new_schema,
}
use strong_soap.Schemas.Resolving.{IsKeyed, resolve-add_schema, add_schema-defines}

abbrev assign : Dict ℕ → Dict ℕ → Dict ℕ
assign a [] = a
assign a ((k, v) ∷ b) = put k v (assign a b)

get-assign : (k : String) (a b : Dict ℕ) → get k (assign a b) ≡ first (get k b) (get k a)
get-assign k a [] = refl
get-assign k a ((j, v) ∷ b) = get-put j k v (assign a b) ∙ ground (arith, get-assign k a b)

abbrev merging : Merging ℕ
merging = record { merge = assign; merge_xmlns = λ a b. a; uniq = λ l. l; get-merge = get-assign }

-- A schema with one element, and another of the same namespace with another.
abbrev one : Schema ℕ
one = add_child (new_schema (some "urn:a") []) (record {
  element_name = "element";
  name = some "x";
  inherited_namespace = some "urn:a";
  namespace = none;
  target_namespace = none;
  schema_location = none;
  location = none;
  reference = 1;
})

abbrev two : Schema ℕ
two = record one { tables = λ t. ("y", 2) ∷ [] }

one_test : get "x" (one.tables elements) ≡ some 1
unfolding add_child
one_test = refl

abbrev schemas : Dict (Schema ℕ)
schemas = ("urn:a", one) ∷ []

one_found :
    resolve_schema_object (λ p. none) (some "urn:a") (λ n. none) schemas (an_object elements) "x"
    ≡ ok (some 1)
unfolding resolve_schema_object parse add_child exec has_brace
one_found = refl

resolve-add_schema_example :
    (w : ℕ) × (resolve_schema_object
        (λ p. none)
        (some "urn:a")
        (λ n. none)
        (add_schema merging schemas two)
        (an_object elements)
        "x"
      ≡ ok (some w))
resolve-add_schema_example =
    resolve-add_schema merging (λ p. none) (some "urn:a") (λ n. none) schemas two
      (an_object elements) "x" 1 one_found

schemas-IsKeyed : IsKeyed merging schemas
unfolding add_child
schemas-IsKeyed u s e = elim (Bool-cases ("urn:a" == u)) [
  | inl same ↦ let made : s ≡ one = cc (rw same at e) in rw made ((eq_iff "urn:a" u).0 same)
  | inr differ ↦ absurd (cc (rw differ at e))
]

add_schema-defines_example :
    find_in (add_schema merging schemas two) (some "urn:a") (an_object elements) "y" ≡ some 2
unfolding add_child
add_schema-defines_example =
    add_schema-defines merging schemas two "urn:a" elements "y" 2 schemas-IsKeyed refl
      (λ e. cc (ap (λ s. s == "urn:a") e)) refl
