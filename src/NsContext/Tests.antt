-- ===== src/NsContext/Tests.antt =====
-- Runs of the namespace context of src/parser/nscontext.js, and its theorems at inputs.
use strong_soap.Common.{ℕ, ◌<◌, ◌≡◌, refl, true, false, none, some, [], ◌∷◌, arith, eq_iff}
use strong_soap.Common.Decimal.{decimal}
use strong_soap.Common.Result.{ok}
use strong_soap.NsContext.{
  Mapping, NamespaceScope, NamespaceContext, new_scope, new_context, undeclared, get_namespace_uri,
  get_namespace_mapping, get_prefix, get_prefix_mapping, mapping, reserved, is_used, ns_prefix,
  generate_prefix, add_namespace, register_namespace, declare_namespace,
}
use strong_soap.NsContext.Prefixes.{generate_prefix-total}
use strong_soap.NsContext.Shadowing.{IsUnshadowed}
use strong_soap.NsContext.Registering.{Registers, register_namespace-Registers}
use strong_soap.NsContext.Declaring.{Declares, declare_namespace-Declares}
use strong_soap.NsContext.Frames.{add, register, run_call, run, done, one, run-restores}

-- A scope that binds "a" and "ns1", the latter declared.
abbrev ns1_mapping : Mapping
ns1_mapping = record { uri = "urn:n"; prefix = "ns1"; declared = true }

abbrev outer_scope : NamespaceScope
outer_scope = record {
  namespaces = ("a", undeclared "a" "urn:a") ∷ ("ns1", ns1_mapping) ∷ [];
  prefix_count = 0;
}

abbrev nested : NamespaceContext
nested = new_scope ∷ outer_scope ∷ []

program : Unit {0}
unfolding get_namespace_uri get_namespace_mapping get_prefix get_prefix_mapping generate_prefix
    add_namespace register_namespace declare_namespace decimal run run_call
program = tt

lookups :
    (get_namespace_uri nested "a" false ≡ some "urn:a")
    × (get_namespace_uri nested "a" true ≡ none)
    × (get_namespace_uri nested "xml" true ≡ some "http://www.w3.org/XML/1998/namespace")
    × (get_prefix nested "urn:n" false ≡ some "ns1")
    × (get_prefix_mapping nested "urn:a" false ≡ none)
    × (get_prefix_mapping nested "urn:n" false ≡ some (mapping ns1_mapping))
    × (get_prefix_mapping nested "http://www.w3.org/2000/xmlns/" false ≡ some (reserved "xmlns"))
unfolding program
lookups = (refl, refl, refl, refl, refl, refl, refl)

-- "ns1" is taken, so the first prefix that is generated is "ns2".
generated :
    generate_prefix nested none
    ≡ ok (record { namespaces = []; prefix_count = 2 } ∷ outer_scope ∷ [], some "ns2")
unfolding program
generated = refl

declared_default :
    declare_namespace new_context (some "soap") "urn:s"
    ≡ ok (
      record {
        namespaces = ("soap", record { uri = "urn:s"; prefix = "soap"; declared = true }) ∷ [];
        prefix_count = 0;
      }
          ∷ [],
      some (record { uri = "urn:s"; prefix = "soap"; declared = true }),
    )
unfolding program
declared_default = refl

outer-IsUnshadowed : IsUnshadowed (outer_scope ∷ [])
unfolding get_namespace_uri
outer-IsUnshadowed = (
  λ p m h. record {
    no_xml =
        ground (
          arith,
          eq_iff "a" p,
          eq_iff "ns1" p,
          eq_iff p "xml",
          eq_iff "a" "xml",
          eq_iff "ns1" "xml",
        );
    no_xmlns = ground (
      arith,
      eq_iff "a" p,
      eq_iff "ns1" p,
      eq_iff p "xmlns",
      eq_iff "a" "xmlns",
      eq_iff "ns1" "xmlns",
    );
    own = ground (arith, eq_iff "a" p, eq_iff "ns1" p);
    unshadowing = refl;
  },
  (refl, (refl, tt)),
  tt,
)

nested-IsUnshadowed : IsUnshadowed nested
nested-IsUnshadowed = (λ p m h. absurd (cc h), tt, outer-IsUnshadowed)

generate_prefix-total_example :
    (n : ℕ) × (generate_prefix nested none
      ≡ ok (record new_scope { prefix_count = n } ∷ outer_scope ∷ [], some (ns_prefix n)))
    × (0 < n)
    × (is_used nested n ≡ false)
    × ((j : ℕ) → 0 < j → j < n → is_used nested j ≡ true)
generate_prefix-total_example = generate_prefix-total new_scope (outer_scope ∷ []) none

register_namespace-Registers_example :
    Registers new_scope (outer_scope ∷ []) "urn:x" (register_namespace nested (some "a") "urn:x")
register_namespace-Registers_example =
    register_namespace-Registers new_scope (outer_scope ∷ []) (some "a") "urn:x" nested-IsUnshadowed

declare_namespace-Declares_example :
    Declares new_scope (outer_scope ∷ []) "urn:x" (declare_namespace nested none "urn:x")
declare_namespace-Declares_example =
    declare_namespace-Declares new_scope (outer_scope ∷ []) none "urn:x" nested-IsUnshadowed

run-restores_example : nested ≡ nested
unfolding program
run-restores_example =
    run-restores (add "q" "urn:q" false ∷ register none "urn:r" ∷ []) nested nested
      (one tt (one tt done)) refl
