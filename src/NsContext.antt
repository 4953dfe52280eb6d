-- ===== src/NsContext.antt =====
-- src/parser/nscontext.js: XML namespace scopes and the context that stacks them.
-- A context is the list of its scopes, the current one first. `pushContext` is the only place that
-- makes a scope, and it links the new scope to the current one, so the array `scopes` and the
-- chain of `parent` links from `currentScope` hold the same scopes, and one list stands for both.
pub mod Prefixes
pub mod Lookups
pub mod Shadowing
pub mod Registering
pub mod Declaring
pub mod Frames
pub mod Ending
pub mod Fresh
mod Tests
use Prim.Native.String
use strong_soap.Common.{
  ℕ, zero, suc, String, Bool, true, false, not, ◌&&◌, ◌==◌, Option, none, some, List, [], ◌∷◌, ◌++◌,
  length, truthy?, is_text, if◌then◌else◌,
}
use strong_soap.Common.Dict.{Dict, get, put, keys}
use strong_soap.Common.Decimal.{decimal}
use strong_soap.Common.Result.{Result, ok, throw, diverge, type_error, ◌>>=◌}

pub record Mapping : Type 0 where
  pub uri : String
  pub prefix : String
  pub declared : Bool

pub record NamespaceScope : Type 0 where
  pub namespaces : Dict Mapping
  pub prefix_count : ℕ

-- `currentScope`, its parent, the parent's parent and so on; `[]` where it is null or undefined.
abbrev pub NamespaceContext : Type 0
NamespaceContext = List NamespaceScope

abbrev pub xml_uri : String
xml_uri = "http://www.w3.org/XML/1998/namespace"

abbrev pub xmlns_uri : String
xmlns_uri = "http://www.w3.org/2000/xmlns/"

-- `new NamespaceScope(parent)`; the parent is the rest of the list.
abbrev pub new_scope : NamespaceScope
new_scope = record { namespaces = []; prefix_count = 0 }

-- The lookups. A call on a null `currentScope` gives null, as `this.currentScope && …` does.
unfoldable pub get_namespace_uri : NamespaceContext → String → Bool → Option String
get_namespace_uri [] prefix local_only = none
get_namespace_uri (s ∷ parents) prefix local_only =
    if prefix == "xml"
    then some xml_uri
    else if prefix == "xmlns"
    then some xmlns_uri
    else elim (get prefix s.namespaces) [
      | some m ↦ some m.uri
      | none ↦ if local_only then none else get_namespace_uri parents prefix false
    ]

unfoldable pub get_namespace_mapping : NamespaceContext → String → Option Mapping
get_namespace_mapping [] prefix = none
get_namespace_mapping (s ∷ parents) prefix =
    if prefix == "xml"
    then some (record { uri = xml_uri; prefix = "xml"; declared = true })
    else if prefix == "xmlns"
    then some (record { uri = xmlns_uri; prefix = "xmlns"; declared = true })
    else elim (get prefix s.namespaces) [
      | some m ↦ some m
      | none ↦ get_namespace_mapping parents prefix
    ]

-- The loop over one scope of `getPrefix`.
unfoldable pub find_uri : String → Dict Mapping → Option String
find_uri ns_uri [] = none
find_uri ns_uri ((p, m) ∷ d) = if m.uri == ns_uri then some p else find_uri ns_uri d

unfoldable pub get_prefix : NamespaceContext → String → Bool → Option String
unfolding find_uri
get_prefix [] ns_uri local_only = none
get_prefix (s ∷ parents) ns_uri local_only =
    if ns_uri == xml_uri
    then some "xml"
    else if ns_uri == xmlns_uri
    then some "xmlns"
    else elim (find_uri ns_uri s.namespaces) [
      | some p ↦ some p
      | none ↦ if local_only then none else get_prefix parents ns_uri false
    ]

-- What `getPrefixMapping` returns: for the two reserved URIs a text, else a mapping.
pub data PrefixMapping : Type 0 where
  reserved : String → PrefixMapping
  mapping : Mapping → PrefixMapping

-- The loop over one scope of `getPrefixMapping`.
unfoldable pub find_declared : String → Dict Mapping → Option Mapping
find_declared ns_uri [] = none
find_declared ns_uri ((p, m) ∷ d) =
    if m.uri == ns_uri && m.declared then some m else find_declared ns_uri d

unfoldable pub get_prefix_mapping : NamespaceContext → String → Bool → Option PrefixMapping
unfolding find_declared
get_prefix_mapping [] ns_uri local_only = none
get_prefix_mapping (s ∷ parents) ns_uri local_only =
    if ns_uri == xml_uri
    then some (reserved "xml")
    else if ns_uri == xmlns_uri
    then some (reserved "xmlns")
    else elim (find_declared ns_uri s.namespaces) [
      | some m ↦ some (mapping m)
      | none ↦ if local_only then none else get_prefix_mapping parents ns_uri false
    ]

-- `'ns' + n`.
abbrev pub ns_prefix : ℕ → String
ns_prefix n = String.◌++◌ "ns" (decimal n)

abbrev pub is_used : NamespaceContext → ℕ → Bool
is_used c n = truthy? (get_namespace_uri c (ns_prefix n) false)

-- The loop of `generatePrefix` behind a count of `k`: the count at which it stops.
find_free : ℕ → NamespaceContext → ℕ → Option ℕ
find_free zero c k = none
find_free (suc f) c k =
    let rest = find_free f c (suc k) in if is_used c (suc k) then rest else some (suc k)

-- The prefixes that some scope binds.
abbrev pub bound_prefixes : NamespaceContext → List String
bound_prefixes [] = []
bound_prefixes (s ∷ parents) = keys s.namespaces ++ bound_prefixes parents

-- The fuel is more than the number of bound prefixes. The argument `base` has no effect.
unfoldable pub generate_prefix :
    NamespaceContext → Option String → Result (NamespaceContext × Option String)
unfolding find_free
generate_prefix [] base = ok ([], none)
generate_prefix (s ∷ parents) base =
    elim (find_free (suc (length (bound_prefixes (s ∷ parents)))) (s ∷ parents) s.prefix_count) [
      | none ↦ diverge
      | some n ↦ ok (record s { prefix_count = n } ∷ parents, some (ns_prefix n))
    ]

-- `this.currentScope.namespaces[prefix] = m`, where there is a current scope.
abbrev pub bind_prefix : NamespaceContext → String → Mapping → NamespaceContext
bind_prefix [] prefix m = []
bind_prefix (s ∷ parents) prefix m = record s { namespaces = put prefix m s.namespaces } ∷ parents

abbrev pub undeclared : String → String → Mapping
undeclared prefix ns_uri = record { uri = ns_uri; prefix = prefix; declared = false }

unfoldable pub add_namespace : NamespaceContext → String → String → Bool → NamespaceContext × Bool
add_namespace [] prefix ns_uri local_only = ([], false)
add_namespace (s ∷ parents) prefix ns_uri local_only =
    if is_text (get_namespace_uri (s ∷ parents) prefix local_only) ns_uri
    then (s ∷ parents, false)
    else (bind_prefix (s ∷ parents) prefix (undeclared prefix ns_uri), true)

abbrev pub push_context : NamespaceContext → NamespaceContext
push_context c = new_scope ∷ c

-- `new NamespaceContext()`.
abbrev pub new_context : NamespaceContext
new_context = push_context []

abbrev pub pop_context : NamespaceContext → NamespaceContext × Option NamespaceScope
pop_context [] = ([], none)
pop_context (s ∷ parents) = (parents, some s)

-- The end of `registerNamespace`; without a current scope it returns null.
bind_new : NamespaceContext → Option String → String → NamespaceContext × Option Mapping
bind_new (s ∷ parents) (some prefix) ns_uri =
    (bind_prefix (s ∷ parents) prefix (undeclared prefix ns_uri), some (undeclared prefix ns_uri))
bind_new c prefix ns_uri = (c, none)

-- `registerNamespace` from `if (this.getNamespaceURI(prefix))` on.
settle : NamespaceContext → Option String → String → Result (NamespaceContext × Option Mapping)
unfolding bind_new
settle c none ns_uri = ok (bind_new c none ns_uri)
settle c (some prefix) ns_uri =
    if truthy? (get_namespace_uri c prefix false)
    then (do (c', fresh) ← generate_prefix c none; ok (bind_new c' fresh ns_uri))
    else ok (bind_new c (some prefix) ns_uri)

-- The branch of `registerNamespace` for a given prefix.
register_prefix : NamespaceContext → String → String → Result (NamespaceContext × Option Mapping)
unfolding settle
register_prefix [] prefix ns_uri = throw type_error
register_prefix (s ∷ parents) prefix ns_uri = elim (get_namespace_mapping (s ∷ parents) prefix) [
  | some m ↦
      if m.uri == ns_uri
      then ok (s ∷ parents, some m)
      else settle (s ∷ parents) (some prefix) ns_uri
  | none ↦ settle (s ∷ parents) (some prefix) ns_uri
]

unfoldable pub register_namespace :
    NamespaceContext → Option String → String → Result (NamespaceContext × Option Mapping)
unfolding register_prefix
register_namespace c none ns_uri = do (c', prefix) ← generate_prefix c none; settle c' prefix ns_uri
register_namespace c (some prefix) ns_uri =
    if prefix == ""
    then (do (c', fresh) ← generate_prefix c none; settle c' fresh ns_uri)
    else register_prefix c prefix ns_uri

-- `declareNamespace` behind a mapping that is not declared. Where the current scope does not bind
-- its prefix, the code reads a property of undefined.
mark_declared : NamespaceContext → Mapping → Result (NamespaceContext × Option Mapping)
mark_declared [] m = throw type_error
mark_declared (s ∷ parents) m = elim (get m.prefix s.namespaces) [
  | some m' ↦
      let m'' : Mapping = record m' { declared = true } in
      ok (bind_prefix (s ∷ parents) m.prefix m'', some m'')
  | none ↦ throw type_error
]

declare_mapping : NamespaceContext → Option Mapping → Result (NamespaceContext × Option Mapping)
unfolding mark_declared
declare_mapping c none = ok (c, none)
declare_mapping c (some m) = if m.declared then ok (c, none) else mark_declared c m

unfoldable pub declare_namespace :
    NamespaceContext → Option String → String → Result (NamespaceContext × Option Mapping)
unfolding declare_mapping
declare_namespace c prefix ns_uri = do
  (c', found) ← register_namespace c prefix ns_uri
  declare_mapping c' found
