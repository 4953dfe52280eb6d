-- ===== src/SimpleTypes.antt =====
-- src/parser/xsd: `postProcess` of simpleType.js, list.js, union.js and, for a simple type, of
-- restriction.js.
-- Simple types are numbered. The store has, at each number, a type with what its references resolved to,
-- and the value of its field `type`. A call for a type that is being processed already ends at once, as
-- its field is set first; so the fuel counts the types that have no value yet.
pub mod BuiltIn
mod Growing
mod Known
mod Ending
mod Returning
mod Tests
use strong_soap.Common.{
  ℕ, zero, suc, String, Bool, ◌==◌, Option, none, some, List, [], ◌∷◌, ◌++◌, map, if◌then◌else◌,
  is_text, get_elem?,
}
use strong_soap.Common.Dict.{Dict, get}
use strong_soap.Common.Result.{Result, ok, throw, diverge, type_error, ◌>>=◌}
use strong_soap.Descriptor.{JsType, js_string, js_boolean, js_number, js_date}
use strong_soap.WsdlReader.Registry.{xsd_uri}
use strong_soap.SimpleTypes.BuiltIn.{schema_types}

-- The field `type`: a function of JavaScript, another simple type, an array of one value, or the array of
-- a union's values. `unset` is undefined.
mutual
  pub data TypeValue : Type 0 where
    unset : TypeValue
    js : JsType → TypeValue
    simple : ℕ → TypeValue
    list_of : TypeValue → TypeValue
    union_of : TypeValues → TypeValue

  pub data TypeValues : Type 0 where
    nil : TypeValues
    cons : TypeValue → TypeValues → TypeValues

-- A list's attribute itemType, resolved, and the simple types among its children.
pub record ListNode : Type 0 where
  pub item_type : Option ℕ
  pub inner : List ℕ

-- A union's memberTypes, each resolved, and the simple types among its children.
pub record UnionNode : Type 0 where
  pub members : List (Option ℕ)
  pub inner : List ℕ

-- A simple type with its children restriction, by what its base resolved to, list and union.
pub record SimpleNode : Type 0 where
  pub name : Option String
  pub target_namespace : Option String
  pub restriction : Option (Option ℕ)
  pub list : Option ListNode
  pub union : Option UnionNode

pub record Entry : Type 0 where
  pub node : SimpleNode
  pub type : Option TypeValue

abbrev pub Store : Type 0
Store = List Entry

-- `this.type = t`
unfoldable pub set_type : ℕ → TypeValue → Store → Store
set_type i t [] = []
set_type zero t (e ∷ s) = record e { type = some t } ∷ s
set_type (suc i) t (e ∷ s) = e ∷ set_type i t s

abbrev pub value_in : Option Entry → TypeValue
value_in none = unset
value_in (some e) = elim e.type [ none ↦ unset | some t ↦ t ]

abbrev pub type_at : ℕ → Store → TypeValue
type_at i s = value_in (get_elem? s i)

-- The last simple type inside a list takes the place of its itemType.
unfoldable pub item_of : Option ℕ → List ℕ → Option ℕ
item_of item [] = item
item_of item (i ∷ inner) = item_of (some i) inner

-- `type.postProcess` for each of the union's types, with their values.
unfoldable pub member_types :
    (ℕ → Store → Result Store) → List (Option ℕ) → Store → Result (Store × TypeValues)
member_types process [] s = ok (s, nil)
member_types process (none ∷ ms) s = throw type_error
member_types process (some i ∷ ms) s = do
  s' ← process i s
  (s2, ts) ← member_types process ms s'
  ok (s2, cons (type_at i s') ts)

-- What follows the default, by the first of the children that is there.
unfoldable pub by_content :
    (ℕ → Store → Result Store)
    → ℕ
    → Option (Option ℕ)
    → Option ListNode
    → Option UnionNode
    → Store
    → Result Store
unfolding item_of member_types set_type
by_content process i (some none) l u s = ok s
by_content process i (some (some base)) l u s = do
  s' ← process base s
  ok (set_type i (simple base) s')
by_content process i none (some l) u s = elim (item_of l.item_type l.inner) [
  | none ↦ ok s
  | some item ↦ do s' ← process item s; ok (set_type i (list_of (type_at item s')) s')
]
by_content process i none none (some u) s = do
  (s', ts) ← member_types process (u.members ++ map some u.inner) s
  ok (set_type i (union_of ts) s')
by_content process i none none none s = ok s

abbrev pub js_type_of : Option String → Option JsType
js_type_of none = none
js_type_of (some n) = get n schema_types

-- A type without a value: the built-in types have the table's, and the others begin with String.
unfoldable pub resolve_type : (ℕ → Store → Result Store) → ℕ → SimpleNode → Store → Result Store
unfolding by_content set_type
resolve_type process i n s =
    if is_text n.target_namespace xsd_uri
    then (elim (js_type_of n.name) [ none ↦ throw type_error | some t ↦ ok (set_type i (js t) s) ])
    else by_content process i n.restriction n.list n.union (set_type i (js js_string) s)

unfoldable pub post_process : ℕ → ℕ → Store → Result Store
unfolding resolve_type
post_process zero i s = diverge
post_process (suc fuel) i s = elim (get_elem? s i) [
  | none ↦ throw type_error
  | some e ↦ elim e.type [ none ↦ resolve_type (post_process fuel) i e.node s | some t ↦ ok s ]
]
