-- ===== src/Schemas.antt =====
-- Schemas and the references to what they define: src/parser/xsd/schema.js, `addChild` of
-- src/parser/wsdl/types.js, the includes that src/parser/wsdl.js collects, and `resolveSchemaObject` of
-- src/parser/element.js. `V` stands for references to the elements of schemas, and of lodash's
-- `merge` and `uniq` only what they do with dictionaries of such references is known.
pub mod Resolving
mod Tests
use strong_soap.Common.{
  String, Bool, true, false, ◌&&◌, ◌||◌, ◌==◌, ◌≡◌, Option, none, some, List, [], ◌∷◌, ◌++◌,
  if◌then◌else◌, truthy, truthy?, or_else, is_text, contains,
}
use strong_soap.Common.Dict.{Dict, get, put, keys}
use strong_soap.Common.Result.{Result, ok, ◌>>=◌}
use strong_soap.QName.{QName, parse, null}
use strong_soap.Descriptor.Adding.{first}
use strong_soap.Loading.{Include}
use strong_soap.WsdlReader.Registry.{xsd_uri}
use strong_soap.SimpleTypes.BuiltIn.{schema_types}

-- `_.merge(a, b)` on dictionaries whose values are no plain objects: those of `b` are assigned.
pub record Merging (V : Type 0) : Type 0 where
  pub merge : Dict V → Dict V → Dict V
  pub merge_xmlns : Dict String → Dict String → Dict String
  pub uniq : List Include → List Include
  pub get-merge : (k : String) (a b : Dict V) → get k (merge a b) ≡ first (get k b) (get k a)

-- The tables of a schema.
pub data Table : Type 0 where
  complex_types simple_types elements groups attributes attribute_groups : Table

-- The argument `elementType` of `resolveSchemaObject`.
pub data ObjectType : Type 0 where
  a_type : ObjectType
  an_object : Table → ObjectType

pub record Schema (V : Type 0) : Type 0 where
  pub target_namespace : Option String
  pub tables : Table → Dict V
  pub xmlns : Dict String
  pub includes : List Include

-- `a === b` on namespaces that may be undefined.
abbrev pub same_namespace : Option String → Option String → Bool
same_namespace none none = true
same_namespace none (some u) = false
same_namespace (some u) v = is_text v u

abbrev pub is_undefined : Option String → Bool
is_undefined none = true
is_undefined (some u) = false

-- A property that may be undefined, used as a key.
abbrev pub key_of : Option String → String
key_of none = "undefined"
key_of (some u) = u

-- A child of a schema: its name and the attributes that `addChild` reads.
pub record Child (V : Type 0) : Type 0 where
  pub element_name : String
  pub name : Option String
  pub inherited_namespace : Option String
  pub namespace : Option String
  pub target_namespace : Option String
  pub schema_location : Option String
  pub location : Option String
  pub reference : V

abbrev pub or_option : Option String → Option String → Option String
or_option a b = if truthy? a then a else b

abbrev pub table_named : String → Option Table
table_named n =
    if n == "complexType"
    then some complex_types
    else if n == "simpleType"
    then some simple_types
    else if n == "element"
    then some elements
    else if n == "group"
    then some groups
    else if n == "attribute"
    then some attributes
    else if n == "attributeGroup"
    then some attribute_groups
    else none

abbrev pub can_be_builtin : ObjectType → Bool
can_be_builtin a_type = true
can_be_builtin (an_object simple_types) = true
can_be_builtin t = false

module _ {V : Type 0} where
  -- `new Schema(...)`, with the namespace and the declarations of its attributes.
  abbrev pub new_schema : Option String → Dict String → Schema V
  new_schema ns xmlns = record {
    target_namespace = ns;
    tables = λ t. [];
    xmlns = xmlns;
    includes = [];
  }

  -- The test of `merge`.
  unfoldable pub can_merge : Schema V → Schema V → Bool → Bool
  can_merge s source is_include =
      same_namespace s.target_namespace source.target_namespace
      || (is_include && is_undefined source.target_namespace)

  -- `merge`; a schema that is merged into itself has the same tables afterwards.
  unfoldable pub merge_schema : Merging V → Schema V → Schema V → Bool → Schema V
  unfolding can_merge
  merge_schema m s source is_include =
      if can_merge s source is_include
      then record {
        target_namespace = s.target_namespace;
        tables = λ t. m.merge (s.tables t) (source.tables t);
        xmlns = m.merge_xmlns s.xmlns source.xmlns;
        includes = m.uniq (s.includes ++ source.includes);
      }
      else s

  -- `addChild` of `types`: what a key has afterwards.
  unfoldable pub combined : Merging V → Option (Schema V) → Schema V → Schema V
  unfolding merge_schema
  combined m none s = s
  combined m (some old) s = merge_schema m old s true

  unfoldable pub add_schema : Merging V → Dict (Schema V) → Schema V → Dict (Schema V)
  unfolding combined
  add_schema m schemas s =
      let key = key_of s.target_namespace in put key (combined m (get key schemas) s) schemas

  -- The includes of all schemas, in `processIncludes`.
  unfoldable pub all_includes : Dict (Schema V) → List Include
  all_includes [] = []
  all_includes ((ns, s) ∷ schemas) = s.includes ++ all_includes schemas

  abbrev pub set_table : Table → String → V → (Table → Dict V) → Table → Dict V
  set_table complex_types n v ts complex_types = put n v (ts complex_types)
  set_table simple_types n v ts simple_types = put n v (ts simple_types)
  set_table elements n v ts elements = put n v (ts elements)
  set_table groups n v ts groups = put n v (ts groups)
  set_table attributes n v ts attributes = put n v (ts attributes)
  set_table attribute_groups n v ts attribute_groups = put n v (ts attribute_groups)
  set_table t n v ts u = ts u

  unfoldable pub add_include : Schema V → Child V → Schema V
  add_include s c = elim (or_option c.schema_location c.location) [
    | none ↦ s
    | some l ↦
        if truthy l
        then record s {
          includes =
              s.includes
              ++ (record {
                namespace = or_option c.namespace (or_option c.target_namespace s.target_namespace);
                location = l;
                is_include = c.element_name == "include";
              }
                  ∷ []);
        }
        else s
  ]

  -- `addChild` of a schema.
  unfoldable pub add_child : Schema V → Child V → Schema V
  unfolding add_include
  add_child s c =
      if is_text c.inherited_namespace xsd_uri && contains (key_of c.name) (keys schema_types)
      then s
      else if (c.element_name == "include") || (c.element_name == "import")
      then add_include s c
      else elim (table_named c.element_name) [
        | none ↦ s
        | some t ↦ record s { tables = set_table t (key_of c.name) c.reference s.tables }
      ]

  -- The switch of `resolveSchemaObject`.
  unfoldable pub find_object : ObjectType → String → Schema V → Option V
  find_object a_type n s = first (get n (s.tables complex_types)) (get n (s.tables simple_types))
  find_object (an_object t) n s = get n (s.tables t)

  abbrev pub find_there : ObjectType → String → Option (Schema V) → Option V
  find_there t n none = none
  find_there t n (some s) = find_object t n s

  unfoldable pub find_in : Dict (Schema V) → Option String → ObjectType → String → Option V
  unfolding find_object
  find_in schemas none t n = none
  find_in schemas (some u) t n = find_there t n (get u schemas)

  -- `resolveSchemaObject` for a name that is parsed, with the URI of its namespace.
  unfoldable pub resolve_in :
      (builtin : String → Option V)
      → Dict (Schema V)
      → ObjectType
      → (uri : Option String) → QName
      → Option V
  unfolding find_in
  resolve_in builtin schemas t uri q =
      if is_text q.prefix "xml"
      then none
      else if is_text uri xsd_uri && can_be_builtin t
      then builtin q.name
      else find_in schemas uri t q.name

  -- `resolveSchemaObject` of an element that resolves prefixes and has a target namespace.
  unfoldable pub resolve_schema_object :
      (String → Option String)
      → Option String
      → (builtin : String → Option V) → Dict (Schema V)
      → ObjectType
      → String
      → Result (Option V)
  unfolding resolve_in
  resolve_schema_object namespaces target builtin schemas t ns_name = do
    q ← parse (some ns_name) null
    let uri = if truthy? q.prefix then namespaces (or_else q.prefix "") else target
    ok (resolve_in builtin schemas t uri q)
