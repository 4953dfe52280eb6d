-- ===== src/QName.antt =====
-- src/parser/qname.js: qualified names, `{nsURI}prefix:name`.
-- A text is a list of Unicode characters; the pattern `qnameExp` is read as the matcher that tries
-- its groups from left to right and gives back what a greedy group took too much of.
pub mod Matching
pub mod Printing
mod Tests
use Prim.Native.String
use strong_soap.Common.{
  ℕ, Char, code, String, Bool, true, false, ◌&&◌, ◌||◌, ◌==◌, nat_eq, Option, none, some, List, [],
  ◌∷◌, truthy, truthy?, or_else, if◌then◌else◌,
}
use strong_soap.Common.Result.{Result, ok, throw, error, ◌>>=◌}
use strong_soap.NsContext.{NamespaceContext, get_namespace_uri}

-- `nsURI` may become null and `prefix` undefined.
pub record QName : Type 0 where
  pub ns_uri : Option String
  pub prefix : Option String
  pub name : String

abbrev pub is_colon : Char → Bool
is_colon c = nat_eq (code c) b':'

abbrev pub is_brace : Char → Bool
is_brace c = nat_eq (code c) b'{' || nat_eq (code c) b'}'

unfoldable pub has_brace : String → Bool
has_brace String.[] = false
has_brace (String.◌∷◌ c s) = is_brace c || has_brace s

unfoldable pub has_colon : String → Bool
has_colon String.[] = false
has_colon (String.◌∷◌ c s) = is_colon c || has_colon s

-- `([^\{\}]*)\}` behind an opening brace: the URI, and the text behind the closing brace.
read_uri : String → Option (String × String)
read_uri String.[] = none
read_uri (String.◌∷◌ c s) =
    if nat_eq (code c) b'}'
    then some ("", s)
    else if nat_eq (code c) b'{'
    then none
    else elim (read_uri s) [ none ↦ none | some (u, rest) ↦ some (String.◌∷◌ c u, rest) ]

-- The text before the last colon, and the text behind it.
split_last : String → Option (String × String)
split_last String.[] = none
split_last (String.◌∷◌ c s) = elim (split_last s) [
  | some (p, n) ↦ some (String.◌∷◌ c p, n)
  | none ↦ if is_colon c then some ("", s) else none
]

-- `(?:([^\{\}]+):)?([^\{\}\:]+)$`: the groups of the prefix and of the name.
read_name : String → Option (Option String × String)
unfolding split_last
read_name s = if has_brace s then none else elim (split_last s) [
  | none ↦ if s == "" then none else some (none, s)
  | some (p, n) ↦ if p == "" || n == "" then none else some (some p, n)
]

pub record Groups : Type 0 where
  pub uri : Option String
  pub prefix : Option String
  pub name : String

with_uri : Option String → Option (Option String × String) → Option Groups
with_uri u none = none
with_uri u (some (p, n)) = some (record { uri = u; prefix = p; name = n })

-- `qnameExp.exec(text)`.
unfoldable pub exec : String → Option Groups
unfolding read_uri read_name with_uri
exec String.[] = none
exec (String.◌∷◌ c s) =
    if nat_eq (code c) b'{'
    then elim (read_uri s) [ none ↦ none | some (u, rest) ↦ with_uri (some u) (read_name rest) ]
    else with_uri none (read_name (String.◌∷◌ c s))

-- `new QName(text)`.
unfoldable pub of_text : String → Result QName
of_text text = elim (exec text) [
  | none ↦ throw (error "Invalid qname: %s")
  | some g ↦ ok (record {
    ns_uri = some (or_else g.uri "");
    prefix = some (or_else g.prefix "");
    name = g.name;
  })
]

-- The first two entries of `text.split(':')`: the text before the first colon, and the text
-- between the first two.
first_part : String → String
first_part String.[] = ""
first_part (String.◌∷◌ c s) = if is_colon c then "" else String.◌∷◌ c (first_part s)

unfoldable pub second_part : String → Option String
unfolding first_part
second_part String.[] = none
second_part (String.◌∷◌ c s) = if is_colon c then some (first_part s) else second_part s

-- `new QName(nsURI, name)` and `new QName(nsURI, name, prefix)`.
unfoldable pub of_parts : Option String → String → Option String → QName
unfolding second_part
of_parts ns_uri name prefix =
    if truthy? prefix
    then record { ns_uri = some (or_else ns_uri ""); prefix = prefix; name = name }
    else record {
      ns_uri = some (or_else ns_uri "");
      prefix = second_part name;
      name = first_part name;
    }

braced : Option String → String
braced none = ""
braced (some u) = if u == "" then "" else String.◌++◌ "{" (String.◌++◌ u "}")

coloned : Option String → String
coloned none = ""
coloned (some p) = if p == "" then "" else String.◌++◌ p ":"

unfoldable pub to_string : QName → String
unfolding braced coloned
to_string q = String.◌++◌ (String.◌++◌ (braced q.ns_uri) (coloned q.prefix)) q.name

-- The second argument of `QName.parse`: null, a URI, an object with `getNamespaceURI`, or any other.
pub data Resolver : Type 0 where
  null : Resolver
  uri : String → Resolver
  context : NamespaceContext → Resolver
  other : Resolver

resolve : Resolver → QName → Option String
resolve null q = some ""
resolve (uri u) q = some u
resolve (context c) q = get_namespace_uri c (or_else q.prefix "") false
resolve other q = some ""

-- `QName.parse(qname, nsURI)`; a missing text is the empty one.
unfoldable pub parse : Option String → Resolver → Result QName
unfolding of_text resolve
parse text ns_uri = do
  result ← of_text (or_else text "")
  let found = resolve ns_uri result
  ok (if truthy? found then record result { ns_uri = found } else result)
