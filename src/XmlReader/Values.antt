-- ===== src/XmlReader/Values.antt =====
-- The values that src/parser/xmlHandler.js builds, and its `parseValue`.
use Prim.Native.String
use strong_soap.Common.{
  ℕ, ◌-◌, Char, code, String, Bool, ◌&&◌, ◌||◌, ◌==◌, nat_eq, ltb, Option, none, some,
  if◌then◌else◌,
}
use strong_soap.Descriptor.{
  Item, an_element, info, JsType, js_string, js_boolean, js_number, js_date,
}

-- `number t` is `Number(t)`, `date t` is `new Date(t)` and `sum a b` is what JavaScript's `+` makes of
-- two values that are not both texts.
mutual
  pub data Json : Type 0 where
    undefined null_value : Json
    text number date : String → Json
    boolean : Bool → Json
    sum : Json → Json → Json
    array : Items → Json
    object : Fields → Json

  pub data Items : Type 0 where
    no_item : Items
    item : Json → Items → Items

  pub data Fields : Type 0 where
    no_field : Fields
    field : String → Json → Fields → Fields

-- `d[k]`, `none` where the object has no such key.
abbrev pub get_field : String → Fields → Option Json
get_field k no_field = none
get_field k (field j v d) = if j == k then some v else get_field k d

abbrev pub put_field : String → Json → Fields → Fields
put_field k v no_field = field k v no_field
put_field k v (field j w d) = if j == k then field j v d else field j w (put_field k v d)

-- `push` on an array.
abbrev pub push_item : Items → Json → Items
push_item no_item v = item v no_item
push_item (item w xs) v = item w (push_item xs v)

-- `a + b`
unfoldable pub plus : Json → Json → Json
plus (text s) (text t) = text (String.◌++◌ s t)
plus a b = sum a b

-- The characters that `trim` takes away: white space and line terminators.
abbrev pub is_space : Char → Bool
is_space c =
    let n = code c in
    (ltb 8 n && ltb n 14)
    || nat_eq n 32
    || nat_eq n 160
    || nat_eq n 5760
    || (ltb 8191 n && ltb n 8203)
    || nat_eq n 8232
    || nat_eq n 8233
    || nat_eq n 8239
    || nat_eq n 8287
    || nat_eq n 12288
    || nat_eq n 65279

unfoldable pub trim_start : String → String
trim_start String.[] = ""
trim_start (String.◌∷◌ c s) = if is_space c then trim_start s else String.◌∷◌ c s

unfoldable pub trim_end : String → String
trim_end String.[] = ""
trim_end (String.◌∷◌ c s) =
    let rest = trim_end s in if rest == "" && is_space c then "" else String.◌∷◌ c rest

unfoldable pub trim : String → String
unfolding trim_start trim_end
trim s = trim_end (trim_start s)

-- What follows a text at the start of another, where the other starts with it.
unfoldable pub after : String → String → Option String
after String.[] s = some s
after (String.◌∷◌ c p) String.[] = none
after (String.◌∷◌ c p) (String.◌∷◌ d s) = if nat_eq (code c) (code d) then after p s else none

unfoldable pub take : ℕ → String → String
take n String.[] = ""
take n (String.◌∷◌ c s) = if nat_eq n 0 then "" else String.◌∷◌ c (take (n - 1) s)

abbrev pub js_type_of : Item → Option JsType
js_type_of (an_element e) = (info e).js_type
js_type_of _ = none

-- The value of a text by the descriptor's type. A date of sixteen characters has a time zone, which
-- is dropped.
unfoldable pub typed_value : Option JsType → String → Json
unfolding take
typed_value none t = text t
typed_value (some js_string) t = text t
typed_value (some js_boolean) t = boolean (t == "true" || t == "1")
typed_value (some js_number) t = number t
typed_value (some js_date) t = date (if nat_eq (String.count t) 16 then take 10 t else t)

-- `parseValue` of a text.
unfoldable pub parse_value : String → Item → Json
unfolding typed_value
parse_value t d = typed_value (js_type_of d) t
