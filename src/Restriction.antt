-- ===== src/Restriction.antt =====
-- src/parser/xsd/restriction.js: the facets of a restriction and their enforcement on a value.
-- What JavaScript makes of numbers is a parameter: their comparison with a facet's text, `toFixed` and
-- `String`; regular expressions too. The messages of violations are left out.
pub mod Enforcing
pub mod Texts
mod Tests
use Prim.Native.String
use strong_soap.Common.{
  ℕ, suc, ◌+◌, ◌-◌, ◌/◌, ◌%◌, Char, code, nat_eq, ltb, String, Bool, true, false, not, ◌&&◌, ◌||◌,
  ◌==◌, Option, none, some, List, [], ◌∷◌, ◌++◌, if◌then◌else◌, contains,
}
use strong_soap.Common.Result.{Result, ok, throw, diverge, error, type_error, ◌>>=◌}
use strong_soap.Descriptor.{JsType, js_string, js_boolean, js_number, js_date}
use strong_soap.XmlReader.Values.{
  Json, undefined, null_value, text, number, date, boolean, sum, array, object, Items, no_item,
  item, trim,
}

pub record Facets : Type 0 where
  pub min_exclusive : Option String
  pub min_inclusive : Option String
  pub max_exclusive : Option String
  pub max_inclusive : Option String
  pub total_digits : Option String
  pub fraction_digits : Option String
  pub exact_length : Option String
  pub min_length : Option String
  pub max_length : Option String
  pub white_space : Option String
  pub pattern : Option String
  pub enumeration : List String

abbrev pub no_facets : Facets
no_facets = record {
  min_exclusive = none;
  min_inclusive = none;
  max_exclusive = none;
  max_inclusive = none;
  total_digits = none;
  fraction_digits = none;
  exact_length = none;
  min_length = none;
  max_length = none;
  white_space = none;
  pattern = none;
  enumeration = [];
}

-- `addChild` of a child with this name and value.
unfoldable pub add_child : Facets → String → String → Facets
add_child f name v =
    if name == "minExclusive"
    then record f { min_exclusive = some v }
    else if name == "minInclusive"
    then record f { min_inclusive = some v }
    else if name == "maxExclusive"
    then record f { max_exclusive = some v }
    else if name == "maxInclusive"
    then record f { max_inclusive = some v }
    else if name == "totalDigits"
    then record f { total_digits = some v }
    else if name == "fractionDigits"
    then record f { fraction_digits = some v }
    else if name == "length"
    then record f { exact_length = some v }
    else if name == "minLength"
    then record f { min_length = some v }
    else if name == "maxLength"
    then record f { max_length = some v }
    else if name == "whiteSpace"
    then record f { white_space = some v }
    else if name == "pattern"
    then record f { pattern = some v }
    else if name == "enumeration"
    then record f { enumeration = f.enumeration ++ v ∷ [] }
    else f

-- `v < t`, `v <= t`, `v >= t` and `v > t` for a value that is no text, `n > t`, `n < t` and `n === parseInt(t)` for a
-- count, `isNaN(v)`, `String(v)`, `v.toFixed(t)`, the digits of `parseInt(v)`,
-- `v.toFixed(t - n)` and `new RegExp(t).test(v)`.
pub record Conversions : Type 0 where
  pub below : Json → String → Bool
  pub at_most : Json → String → Bool
  pub at_least : Json → String → Bool
  pub above : Json → String → Bool
  pub count_above : ℕ → String → Bool
  pub count_below : ℕ → String → Bool
  pub count_is : ℕ → String → Bool
  pub is_nan : Json → Bool
  pub to_text : Json → String
  pub to_fixed : String → String → String
  pub integer_digits : String → ℕ
  pub to_fixed_rest : String → String → ℕ → String
  pub matches : String → Json → Bool

-- The UTF-16 units of a text: two for a character beyond U+FFFF.
unfoldable pub units : String → List ℕ
units String.[] = []
units (String.◌∷◌ c s) =
    let rest = units s in
    let above = code c - 65536 in
    if ltb (code c) 65536
    then code c ∷ rest
    else (55296 + above / 1024) ∷ (56320 + above % 1024) ∷ rest

abbrev pub units_below : List ℕ → List ℕ → Bool
units_below l [] = false
units_below [] (d ∷ m) = true
units_below (c ∷ l) (d ∷ m) = ltb c d || (nat_eq c d && units_below l m)

-- Texts are compared by their units.
unfoldable pub text_below : String → String → Bool
unfolding units
text_below s t = units_below (units s) (units t)

abbrev pub is_below : Conversions → Json → String → Bool
is_below k (text s) t = text_below s t
is_below k v t = k.below v t

abbrev pub is_at_most : Conversions → Json → String → Bool
is_at_most k (text s) t = not (text_below t s)
is_at_most k v t = k.at_most v t

abbrev pub is_at_least : Conversions → Json → String → Bool
is_at_least k (text s) t = not (text_below s t)
is_at_least k v t = k.at_least v t

abbrev pub is_above : Conversions → Json → String → Bool
is_above k (text s) t = text_below t s
is_above k v t = k.above v t

-- `val` and the number of violations so far.
pub record Checking : Type 0 where
  pub value : Json
  pub violations : ℕ

abbrev pub violated : Bool → Checking → Checking
violated b c = record c { violations = if b then suc c.violations else c.violations }

-- A test that a facet asks for, where it is there.
abbrev pub when_there : Option String → (String → Bool) → Checking → Result Checking
when_there none test c = ok c
when_there (some t) test c = ok (violated (test t) c)

abbrev pub is_true_value : Json → Bool
is_true_value (boolean b) = b
is_true_value (text t) = t == "true"
is_true_value v = false

unfoldable pub check_base : Conversions → Option JsType → Json → Result Checking
check_base k none v = ok (record { value = v; violations = 0 })
check_base k (some js_boolean) v = ok (record { value = boolean (is_true_value v); violations = 0 })
check_base k (some js_number) v = ok (violated (k.is_nan v) (record { value = v; violations = 0 }))
check_base k (some js_date) v = ok (record { value = v; violations = 0 })
check_base k (some js_string) v = ok (record { value = text (k.to_text v); violations = 0 })

abbrev pub count : List ℕ → ℕ
count [] = 0
count (c ∷ l) = suc (count l)

-- The units of a text, those behind its last dot, and those but the first '-' and '.'.
unfoldable pub text_length : String → ℕ
unfolding units
text_length s = count (units s)

unfoldable pub has_char : ℕ → String → Bool
has_char n String.[] = false
has_char n (String.◌∷◌ c s) = nat_eq (code c) n || has_char n s

-- `_getFractionDigitCount`
unfoldable pub fraction_digit_count : String → ℕ
unfolding text_length has_char
fraction_digit_count String.[] = 0
fraction_digit_count (String.◌∷◌ c s) =
    let rest = fraction_digit_count s in
    if has_char b'.' s then rest else if nat_eq (code c) b'.' then text_length s else 0

unfoldable pub without_char : ℕ → String → String
without_char n String.[] = ""
without_char n (String.◌∷◌ c s) = if nat_eq (code c) n then s else String.◌∷◌ c (without_char n s)

-- `_getTotalDigitCount`
unfoldable pub total_digit_count : String → ℕ
unfolding text_length without_char
total_digit_count s = text_length (trim (without_char b'.' (without_char b'-' s)))

unfoldable pub check_fraction : Conversions → Option String → Checking → Result Checking
unfolding fraction_digit_count
check_fraction k none c = ok c
check_fraction k (some t) c = elim c.value [
  | text s ↦ ok (violated (k.count_above (fraction_digit_count s) t) c)
  | number s ↦ ok (record c { value = text (k.to_fixed s t) })
  | v ↦ ok c
]

abbrev pub fixed_total : Conversions → String → String → Checking → Checking
fixed_total k s t c =
    if k.count_above (k.integer_digits s) t
    then violated true c
    else record c { value = text (k.to_fixed_rest s t (k.integer_digits s)) }

unfoldable pub check_total : Conversions → Option String → Checking → Result Checking
unfolding total_digit_count
check_total k none c = ok c
check_total k (some t) c = elim c.value [
  | text s ↦ ok (violated (k.count_above (total_digit_count s) t) c)
  | number s ↦ ok (fixed_total k s t c)
  | v ↦ ok c
]

abbrev pub count_items : Items → ℕ
count_items no_item = 0
count_items (item v xs) = suc (count_items xs)

-- `val.length`, `none` for undefined.
unfoldable pub length_of : Json → Result (Option ℕ)
unfolding text_length
length_of undefined = throw type_error
length_of null_value = throw type_error
length_of (text s) = ok (some (text_length s))
length_of (array xs) = ok (some (count_items xs))
length_of v = ok none

abbrev pub unknown_or : Bool → (ℕ → Bool) → Option ℕ → Bool
unknown_or b test none = b
unknown_or b test (some n) = test n

unfoldable pub check_length :
    Option String → Bool → (ℕ → String → Bool) → Checking → Result Checking
unfolding length_of
check_length none b test c = ok c
check_length (some t) b test c =
    length_of c.value >>= λ n. ok (violated (unknown_or b (λ m. test m t) n) c)

-- `replace(/[\n\r\t]/mg, ' ')`
unfoldable pub replaced : String → String
replaced String.[] = ""
replaced (String.◌∷◌ c s) =
    String.◌∷◌ (if nat_eq (code c) 9 || nat_eq (code c) 10 || nat_eq (code c) 13 then " " else c)
      (replaced s)

abbrev pub starts_with_space : String → Bool
starts_with_space String.[] = false
starts_with_space (String.◌∷◌ c s) = nat_eq (code c) 32

-- `replace(/[ ]+/mg, ' ')`
unfoldable pub squeezed : String → String
squeezed String.[] = ""
squeezed (String.◌∷◌ c s) =
    let rest = squeezed s in
    if nat_eq (code c) 32 && starts_with_space s then rest else String.◌∷◌ c rest

abbrev pub spaced : String → Json → Result Json
spaced w (text s) = ok (text (if w == "replace" then replaced s else trim (squeezed (replaced s))))
spaced w v = throw type_error

unfoldable pub check_space : Option String → Checking → Result Checking
unfolding replaced squeezed
check_space none c = ok c
check_space (some w) c =
    if (w == "replace") || (w == "collapse")
    then (spaced w c.value >>= λ v. ok (record c { value = v }))
    else ok c

abbrev pub is_listed : List String → Json → Bool
is_listed l (text s) = contains s l
is_listed l v = false

abbrev pub check_enumeration : List String → Checking → Result Checking
check_enumeration [] c = ok c
check_enumeration (s ∷ l) c = ok (violated (not (is_listed (s ∷ l) c.value)) c)

abbrev pub check_pattern : Conversions → Option String → Checking → Result Checking
check_pattern k none c = ok c
check_pattern k (some t) c = if t == "" then ok c else ok (violated (not (k.matches t c.value)) c)

abbrev pub settle : Checking → Result Json
settle c =
    if nat_eq c.violations 0
    then ok c.value
    else throw (error "The field %s cannot have value %s due to the violations: %s")

-- `enforce`
unfoldable pub enforce : Conversions → Option JsType → Facets → Json → Result Json
unfolding check_base check_fraction check_total check_length check_space
enforce k base f v = do
  c0 ← check_base k base v
  c1 ← when_there f.min_exclusive (is_at_most k c0.value) c0
  c2 ← when_there f.min_inclusive (is_below k c1.value) c1
  c3 ← when_there f.max_exclusive (is_at_least k c2.value) c2
  c4 ← when_there f.max_inclusive (is_above k c3.value) c3
  c5 ← check_fraction k f.fraction_digits c4
  c6 ← check_total k f.total_digits c5
  c7 ← check_length f.exact_length true (λ n t. not (k.count_is n t)) c6
  c8 ← check_length f.max_length false k.count_above c7
  c9 ← check_length f.min_length false k.count_below c8
  c10 ← check_space f.white_space c9
  c11 ← check_pattern k f.pattern c10
  c12 ← check_enumeration f.enumeration c11
  settle c12
