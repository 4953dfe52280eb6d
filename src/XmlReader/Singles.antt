-- ===== src/XmlReader/Singles.antt =====
-- Which values `xmlToJson` of src/parser/xmlHandler.js gives to elements.
use mathlib.Core.Path.{subst}
use strong_soap.Common.{
  String, Bool, true, false, ◌≡◌, refl, ◌==◌, ◌&&◌, Option, none, some, [], ◌∷◌, if◌then◌else◌,
  is_text, or_else,
}
use strong_soap.Common.Dict.{Dict}
use strong_soap.Common.Result.{Result, ok, throw, diverge, ◌>>=◌}
use strong_soap.QName.{parse, null}
use strong_soap.NsContext.{NamespaceContext, get_namespace_uri}
use strong_soap.Descriptor.{Item, JsType, js_string, js_boolean, js_number, js_date}
use strong_soap.XmlReader.Values.{
  Json, undefined, null_value, array, object, Fields, parse_value, plus, trim, typed_value,
  js_type_of,
}
use strong_soap.XmlReader.{
  Options, Frame, Opened, new_frame, entered, is_many_item, read_attribute, read_attributes,
  declared_prefix, xsi_type, xsi_uri, with_attribute, place, process_text, text_value,
}
use strong_soap.XmlReader.Tree.{Content, nothing, chars, element, read}
use strong_soap.XmlReader.Placing.{values_of}

-- A value that stands for one element value: any but an array.
abbrev pub IsSingle : Json → Type 0
IsSingle v = values_of v ≡ v ∷ []

-- What a call returns, where it returns a value.
module _ {ℓ κ} {A : Type ℓ} where
  abbrev Returns : (A → Type κ) → Result A → Type κ
  Returns P (ok a) = P a
  Returns P (throw e) = Unit
  Returns P diverge = Unit

  option-Returns {μ} :
      {B : Type μ} (P : A → Type κ) (o : Option B) (r : Result A) (s : B → Result A)
      → Returns P r
      → ((b : B) → Returns P (s b))
      → Returns P (elim o [ none ↦ r | some b ↦ s b ])
  option-Returns P none r s h k = h
  option-Returns P (some b) r s h k = k b

  if-Returns :
      (P : A → Type κ) (b : Bool) (r s : Result A)
      → Returns P r
      → Returns P s
      → Returns P (if b then r else s)
  if-Returns P true r s h k = h
  if-Returns P false r s h k = k

module _ {ℓ κ μ ν} {A : Type ℓ} {B : Type κ} where
  chain-Returns :
      (P : A → Type μ) (Q : B → Type ν) (m : Result A) (f : A → Result B)
      → Returns P m
      → ((a : A) → P a → Returns Q (f a))
      → Returns Q (m >>= f)
  chain-Returns P Q (ok a) f h k = k a h
  chain-Returns P Q (throw e) f h k = tt
  chain-Returns P Q diverge f h k = tt

module _ {ℓ κ ν} {A : Type ℓ} {B : Type κ} where
  next-Returns :
      (Q : B → Type ν) (m : Result A) (f : A → Result B)
      → ((a : A) → Returns Q (f a))
      → Returns Q (m >>= f)
  next-Returns Q (ok a) f k = k a
  next-Returns Q (throw e) f k = tt
  next-Returns Q diverge f k = tt

abbrev HasSingle : Opened → Type 0
HasSingle o = IsSingle o.value

nil-HasSingle :
    (b : Bool) (o : Opened)
    → HasSingle o
    → HasSingle (if b then record o { value = null_value } else o)
nil-HasSingle true o h = refl
nil-HasSingle false o h = h

read_attribute-HasSingle :
    (options : Options) (c : NamespaceContext) (a v : String) (o : Opened)
    → HasSingle o
    → Returns HasSingle (read_attribute options c a v o)
unfolding read_attribute
read_attribute-HasSingle options c a v o h =
    option-Returns HasSingle (declared_prefix a) _ _
      (next-Returns HasSingle (parse (some a) null) _ (λ q.
        let is_xsi = is_text (get_namespace_uri c (or_else q.prefix "") false) xsi_uri in
        let typed = λ (t : Json). ok (with_attribute o options.xsi_type_key t) in
        let plain = ok (with_attribute o q.name (Json.text v)) in
        let is_type = is_xsi && q.name == "type" in
        if-Returns HasSingle (is_xsi && q.name == "nil")
          (ok (if v == "true" then record o { value = null_value } else o))
          (if is_type then xsi_type c v >>= typed else plain) (nil-HasSingle (v == "true") o h)
          (if-Returns HasSingle is_type (xsi_type c v >>= typed) plain
            (next-Returns HasSingle (xsi_type c v) typed (λ t. h)) h)))
      (λ p. h)

read_attributes-HasSingle :
    (options : Options) (c : NamespaceContext) (attrs : Dict String) (o : Opened)
    → HasSingle o
    → Returns HasSingle (read_attributes options c attrs o)
unfolding read_attributes
read_attributes-HasSingle options c [] o h = h
read_attributes-HasSingle options c ((a, v) ∷ attrs) o h =
    chain-Returns HasSingle HasSingle (read_attribute options c a v o) _
      (read_attribute-HasSingle options c a v o h)
      (λ o'. read_attributes-HasSingle options c attrs o')

opened-IsSingle :
    (key : String) (d : Option Fields) (v : Json)
    → IsSingle v
    → IsSingle (elim d [ none ↦ v | some f ↦ object (Fields.field key (object f) Fields.no_field) ])
opened-IsSingle key none v h = h
opened-IsSingle key (some f) v h = refl

new_frame-IsSingle :
    (options : Options) (c : NamespaceContext) (d : Item) (name : String) (attrs : Dict String)
    → Returns (λ f. IsSingle f.value) (new_frame options c d name attrs)
unfolding new_frame
new_frame-IsSingle options c d name attrs =
    chain-Returns HasSingle (λ (f : Frame). IsSingle f.value) (read_attributes options c attrs _) _
      (read_attributes-HasSingle options c attrs _ refl)
      (λ o h.
        next-Returns (λ (f : Frame). IsSingle f.value) (parse (some name) null) _
          (λ q. opened-IsSingle options.attributes_key o.attributes o.value h))

place-IsSingle :
    (m : Bool) (n : String) (v p : Json) → IsSingle p → Returns IsSingle (place m n v p)
unfolding place
place-IsSingle m n v undefined h = refl
place-IsSingle m n v null_value h = refl
place-IsSingle m n v (object d) h = refl
place-IsSingle m n v (array xs) h = h
place-IsSingle m n v (Json.date t) h = refl
place-IsSingle m n v (Json.text t) h = tt
place-IsSingle m n v (Json.number t) h = tt
place-IsSingle m n v (Json.boolean t) h = tt
place-IsSingle m n v (Json.sum a b) h = tt

plus-IsSingle : (a b : Json) → IsSingle (plus a b)
unfolding plus
plus-IsSingle undefined b = refl
plus-IsSingle null_value b = refl
plus-IsSingle (Json.number x) b = refl
plus-IsSingle (Json.date x) b = refl
plus-IsSingle (Json.boolean x) b = refl
plus-IsSingle (Json.sum x y) b = refl
plus-IsSingle (array x) b = refl
plus-IsSingle (object x) b = refl
plus-IsSingle (Json.text s) undefined = refl
plus-IsSingle (Json.text s) null_value = refl
plus-IsSingle (Json.text s) (Json.text x) = refl
plus-IsSingle (Json.text s) (Json.number x) = refl
plus-IsSingle (Json.text s) (Json.date x) = refl
plus-IsSingle (Json.text s) (Json.boolean x) = refl
plus-IsSingle (Json.text s) (Json.sum x y) = refl
plus-IsSingle (Json.text s) (array x) = refl
plus-IsSingle (Json.text s) (object x) = refl

process_text-IsSingle :
    (options : Options) (old v : Json)
    → IsSingle old
    → IsSingle v
    → IsSingle (process_text options old v)
unfolding process_text plus
process_text-IsSingle options undefined v h k = k
process_text-IsSingle options null_value v h k = refl
process_text-IsSingle options (object d) v h k = refl
process_text-IsSingle options (array xs) v h k = refl
process_text-IsSingle options (Json.text t) v h k = plus-IsSingle (Json.text t) v
process_text-IsSingle options (Json.number t) v h k = refl
process_text-IsSingle options (Json.date t) v h k = refl
process_text-IsSingle options (Json.boolean b) v h k = refl
process_text-IsSingle options (Json.sum a b) v h k = refl

typed_value-IsSingle : (j : Option JsType) (t : String) → IsSingle (typed_value j t)
unfolding typed_value
typed_value-IsSingle none t = refl
typed_value-IsSingle (some js_string) t = refl
typed_value-IsSingle (some js_boolean) t = refl
typed_value-IsSingle (some js_number) t = refl
typed_value-IsSingle (some js_date) t = refl

parse_value-IsSingle : (t : String) (d : Item) → IsSingle (parse_value t d)
unfolding parse_value
parse_value-IsSingle t d = typed_value-IsSingle (js_type_of d) t

either : (b : Bool) (v w : Json) → IsSingle v → IsSingle w → IsSingle (if b then v else w)
either true v w h k = h
either false v w h k = k

text_value-IsSingle :
    (options : Options) (t : String) (d : Item) (v : Json)
    → IsSingle v
    → IsSingle (text_value options t d v)
unfolding text_value
text_value-IsSingle options t d v h =
    either (trim t == "") v _ h
      (process_text-IsSingle options v _ h (parse_value-IsSingle (trim t) d))

read-Returns :
    (options : Options) (c : NamespaceContext) (d : Item) (x : Content) (v : Json)
    → IsSingle v
    → Returns IsSingle (read options c d x v)
unfolding read
read-Returns options c d nothing v h = h
read-Returns options c d (chars t rest) v h =
    read-Returns options c d rest (text_value options t d v) (text_value-IsSingle options t d v h)
read-Returns options c d (element name attrs inner rest) v h =
    chain-Returns (λ (f : Frame). IsSingle f.value) IsSingle
      (new_frame options (entered c attrs) d name attrs) _
      (new_frame-IsSingle options (entered c attrs) d name attrs)
      (λ f k.
        next-Returns IsSingle (read options (entered c attrs) f.described inner f.value) _ (λ w.
          next-Returns IsSingle (parse (some name) null) _ (λ q.
            chain-Returns IsSingle IsSingle (place (is_many_item f.described) q.name w v) _
              (place-IsSingle (is_many_item f.described) q.name w v h)
              (λ v' h'. read-Returns options c d rest v' h'))))

-- Reading the content of an element whose value is no array yields no array.
pub read-IsSingle :
    (options : Options) (c : NamespaceContext) (d : Item) (x : Content) (v : Json) {w : Json}
    → IsSingle v
    → read options c d x v ≡ ok w
    → IsSingle w
read-IsSingle options c d x v {w} h e = subst (Returns IsSingle) e (read-Returns options c d x v h)
