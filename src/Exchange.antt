-- ===== src/Exchange.antt =====
-- What `jsonToXml` of src/parser/xmlHandler.js writes of a value without descriptors and what
-- `xmlToJson` reads of it: XmlWriter and XmlReader put together.
mod Sorting
mod Naming
mod Putting
mod Writing
mod Reading
mod RoundTrip
mod Tests
use strong_soap.Common.{
  ℕ, suc, ◌+◌, ◌≤◌, String, Bool, true, false, ◌==◌, ◌≡◌, ◌≢◌, Option, none, some, [], code, ltb,
  nat_eq, not, ◌&&◌, ◌||◌,
}
use strong_soap.Common.Result.{ok}
use strong_soap.QName.{QName, parse, null}
use strong_soap.XmlReader.Values.{
  Json, text, array, object, Items, no_item, item, Fields, no_field, field, get_field, trim,
}
use strong_soap.XmlReader.{Options}
use strong_soap.XmlReader.Tree.{Content, nothing, chars, element}
use strong_soap.XmlWriter.Values.{Calls, done, attribute, add_text, add_raw, add_cdata, child}

abbrev pub is_within : ℕ → ℕ → ℕ → Bool
is_within low high n = not (ltb n low) && not (ltb high n)

abbrev pub is_name_start : ℕ → Bool
is_name_start n = is_within b'A' b'Z' n || (is_within b'a' b'z' n || nat_eq n b'_')

abbrev pub is_name_char : ℕ → Bool
is_name_char n = is_name_start n || (is_within b'0' b'9' n || (nat_eq n b'-' || nat_eq n b'.'))

unfoldable pub all_chars : (ℕ → Bool) → String → Bool
all_chars test String.[] = true
all_chars test (String.◌∷◌ c s) = test (code c) && all_chars test s

unfoldable pub size : String → ℕ
size String.[] = 0
size (String.◌∷◌ c s) = suc (size s)

-- A name of XML: ASCII letters, digits, '_', '-' and '.', the first a letter or '_', within the buffer
-- of sax.
unfoldable pub is_xml_name : String → Bool
unfolding all_chars size
is_xml_name String.[] = false
is_xml_name (String.◌∷◌ c s) =
    is_name_start (code c) && (all_chars is_name_char s && ltb (size s) 65535)

-- A text that is not empty, of characters from the space to U+D7FF, within the buffer of sax.
unfoldable pub is_xml_text : String → Bool
unfolding all_chars size
is_xml_text s = not (s == "") && (all_chars (is_within 32 55295) s && ltb (size s) 65536)

-- A name of XML that QName.parse keeps as it is, and that is no key of the options.
pub record IsName (o : Options) (n : String) : Type 0 where
  pub qname : QName
  pub parsed : parse (some n) null ≡ ok qname
  pub same : qname.name ≡ n
  pub xml : is_xml_name n ≡ true
  pub no_attributes : (n == o.attributes_key) ≡ false
  pub no_value : (n == o.value_key) ≡ false

abbrev pub count : Items → ℕ
count no_item = 0
count (item v xs) = suc (count xs)

abbrev pub IsSingle : Json → Type 0
IsSingle (array xs) = ⊥
IsSingle v = Unit

abbrev pub IsFilled : Fields → Type 0
IsFilled no_field = ⊥
IsFilled (field n v d) = Unit

-- The values that XML can hold without a schema: texts of XML that are trimmed, objects that are
-- not empty, with names that are different, and arrays of at least two of these.
abbrev mutual
  pub IsPlain : Options → Json → Type 0
  IsPlain o (text t) = (trim t ≡ t) × ((t ≢ "") × (is_xml_text t ≡ true))
  IsPlain o (object d) = IsFilled d × ArePlain o d
  IsPlain o (array xs) = (2 ≤ count xs) × AllPlain o xs
  IsPlain o v = ⊥

  pub AllPlain : Options → Items → Type 0
  AllPlain o no_item = Unit
  AllPlain o (item v xs) = IsSingle v × IsPlain o v × AllPlain o xs

  pub ArePlain : Options → Fields → Type 0
  ArePlain o no_field = Unit
  ArePlain o (field n v d) = IsName o n × (get_field n d ≡ none) × IsPlain o v × ArePlain o d

-- The calls for a property, in front of others, and for an object: an element for each property, or
-- one for each entry of its array.
unfoldable mutual
  pub entry_calls : String → Json → Calls → Calls
  entry_calls n (text t) c = child n none (add_text (text t) done) c
  entry_calls n (object d) c = child n none (body_calls d) c
  entry_calls n (array xs) c = entries_calls n xs c
  entry_calls n v c = c

  pub entries_calls : String → Items → Calls → Calls
  entries_calls n no_item c = c
  entries_calls n (item v xs) c = entry_calls n v (entries_calls n xs c)

  pub body_calls : Fields → Calls
  body_calls no_field = done
  body_calls (field n v d) = entry_calls n v (body_calls d)

-- The same as content that is read.
unfoldable mutual
  pub entry : String → Json → Content → Content
  entry n (text t) x = element n [] (chars t nothing) x
  entry n (object d) x = element n [] (body d) x
  entry n (array xs) x = entries n xs x
  entry n v x = x

  pub entries : String → Items → Content → Content
  entries n no_item x = x
  entries n (item v xs) x = entry n v (entries n xs x)

  pub body : Fields → Content
  body no_field = nothing
  body (field n v d) = entry n v (body d)

-- Calls that add elements and texts and nothing else.
abbrev pub IsBare : Calls → Type 0
IsBare done = Unit
IsBare (attribute n v c) = ⊥
IsBare (add_text v c) = IsBare c
IsBare (add_raw v c) = ⊥
IsBare (add_cdata v c) = ⊥
IsBare (child n v inner c) = IsBare c

-- What the package sax reads of what the package xmlbuilder has printed, without indentation, for names and
-- texts of XML: the text that was added, and the elements in their order.
pub record Transport : Type 0 where
  pub sent : Calls → Content
  pub sent_done : sent done ≡ nothing
  pub sent_text :
      (t : String) → is_xml_text t ≡ true → sent (add_text (text t) done) ≡ chars t nothing
  pub sent_child :
      (n : String) (inner c : Calls)
      → is_xml_name n ≡ true
      → IsBare inner
      → sent (child n none inner c) ≡ element n [] (sent inner) (sent c)
