-- ===== src/Exchange/Tests.antt =====
-- The round trip of values through src/parser/xmlHandler.js at concrete inputs.
use strong_soap.Common.{
  String, true, false, ◌==◌, ◌≡◌, refl, none, some, [], ◌∷◌, arith, eq_iff, ◌≢◌,
}
use strong_soap.Common.Result.{ok, ◌>>=◌}
use strong_soap.NsContext.{NamespaceContext, new_context}
use strong_soap.Descriptor.{other}
use strong_soap.QName.{QName, parse, exec, null, has_brace}
use strong_soap.XmlReader.Values.{
  undefined, text, array, object, no_item, item, Fields, no_field, field, trim,
}
use strong_soap.XmlReader.{new_options, state, run}
use strong_soap.XmlReader.Tree.{Content, nothing, chars, element, events}
use strong_soap.XmlWriter.{Handler}
use strong_soap.XmlWriter.Values.{Calls, done, attribute, add_text, add_raw, add_cdata, child}
use strong_soap.XmlWriter.Element.{write_document}
use strong_soap.Exchange.{IsName, ArePlain, Transport, is_xml_name, is_xml_text}
use strong_soap.Exchange.RoundTrip.{write_document-run}

abbrev handler : Handler
handler = record {
  options = new_options none none none none;
  ignore_unknown_properties = false;
  enforce_restrictions = false;
  timezone_enabled = false;
  iso = λ v. none;
  nonzero = λ v. false;
  restriction = λ q. none;
  described = λ q. ok none;
  subtype = λ e v. none;
}

-- The calls, without the attributes, as content.
abbrev content_of : Calls → Content
content_of done = nothing
content_of (attribute n v c) = content_of c
content_of (add_text (text t) c) = chars t (content_of c)
content_of (add_text v c) = content_of c
content_of (add_raw v c) = content_of c
content_of (add_cdata v c) = content_of c
content_of (child n v inner c) = element n [] (content_of inner) (content_of c)

abbrev transport : Transport
transport = record {
  sent = content_of;
  sent_done = refl;
  sent_text = λ t clean. refl;
  sent_child = λ n inner c clean bare. refl;
}

abbrev local_name : String → QName
local_name n = record { ns_uri = some ""; prefix = some ""; name = n }

IsName-of :
    (n : String)
    → parse (some n) null ≡ ok (local_name n)
    → (n == "$attributes") ≡ false
    → (n == "$value") ≡ false
    → is_xml_name n ≡ true
    → IsName handler.options n
IsName-of n p a v x = record {
  qname = local_name n;
  parsed = p;
  same = refl;
  xml = x;
  no_attributes = a;
  no_value = v;
}

-- { title: "A", authors: { name: ["B", "C"] } }
abbrev names : Fields
names = field "name" (array (item (text "B") (item (text "C") no_item))) no_field

abbrev book : Fields
book = field "title" (text "A") (field "authors" (object names) no_field)

filled : (s : String) → (s == "") ≡ false → s ≢ ""
filled s h e = cc (h, (eq_iff s "").1 e)

names-ArePlain : ArePlain handler.options names
unfolding parse exec has_brace trim is_xml_name is_xml_text
names-ArePlain = (
  IsName-of "name" refl refl refl refl,
  refl,
  (omega arith, (tt, (refl, (filled "B" refl, refl)), (tt, (refl, (filled "C" refl, refl)), tt))),
  tt,
)

book-ArePlain : ArePlain handler.options book
unfolding parse exec has_brace trim is_xml_name is_xml_text
book-ArePlain = (
  IsName-of "title" refl refl refl refl,
  refl,
  (refl, (filled "A" refl, refl)),
  (IsName-of "authors" refl refl refl refl, refl, (tt, names-ArePlain), tt),
)

write_document-run_example :
    (write_document handler none other (object book) >>= λ (written : NamespaceContext × Calls).
    run handler.options (events (transport.sent written.1) []) (
      state new_context (record { name = some "Body"; value = undefined; described = other } ∷ [])))
    ≡ ok (
        state new_context
          (record { name = some "Body"; value = object book; described = other } ∷ []))
write_document-run_example =
    write_document-run handler transport none book new_context (some "Body") [] refl tt
      book-ArePlain
