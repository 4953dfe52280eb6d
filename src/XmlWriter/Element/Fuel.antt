-- ===== src/XmlWriter/Element/Fuel.antt =====
-- `jsonToXml` of src/parser/xmlHandler.js ends: a value is written with one call more than it is deep.
use strong_soap.Common.{ℕ, zero, suc, false, ◌≤◌, ◌<◌, Option, none, some, arith, ◌&&◌}
use strong_soap.Common.Result.{Result, ok, throw, diverge, ◌>>=◌}
use strong_soap.Common.Ending.{Ended, chain-Ended, if-Ended}
use strong_soap.NsContext.{
  NamespaceContext, push_context, declare_namespace, get_prefix_mapping, PrefixMapping, reserved,
  mapping,
}
use strong_soap.NsContext.Ending.{declare_namespace-Ended}
use strong_soap.QName.{QName}
use strong_soap.Descriptor.{
  ElementDescriptor, info, content, Item, an_element, an_attribute, a_type, other, qualified,
  unqualified, Form,
}
use strong_soap.XmlReader.Values.{
  Json, undefined, null_value, text, number, date, boolean, sum, array, object, Items, no_item,
  item,
}
use strong_soap.XmlWriter.Values.{is_nullish, depth, depth_items}
use strong_soap.XmlWriter.{Handler, Writer, declare_on, uri_of, add_attributes}
use strong_soap.XmlWriter.Endings.{
  Ends, IsEnding, and_then-Ends, if-Ends, declare_on-Ended, write_attribute-Ends,
  add_attributes-Ends, map_object-Ends, le_trans,
}
use strong_soap.XmlWriter.Element.{
  own_value, own_attributes, declare_element, name_by, name_element, Started, start_element,
  write_nil, widened, is_plain, write_content, write_element, write_items, write_value, json_to_xml,
  write_document,
}
use strong_soap.XmlWriter.Element.Depth.{own_value-depth, Bounded, start_element-Bounded}

declare_element-Ended : (q : QName) (c : NamespaceContext) → Ended (declare_element q c)
unfolding declare_element
declare_element-Ended q c =
    chain-Ended (declare_namespace c q.prefix (uri_of q)) _
      (declare_namespace-Ended c q.prefix (uri_of q)) (λ r. tt)

name_by-Ended :
    (q : QName) (m : Option PrefixMapping) (c : NamespaceContext) → Ended (name_by q m c)
unfolding name_by
name_by-Ended q none c = declare_element-Ended q c
name_by-Ended q (some (reserved t)) c = tt
name_by-Ended q (some (mapping m)) c = if-Ended m.declared _ _ tt (declare_element-Ended q c)

name_element-Ended : (f : Form) (q : QName) (c : NamespaceContext) → Ended (name_element f q c)
unfolding name_element
name_element-Ended unqualified q c = tt
name_element-Ended qualified q c = name_by-Ended q (get_prefix_mapping c (uri_of q) false) c

write_nil-Ended :
    (e : ElementDescriptor) (v : Json) (c : NamespaceContext) → Ended (write_nil e v c)
unfolding write_nil
write_nil-Ended e v c =
    if-Ended (is_nullish v && (info e).is_nillable) _ _
      (chain-Ended (declare_on _ _ c) _ (declare_on-Ended _ _ c) (λ r. tt)) tt

Bounded-Ended {ℓ} :
    {A : Type ℓ} (n : ℕ) (r : Result Started) (f : Started → Result A)
    → Bounded n r
    → ((s : Started) → depth s.value ≤ n → Ended (f s))
    → Ended (r >>= f)
Bounded-Ended n (ok s) f l k = k s l
Bounded-Ended n (throw x) f l k = tt
Bounded-Ended n diverge f l k = absurd l

-- The recursive call ends for the parts of a value.
module _ (h : Handler) (ending : IsEnding h) (n : ℕ) (write : Item → Json → Writer)
    (write-Ends : (x : Item) (v : Json) → depth v < n → Ends (write x v)) where
  write_content-Ends :
      (e : ElementDescriptor) (v attrs : Json)
      → depth v ≤ n
      → Ends (write_content h write e v attrs)
  unfolding write_content
  write_content-Ends e v attrs l c =
      if-Ended (info e).is_simple _ _ (add_attributes-Ends h (some (content e)) attrs c) (
        if-Ended (is_nullish v) _ _ tt (
          if-Ended (is_plain v) _ _
            (chain-Ended (add_attributes h (some (content e)) attrs c) _
              (add_attributes-Ends h (some (content e)) attrs c) (λ r. tt))
            (map_object-Ends h ending n write write-Ends (some (widened h e v)) v attrs l c)))

  write_element-Ends :
      (e : ElementDescriptor) (v : Json) → depth v ≤ n → Ends (write_element h write e v)
  unfolding write_element
  write_element-Ends e v l c =
      chain-Ended (name_element (info e).form (info e).qname (push_context c)) _
        (name_element-Ended (info e).form (info e).qname (push_context c))
        (λ r.
          Bounded-Ended (n) (start_element h e (own_value h v)) _
            (start_element-Bounded h ending e (own_value h v) (n)
              (le_trans (own_value-depth h v) l))
            (λ s k. chain-Ended (write_nil e s.value r.0) _ (write_nil-Ended e s.value r.0) (λ t.
              chain-Ended (write_content h write e s.value (own_attributes h v) t.0) _
                (write_content-Ends e s.value (own_attributes h v) k t.0) (λ u. tt))))

  write_items-Ends :
      (e : ElementDescriptor) (xs : Items)
      → depth_items xs < n
      → Ends (write_items (write (an_element e)) xs)
  unfolding write_items depth
  write_items-Ends e no_item l = λ c. tt
  write_items-Ends e (item v xs) l =
      and_then-Ends (write (an_element e) v) (write_items (write (an_element e)) xs)
        (write-Ends (an_element e) v (grind arith)) (write_items-Ends e xs (grind arith))

  write_value-Ends :
      (e : ElementDescriptor) (v : Json) → depth v ≤ n → Ends (write_value h write e v)
  unfolding write_value depth
  write_value-Ends e (array xs) l =
      if-Ends (info e).is_many (write_items (write (an_element e)) xs)
        (write_element h write e (array xs)) (write_items-Ends e xs (omega arith))
        (write_element-Ends e (array xs) l)
  write_value-Ends e undefined l = write_element-Ends e undefined l
  write_value-Ends e null_value l = write_element-Ends e null_value l
  write_value-Ends e (text t) l = write_element-Ends e (text t) l
  write_value-Ends e (number t) l = write_element-Ends e (number t) l
  write_value-Ends e (date t) l = write_element-Ends e (date t) l
  write_value-Ends e (boolean x) l = write_element-Ends e (boolean x) l
  write_value-Ends e (sum x y) l = write_element-Ends e (sum x y) l
  write_value-Ends e (object d) l = write_element-Ends e (object d) l

pub json_to_xml-Ends :
    (h : Handler)
    → IsEnding h
    → (f : ℕ) (x : Item) (v : Json) → depth v < f
    → Ends (json_to_xml h f x v)
unfolding json_to_xml
json_to_xml-Ends h ending zero x v l = absurd (omega arith)
json_to_xml-Ends h ending (suc f) (an_attribute a) v l = write_attribute-Ends h a v
json_to_xml-Ends h ending (suc f) (an_element e) v l =
    write_value-Ends h ending f (json_to_xml h f) (json_to_xml-Ends h ending f) e v (omega arith)
json_to_xml-Ends h ending (suc f) (a_type t) v l =
    map_object-Ends h ending f (json_to_xml h f) (json_to_xml-Ends h ending f) (some t) v undefined
      (omega arith)
json_to_xml-Ends h ending (suc f) other v l =
    map_object-Ends h ending f (json_to_xml h f) (json_to_xml-Ends h ending f) none v undefined
      (omega arith)

-- Writing any value by any descriptor returns or throws, in every context, where the descriptions of
-- types end and the restrictions of simple types end and make no value deeper: the fuel, one more
-- than the depth of the value, is enough.
pub write_document-Ended :
    (h : Handler) (context : Option NamespaceContext) (x : Item) (v : Json)
    → IsEnding h
    → Ended (write_document h context x v)
unfolding write_document
write_document-Ended h context x v ending =
    json_to_xml-Ends h ending (suc (depth v)) x v (omega arith) _
