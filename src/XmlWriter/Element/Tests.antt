-- ===== src/XmlWriter/Element/Tests.antt =====
-- Runs of `jsonToXml` of src/parser/xmlHandler.js, and its theorems at inputs.
use mathlib.Core.List.{Perm}
use mathlib.Core.Path.{subst}
use strong_soap.Common.{String, true, false, ◌≡◌, refl, ap, Option, none, some, [], ◌∷◌, ◌⊎◌, arith}
use strong_soap.Common.Result.{Result, Error, ok, throw, type_error}
use strong_soap.Common.Ending.{Ended}
use strong_soap.QName.{parse, exec, has_brace}
use strong_soap.NsContext.{
  new_context, declare_namespace, register_namespace, get_prefix_mapping, get_namespace_uri,
  get_namespace_mapping,
}
use strong_soap.Descriptor.{
  ElementDescriptor, element, descriptor, nil, cons, an_element, qualified, unqualified,
}
use strong_soap.XmlReader.Values.{
  Json, null_value, text, array, object, boolean, no_item, item, no_field, field, Fields,
}
use strong_soap.XmlReader.{new_options}
use strong_soap.XmlWriter.Values.{
  Calls, done, attribute, child, sort_keys, field_names, to_xml_date_or_time,
}
use strong_soap.XmlWriter.{Handler, attribute_by}
use strong_soap.XmlWriter.Sorting.{InOrder, sort_keys-Sorted}
use strong_soap.XmlWriter.Endings.{IsEnding, Shallow}
use strong_soap.XmlWriter.Element.{write_document}
use strong_soap.XmlWriter.Element.Fuel.{write_document-Ended}
use strong_soap.XmlWriter.Element.Scopes.{write_document-context}

abbrev handler : Handler
handler = record {
  options = new_options none none none none;
  ignore_unknown_properties = false;
  enforce_restrictions = true;
  timezone_enabled = true;
  iso = λ v. none;
  nonzero = λ v. true;
  restriction = λ q. some (λ v. ok v);
  described = λ q. ok none;
  subtype = λ e v. none;
}

restriction_of : Option (Json → Result Json) → Json → Result Json
restriction_of none = λ v. throw type_error
restriction_of (some enforce) = enforce

handler-IsEnding : IsEnding handler
unfolding restriction_of
handler-IsEnding = record {
  described_ends = λ q. tt;
  enforce_ends =
      λ q enforce made v. subst (λ f. Shallow v (f v)) (ap restriction_of made) (omega arith);
}

abbrev simple : String → ElementDescriptor
simple n =
    element
      (record {
        qname = record { ns_uri = some "urn:b"; prefix = some ""; name = n };
        type = none;
        form = unqualified;
        is_many = true;
        is_simple = true;
        is_nillable = false;
        js_type = none;
      })
      (descriptor nil [] none false)

abbrev book : ElementDescriptor
book =
    element
      (record {
        qname = record { ns_uri = some "urn:b"; prefix = some "b"; name = "book" };
        type = none;
        form = qualified;
        is_many = false;
        is_simple = false;
        is_nillable = true;
        js_type = none;
      })
      (descriptor (cons (simple "title") (cons (simple "year") nil)) [] none false)

abbrev value : Json
value = object (
    field "year" (text "1999") (
      field "$attributes" (object (field "id" (text "7") no_field))
        (field "title" (array (item (text "Soap") (item (text "Wire") no_item))) no_field)))

-- The order of the schema, the loop over an array and the attribute behind the children.
value_run :
    write_document handler (some new_context) (an_element book) value
    ≡ ok (
      new_context,
      child "b:book" none
          (attribute "xmlns:b" (text "urn:b") (
            child "title" (some (text "Soap")) done (
              child "title"
                (some (text "Wire"))
                done
                (child "year" (some (text "1999")) done (attribute "id" (text "7") done)))))
          done,
    )
unfolding write_document attribute_by get_prefix_mapping declare_namespace register_namespace
    get_namespace_mapping get_namespace_uri to_xml_date_or_time sort_keys parse exec has_brace
value_run = refl

-- xsi:nil for a missing value, with both declarations.
nil_run :
    write_document handler none (an_element book) null_value
    ≡ ok (
      new_context,
      child "b:book" none
          (attribute "xmlns:b" (text "urn:b") (
            attribute "xmlns:xsi"
              (text "http://www.w3.org/2001/XMLSchema-instance")
              (attribute "xsi:nil" (boolean true) done)))
          done,
    )
unfolding write_document attribute_by get_prefix_mapping declare_namespace register_namespace
    get_namespace_mapping get_namespace_uri to_xml_date_or_time sort_keys parse exec has_brace
nil_run = refl

write_document-context_example :
    ((calls : Calls) × (write_document handler (some new_context) (an_element book) value
        ≡ ok (new_context, calls)))
    ⊎ ((x : Error) × (write_document handler (some new_context) (an_element book) value ≡ throw x))
write_document-context_example =
    write_document-context handler new_context book value handler-IsEnding

write_document-Ended_example : Ended (write_document handler none (an_element book) value)
write_document-Ended_example =
    write_document-Ended handler none (an_element book) value handler-IsEnding

abbrev fields : Fields
fields =
    field "z" (text "1")
      (field "year" (text "2") (field "a" (text "3") (field "title" (text "4") no_field)))

sorted_run : sort_keys fields ("title" ∷ "year" ∷ []) ≡ "title" ∷ "year" ∷ "z" ∷ "a" ∷ []
unfolding sort_keys
sorted_run = refl

sort_keys-Sorted_example :
    Perm (sort_keys fields ("title" ∷ "year" ∷ [])) (field_names fields)
    × InOrder
        ("title" ∷ "year" ∷ [])
        (field_names fields)
        (sort_keys fields ("title" ∷ "year" ∷ []))
sort_keys-Sorted_example = sort_keys-Sorted fields ("title" ∷ "year" ∷ [])
