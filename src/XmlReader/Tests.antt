-- ===== src/XmlReader/Tests.antt =====
-- Runs of `xmlToJson` of src/parser/xmlHandler.js, and its theorems at inputs.
use strong_soap.Common.{
  String, Bool, true, false, ◌≡◌, refl, none, some, List, [], ◌∷◌, ◌++◌, ◌==◌, if◌then◌else◌,
}
use strong_soap.Common.Result.{ok, ◌>>=◌}
use strong_soap.QName.{parse, of_text, exec, has_brace}
use strong_soap.NsContext.{new_context, add_namespace, get_namespace_uri}
use strong_soap.Descriptor.{other}
use strong_soap.XmlReader.Values.{
  Json, undefined, null_value, text, array, object, no_item, item, no_field, field, trim, after,
  parse_value, plus,
}
use strong_soap.XmlReader.{
  Event, Options, new_options, state, run, new_frame, entered, place, joined, process_text,
  text_value, register_namespaces, read_attributes, child_item, read_attribute, xsi_type,
}
use strong_soap.XmlReader.Tree.{Content, nothing, chars, element, events, read, run-events}
use strong_soap.XmlReader.Placing.{occurrences, an_object, place-appends}
use strong_soap.XmlReader.Finish.{property, finish, xml_to_json, has_href}
use strong_soap.XmlReader.Finish.Reading.{xml_to_json-reads}

program : Unit {0}
unfolding parse of_text exec has_brace read new_frame entered place joined process_text text_value
    register_namespaces read_attributes child_item read_attribute xsi_type trim after parse_value
    plus add_namespace get_namespace_uri
program = tt

abbrev keys : Options
keys = new_options none none none none

abbrev book : Content
book =
    element "x:book" (("xmlns:x", "urn:b") ∷ ("id", "7") ∷ [])
      (element "title" [] (chars " Soap " nothing) (
        chars " " (
          element "title" [] (chars "Wire" nothing) (
            element "price"
              (("xmlns:i", "http://www.w3.org/2001/XMLSchema-instance") ∷ ("i:nil", "true") ∷ [])
              nothing nothing))))
      nothing

read_tests :
    (read keys new_context other book (object no_field)
      ≡ ok (
          object (
            field "book"
              (object (
                field "$attributes" (object (field "id" (text "7") no_field)) (
                  field "title"
                    (array (item (text "Soap") (item (text "Wire") no_item)))
                    (field "price" null_value no_field))))
              no_field)))
    × (read keys new_context other
          (element "a" (("x", "1") ∷ []) (chars "t" nothing) nothing)
          undefined
        ≡ ok (
            object (
              field "a"
                (object (
                  field "$attributes"
                    (object (field "x" (text "1") no_field))
                    (field "$value" (text "t") no_field)))
                no_field)))
unfolding program
read_tests = (refl, refl)

abbrev select : String → Json → Json
select p v = property p v

abbrev show : Json → String
show v = "{}"

abbrev no_number : Json → Bool
no_number v = true

run-events_example :
    run keys
      (events book [])
      (state new_context (record { name = none; value = object no_field; described = other } ∷ []))
    ≡ (read keys new_context other book (object no_field) >>= λ v.
        run keys [] (state new_context (record { name = none; value = v; described = other } ∷ [])))
run-events_example =
    run-events keys book [] new_context
      (record { name = none; value = object no_field; described = other }) []

place-appends_example :
    (p' : Json) × (place false "a" (text "2") (object (field "a" (text "1") no_field)) ≡ ok p')
    × ((k : String)
        → occurrences k p' ≡ (
            if "a" == k
            then occurrences k (object (field "a" (text "1") no_field)) ++ (text "2" ∷ [])
            else occurrences k (object (field "a" (text "1") no_field))))
place-appends_example =
    place-appends false "a" (text "2") (object (field "a" (text "1") no_field)) refl
      (an_object (field "a" (text "1") no_field))

abbrev unmerged : List Event → Json → Json
unmerged es v = v

xml_to_json-reads_example :
    xml_to_json select show no_number unmerged keys (some new_context) (events book []) other
    ≡ (read keys new_context other book (object no_field) >>= finish select show no_number)
unfolding has_href
xml_to_json-reads_example =
    xml_to_json-reads select show no_number unmerged keys new_context book other refl

abbrev priced : Content
priced =
    element "a" [] (element "b" [] nothing (element "b" [] (chars "1" nothing) nothing)) nothing
