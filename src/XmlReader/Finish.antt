-- ===== src/XmlReader/Finish.antt =====
-- The end of `xmlToJson` of src/parser/xmlHandler.js: the result or the error for a SOAP fault. The
-- error's text is modelled, and not the tree that the code hangs on the error.
-- `select` is the package selectn, which reads a property at a path; `stringify` is JSON.stringify and
-- `nonzero` tells whether a number, or a sum, counts as true.
pub mod Reading
use Prim.Native.String
use strong_soap.Common.{
  String, Bool, true, false, not, ◌==◌, Option, none, some, List, [], ◌∷◌, if◌then◌else◌, truthy,
}
use strong_soap.Common.Result.{Result, ok, throw, error, type_error, ◌>>=◌}
use strong_soap.Common.Dict.{get}
use strong_soap.NsContext.{NamespaceContext, new_context}
use strong_soap.Descriptor.{Item}
use strong_soap.XmlReader.Values.{Json, undefined, null_value, object, no_field, get_field}
use strong_soap.XmlReader.{Options, Frame, State, state, Event, opened, closed, text_read, run}

-- `v[k]` for a value that is not null.
abbrev pub property : String → Json → Json
property k (object d) = elim (get_field k d) [ none ↦ undefined | some v ↦ v ]
property k v = undefined

abbrev pub is_null : Json → Bool
is_null undefined = true
is_null null_value = true
is_null v = false

abbrev pub text_of : Json → Option String
text_of (Json.text t) = some t
text_of v = none

infixr 6 ◌++◌
abbrev pub ◌++◌ : String → String → String
s ++ t = String.◌++◌ s t

unfoldable pub root_value : State → Result Json
root_value (state c (root ∷ below)) = ok root.value
root_value (state c []) = throw type_error

-- Whether an element has the attribute href.
unfoldable pub has_href : List Event → Bool
has_href [] = false
has_href (opened name attrs ∷ es) = elim (get "href" attrs) [ none ↦ has_href es | some v ↦ true ]
has_href (closed name ∷ es) = has_href es
has_href (text_read t ∷ es) = has_href es

module _ (select : String → Json → Json) (stringify : Json → String) (nonzero : Json → Bool) where
  abbrev pub is_truthy : Json → Bool
  is_truthy undefined = false
  is_truthy null_value = false
  is_truthy (Json.text t) = truthy t
  is_truthy (Json.boolean b) = b
  is_truthy (Json.number t) = nonzero (Json.number t)
  is_truthy (Json.sum a b) = nonzero (Json.sum a b)
  is_truthy v = true

  -- `selectn(a, body) || selectn(b, body)`
  abbrev pub picked : String → String → Json → Json
  picked a b body = let v = select a body in if is_truthy v then v else select b body

  -- The text that a value adds to a message of SOAP 1.1: none unless it is a text.
  abbrev pub added_text : String → Json → String
  added_text label v = elim (text_of v) [ none ↦ "" | some t ↦ if t == "" then "" else label ++ t ]

  abbrev pub added_detail : String → Json → String
  added_detail label v =
      let shown : String = elim (text_of v) [ none ↦ stringify v | some t ↦ t ] in
      if is_null v then "" else label ++ shown

  -- `getSoap11FaultErrorMessage`, with what it picks from the fault.
  unfoldable pub soap11_parts : Json → Json → Json → Json → Option String
  soap11_parts code string actor detail =
      let start : String = elim (text_of code) [ none ↦ " " | some t ↦ "faultcode: " ++ t ] in
      if is_truthy code
      then some (
          start
          ++ (added_text " faultstring: " string
              ++ (added_text " faultactor: " actor ++ added_detail " detail: " detail)))
      else none

  unfoldable pub soap11_message : Json → Option String
  soap11_message body =
      soap11_parts (picked "faultcode.$value" "faultcode" body)
        (picked "faultstring.$value" "faultstring" body)
        (picked "faultactor.$value" "faultactor" body) (picked "detail.$value" "detail" body)

  -- The text that a value adds to a message of SOAP 1.2, where it counts as true.
  abbrev pub added_value : String → Json → String
  added_value label v = if is_truthy v then label ++ stringify v else ""

  -- `getSoap12FaultErrorMessage`
  unfoldable pub soap12_message : Json → Option String
  soap12_message body =
      let code = picked "Code" "Code" body in
      if is_truthy code
      then some (
          " Code: "
          ++ (stringify code
              ++ (added_value " Value: " (picked "Value.$value" "Value" body)
                  ++ (added_value " Subcode: " (picked "Subcode.$value" "Subcode" body)
                      ++ (added_value " Reason: " (picked "reason.$value" "Reason" body)
                          ++ (added_value " Node: " (picked "Node.$value" "Node" body)
                              ++ (added_value " Role: " (picked "Role.$value" "Role" body)
                                  ++ added_detail " Detail: "
                                      (picked "Detail.$value" "Detail" body))))))))
      else none

  unfoldable pub fault_message : Json → String
  unfolding soap11_message soap12_message
  fault_message fault = elim (soap11_message fault) [
    | some m ↦ m
    | none ↦ elim (soap12_message fault) [
      | some m ↦ m
      | none ↦ "Error occurred processing Fault response."
    ]
  ]

  -- What follows the parsing and the merging of multi-references.
  unfoldable pub finish : Json → Result Json
  unfolding fault_message
  finish root =
      let envelope = property "Envelope" root in
      let fault = property "Fault" (property "Body" envelope) in
      if is_truthy envelope
      then (if is_null fault then ok envelope else throw (error (fault_message fault)))
      else ok root

  -- `xmlToJson`, with the events that the parser reports for the text. `merge` stands for the loops that
  -- merge multi-references, which only change anything where an element has the attribute href.
  unfoldable pub xml_to_json :
      (merge : List Event → Json → Json)
      → Options
      → Option NamespaceContext
      → List Event
      → Item
      → Result Json
  unfolding root_value finish has_href
  xml_to_json merge options context es described = do
    let c : NamespaceContext = elim context [ none ↦ new_context | some c ↦ c ]
    s ←
        run options es
          (state c (record { name = none; value = object no_field; described = described } ∷ []))
    root ← root_value s
    finish (if has_href es then merge es root else root)
