-- ===== src/Exchange/RoundTrip.antt =====
-- What `jsonToXml` of src/parser/xmlHandler.js writes, the handlers of `xmlToJson` read back.
use strong_soap.Common.{String, true, false, ◌≡◌, refl, ap, ◌∙◌, Option, List, [], ◌∷◌}
use strong_soap.Common.Result.{ok, ◌>>=◌}
use strong_soap.NsContext.{NamespaceContext}
use strong_soap.Descriptor.{other}
use strong_soap.XmlReader.Values.{
  Json, undefined, null_value, text, array, object, Items, no_item, item, Fields, no_field, field,
}
use strong_soap.XmlReader.{Options, Frame, state, run}
use strong_soap.XmlReader.Tree.{element, events, run-events}
use strong_soap.XmlWriter.{Handler}
use strong_soap.XmlWriter.Values.{Calls, done, add_text}
use strong_soap.XmlWriter.Element.{write_document}
use strong_soap.Exchange.{
  IsFilled, IsPlain, AllPlain, ArePlain, IsBare, Transport, entry_calls, entries_calls, body_calls,
  entry, entries, body, is_xml_name,
}
use strong_soap.Exchange.Writing.{document_written}
use strong_soap.Exchange.Reading.{filled_read}

mutual
  unfolding entry_calls

  entry_calls-IsBare : (n : String) (v : Json) (c : Calls) → IsBare c → IsBare (entry_calls n v c)
  entry_calls-IsBare n (text t) c b = b
  entry_calls-IsBare n (object d) c b = b
  entry_calls-IsBare n (array xs) c b = entries_calls-IsBare n xs c b
  entry_calls-IsBare n undefined c b = b
  entry_calls-IsBare n null_value c b = b
  entry_calls-IsBare n (Json.number t) c b = b
  entry_calls-IsBare n (Json.date t) c b = b
  entry_calls-IsBare n (Json.boolean x) c b = b
  entry_calls-IsBare n (Json.sum x y) c b = b

  entries_calls-IsBare :
      (n : String) (xs : Items) (c : Calls) → IsBare c → IsBare (entries_calls n xs c)
  entries_calls-IsBare n no_item c b = b
  entries_calls-IsBare n (item v xs) c b =
      entry_calls-IsBare n v (entries_calls n xs c) (entries_calls-IsBare n xs c b)

body_calls-IsBare : (d : Fields) → IsBare (body_calls d)
unfolding body_calls
body_calls-IsBare no_field = tt
body_calls-IsBare (field n v d) = entry_calls-IsBare n v (body_calls d) (body_calls-IsBare d)

module _ (t : Transport) (o : Options) where
  mutual
    unfolding entry_calls entry

    sent-entry :
        (n : String) (v : Json) (c : Calls)
        → IsPlain o v
        → is_xml_name n ≡ true
        → t.sent (entry_calls n v c) ≡ entry n v (t.sent c)
    sent-entry n (text s) c (e, (f, x)) name =
        t.sent_child n (add_text (text s) done) c name tt
        ∙ ap (λ y. element n [] y (t.sent c)) (t.sent_text s x)
    sent-entry n (object d) c (filled, p) name =
        t.sent_child n (body_calls d) c name (body_calls-IsBare d)
        ∙ ap (λ x. element n [] x (t.sent c)) (sent-body d p)
    sent-entry n (array xs) c (many, p) name = sent-entries n xs c p name
    sent-entry n undefined c p name = absurd p
    sent-entry n null_value c p name = absurd p
    sent-entry n (Json.number s) c p name = absurd p
    sent-entry n (Json.date s) c p name = absurd p
    sent-entry n (Json.boolean b) c p name = absurd p
    sent-entry n (Json.sum a b) c p name = absurd p

    sent-entries :
        (n : String) (xs : Items) (c : Calls)
        → AllPlain o xs
        → is_xml_name n ≡ true
        → t.sent (entries_calls n xs c) ≡ entries n xs (t.sent c)
    sent-entries n no_item c p name = refl
    sent-entries n (item v xs) c (one, p, ps) name =
        sent-entry n v (entries_calls n xs c) p name ∙ ap (entry n v) (sent-entries n xs c ps name)

    sent-body : (d : Fields) → ArePlain o d → t.sent (body_calls d) ≡ body d
    sent-body no_field p = t.sent_done
    sent-body (field n v d) (name, absent, p, ps) =
        sent-entry n v (body_calls d) p name.xml ∙ ap (entry n v) (sent-body d ps)

-- Where unknown properties are not ignored, an object of plain values (texts of characters from the
-- space to U+D7FF that are trimmed, not empty and shorter than 65536, objects that are not empty, and
-- arrays of at least two of these, under names of ASCII letters, digits, '_', '-' and '.' that start
-- with a letter or '_' and are shorter than 65536, that QName.parse keeps, that are different and are no
-- keys of the options), written without descriptors in any
-- context, printed without indentation and parsed, is what the handlers of the parser make of an
-- element's value that was undefined; the namespaces and the frames below stay as they were.
pub write_document-run :
    (h : Handler) (t : Transport) (context : Option NamespaceContext) (d : Fields)
    (c : NamespaceContext) (name : Option String) (below : List Frame)
    → h.ignore_unknown_properties ≡ false
    → IsFilled d
    → ArePlain h.options d
    → (write_document h context other (object d) >>= λ (written : NamespaceContext × Calls).
        run h.options
          (events (t.sent written.1) [])
          (state c (record { name = name; value = undefined; described = other } ∷ below)))
      ≡ ok (state c (record { name = name; value = object d; described = other } ∷ below))
unfolding run
write_document-run h t context d c name below known filled p =
    rw (document_written h known context d p) (
      rw (sent-body t h.options d p) (
        run-events h.options (body d) [] c
          (record { name = name; value = undefined; described = other }) below
        ∙ rw (filled_read h.options d c filled p) refl))
