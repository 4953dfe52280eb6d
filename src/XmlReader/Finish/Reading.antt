-- ===== src/XmlReader/Finish/Reading.antt =====
-- What `xmlToJson` of src/parser/xmlHandler.js returns for a whole document.
use strong_soap.Common.{false, String, Bool, ◌≡◌, refl, ap, ◌∙◌, none, some, [], ◌∷◌, List}
use strong_soap.Common.Result.{Result, ok, throw, diverge, ◌>>=◌}
use strong_soap.NsContext.{NamespaceContext}
use strong_soap.Descriptor.{Item}
use strong_soap.XmlReader.Values.{Json, object, no_field}
use strong_soap.XmlReader.{Options, run, state, Frame, Event}
use strong_soap.XmlReader.Tree.{Content, events, read, run-events}
use strong_soap.XmlReader.Finish.{has_href, finish, xml_to_json, root_value}

module _ (select : String → Json → Json) (stringify : Json → String) (nonzero : Json → Bool) where
  after_run :
      (r : Result Json) (f : Json → Frame) (c : NamespaceContext)
      → ((v : Json) → (f v).value ≡ v)
      → ((r >>= λ v. ok (state c (f v ∷ []))) >>= λ s.
          root_value s >>= λ v. finish select stringify nonzero v)
        ≡ (r >>= finish select stringify nonzero)
  unfolding root_value
  after_run (ok v) f c h = ap (finish select stringify nonzero) (h v)
  after_run (throw e) f c h = refl
  after_run diverge f c h = refl

  -- For the events of any document in which no element has the attribute href, `xmlToJson` reads the
  -- document's content from the empty object and ends with the result or the fault of what was read.
  pub xml_to_json-reads :
      (merge : List Event → Json → Json) (options : Options) (c : NamespaceContext) (x : Content)
      (described : Item)
      → has_href (events x []) ≡ false
      → xml_to_json select stringify nonzero merge options (some c) (events x []) described
        ≡ (read options c described x (object no_field) >>= finish select stringify nonzero)
  unfolding xml_to_json run
  xml_to_json-reads merge options c x described h = rw h (
      ap (λ r. r >>= λ s. root_value s >>= finish select stringify nonzero)
        (run-events options x [] c
          (record { name = none; value = object no_field; described = described }) [])
      ∙ after_run (read options c described x (object no_field))
          (λ v. record { name = none; value = v; described = described }) c (λ v. refl))
