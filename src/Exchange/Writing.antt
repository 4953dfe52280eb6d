-- ===== src/Exchange/Writing.antt =====
-- `jsonToXml` of src/parser/xmlHandler.js on values without descriptors.
use strong_soap.Common.{
  ℕ, zero, suc, ◌<◌, String, Bool, true, false, ◌≡◌, refl, ap, ◌∙◌, Option, none, some, [], ◌∷◌,
  arith, Bool-cases, inl, inr,
}
use strong_soap.Common.Result.{Result, ok}
use strong_soap.NsContext.{NamespaceContext, new_context, push_context}
use strong_soap.QName.{QName}
use strong_soap.Descriptor.{
  ElementDescriptor, element, TypeDescriptor, Item, an_element, other, unqualified, new_type, nil,
}
use strong_soap.XmlReader.Values.{
  Json, undefined, null_value, text, array, object, Items, no_item, item, Fields, no_field, field,
  get_field,
}
use strong_soap.XmlWriter.Values.{
  Calls, done, add_text, child, field_names, depth, depth_items, depth_fields, to_xml_date_or_time,
}
use strong_soap.XmlWriter.{
  Handler, write_children, child_descriptor, last_element, last_attribute, elements_of,
  attributes_of, map_object, get_xsi_type, add_attributes, is_array,
}
use strong_soap.XmlWriter.Element.{
  write_element, write_value, write_items, json_to_xml, start_element, start_plain, enforced,
  name_element, write_nil, write_content, write_document,
}
use strong_soap.Exchange.{
  IsName, IsPlain, AllPlain, ArePlain, entry_calls, entries_calls, body_calls,
}
use strong_soap.Exchange.Sorting.{sort_keys-own}
use strong_soap.Exchange.Naming.{
  ArePlain-AreDistinct, attributes_absent, value_absent, Agrees, Agrees-self, then_calls-done,
  then_calls-entry,
}

abbrev plain_element : QName → Bool → ElementDescriptor
plain_element q many =
    element
      (record {
        qname = q;
        type = none;
        form = unqualified;
        is_many = many;
        is_simple = false;
        is_nillable = false;
        js_type = none;
      })
      new_type

module _ (h : Handler)
    (write : Item → Json → NamespaceContext → Result (NamespaceContext × Calls)) where
  start-plain :
      (q : QName) (many : Bool) (v : Json)
      → start_element h (plain_element q many) v
        ≡ ok (record { argument = none; calls = done; value = v })
  unfolding start_element start_plain enforced to_xml_date_or_time
  start-plain q many v = elim (Bool-cases h.enforce_restrictions) [
    | inl on ↦ rw on refl
    | inr off ↦ rw off refl
  ]

  text-written :
      (q : QName) (many : Bool) (t : String) (c : NamespaceContext)
      → write_element h write (plain_element q many) (text t) c
        ≡ ok (c, child q.name none (add_text (text t) done) done)
  unfolding write_element name_element write_nil write_content to_xml_date_or_time
  text-written q many t c = rw (start-plain q many (text t)) refl

  object-written :
      (q : QName) (many : Bool) (d : Fields) (c : NamespaceContext) (calls : Calls)
      → ArePlain h.options d
      → write_children h write (some new_type) d (field_names d) (push_context c)
        ≡ ok (push_context c, calls)
      → write_element h write (plain_element q many) (object d) c
        ≡ ok (c, child q.name none calls done)
  unfolding write_element name_element write_nil write_content map_object get_xsi_type
  object-written q many d c calls p w = rw (value_absent h.options d p) (
      rw (start-plain q many (object d)) (
        rw (attributes_absent h.options d p) (
          rw (sort_keys-own d (ArePlain-AreDistinct h.options d p))
            (rw w (rw (then_calls-done calls) refl)))))

module _ (h : Handler) (known : h.ignore_unknown_properties ≡ false) where
  -- The rest of an object behind one property.
  property_written :
      (write : Item → Json → NamespaceContext → Result (NamespaceContext × Calls))
      (t : Option TypeDescriptor) (d e : Fields) (n : String) (v : Json) (c : NamespaceContext)
      → elements_of t ≡ nil
      → attributes_of t ≡ []
      → get_field n d ≡ some v
      → IsPlain h.options v
      → (name : IsName h.options n)
      → write (an_element (plain_element name.qname (is_array v))) v c
        ≡ ok (c, entry_calls name.qname.name v done)
      → write_children h write t d (field_names e) c ≡ ok (c, body_calls e)
      → write_children h write t d (n ∷ field_names e) c ≡ ok (c, entry_calls n v (body_calls e))
  unfolding write_children child_descriptor last_element last_attribute
  property_written write t d e n v c no_elements no_attributes found p name first rest =
      rw (name.no_attributes) (
        rw found (
          rw no_elements (
            rw no_attributes (
              rw known (
                rw (name.parsed) (
                  rw first (
                    rw rest (
                      ap (λ calls. ok (c, calls))
                        (then_calls-entry name.qname.name v done (body_calls e)
                          ∙ ap (λ m. entry_calls m v (body_calls e)) name.same)))))))))

  mutual
    unfolding json_to_xml write_value write_items write_children entry_calls depth

    single_written :
        (f : ℕ) (v : Json) (q : QName) (c : NamespaceContext)
        → IsPlain h.options v
        → depth v < f
        → json_to_xml h f (an_element (plain_element q (is_array v))) v c
          ≡ ok (c, entry_calls q.name v done)
    single_written zero v q c p l = absurd (omega arith)
    single_written (suc f) (text t) q c p l = text-written h (json_to_xml h f) q false t c
    single_written (suc f) (object d) q c (filled, p) l =
        object-written h (json_to_xml h f) q false d c (body_calls d) p (
          object_written f (some new_type) d d (push_context c) refl refl
            (Agrees-self d (ArePlain-AreDistinct h.options d p)) p (omega arith))
    single_written (suc f) (array xs) q c (many, p) l = items_written f xs q c p (omega arith)
    single_written (suc f) undefined q c p l = absurd p
    single_written (suc f) null_value q c p l = absurd p
    single_written (suc f) (Json.number t) q c p l = absurd p
    single_written (suc f) (Json.date t) q c p l = absurd p
    single_written (suc f) (Json.boolean b) q c p l = absurd p
    single_written (suc f) (Json.sum a b) q c p l = absurd p

    items_written :
        (f : ℕ) (xs : Items) (q : QName) (c : NamespaceContext)
        → AllPlain h.options xs
        → depth_items xs < f
        → write_items (json_to_xml h f (an_element (plain_element q true))) xs c
          ≡ ok (c, entries_calls q.name xs done)
    items_written zero xs q c p l = absurd (omega arith)
    items_written (suc f) no_item q c p l = refl
    items_written (suc f) (item (text t) xs) q c (one, p, ps) l =
        rw (text-written h (json_to_xml h f) q true t c)
          (rw (items_written (suc f) xs q c ps (omega arith)) refl)
    items_written (suc f) (item (object d) xs) q c (one, (filled, p), ps) l =
        rw
          (object-written h (json_to_xml h f) q true d c (body_calls d) p (
            object_written f (some new_type) d d (push_context c) refl refl
              (Agrees-self d (ArePlain-AreDistinct h.options d p)) p (omega arith)))
          (rw (items_written (suc f) xs q c ps (omega arith)) refl)
    items_written (suc f) (item (array ys) xs) q c (one, p, ps) l = absurd one
    items_written (suc f) (item undefined xs) q c (one, p, ps) l = absurd p
    items_written (suc f) (item null_value xs) q c (one, p, ps) l = absurd p
    items_written (suc f) (item (Json.number t) xs) q c (one, p, ps) l = absurd p
    items_written (suc f) (item (Json.date t) xs) q c (one, p, ps) l = absurd p
    items_written (suc f) (item (Json.boolean b) xs) q c (one, p, ps) l = absurd p
    items_written (suc f) (item (Json.sum a b) xs) q c (one, p, ps) l = absurd p

    object_written :
        (f : ℕ) (t : Option TypeDescriptor) (d e : Fields) (c : NamespaceContext)
        → elements_of t ≡ nil
        → attributes_of t ≡ []
        → Agrees d e
        → ArePlain h.options e
        → depth_fields e < f
        → write_children h (json_to_xml h f) t d (field_names e) c ≡ ok (c, body_calls e)
    object_written f t d no_field c no_elements no_attributes a p l = refl
    object_written f t d (field n v e) c no_elements no_attributes (found, a) (name, absent, p, ps)
          l =
        property_written (json_to_xml h f) t d e n v c no_elements no_attributes found p name
          (single_written f v name.qname c p (omega arith))
          (object_written f t d e c no_elements no_attributes a ps (omega arith))

  -- An object is written as the elements of its properties, in any context.
  pub document_written :
      (context : Option NamespaceContext) (d : Fields)
      → ArePlain h.options d
      → write_document h context other (object d)
        ≡ ok (elim context [ none ↦ new_context | some c ↦ c ], body_calls d)
  unfolding write_document json_to_xml map_object get_xsi_type add_attributes depth
  document_written context d p = rw (sort_keys-own d (ArePlain-AreDistinct h.options d p)) (
      rw
        (object_written (suc (depth_fields d)) none d d _ refl refl
          (Agrees-self d (ArePlain-AreDistinct h.options d p)) p (omega arith))
        (rw (then_calls-done (body_calls d)) refl))
