-- ===== src/Exchange/Reading.antt =====
-- `xmlToJson` of src/parser/xmlHandler.js on elements without attributes and without descriptors.
use strong_soap.Common.{
  String, false, ◌==◌, ◌≡◌, refl, sym, ap, ◌∙◌, ◌≢◌, none, some, [], arith, eq_iff, Bool-cases, inl,
  inr,
}
use strong_soap.Common.Result.{ok}
use strong_soap.NsContext.{NamespaceContext}
use strong_soap.Descriptor.{other}
use strong_soap.XmlReader.Values.{
  Json, undefined, null_value, text, array, object, Items, no_item, item, Fields, no_field, field,
  get_field, put_field, push_item, trim, parse_value,
}
use strong_soap.XmlReader.{
  Options, new_frame, read_attributes, child_item, entered, place, joined, text_value, process_text,
}
use strong_soap.XmlReader.Tree.{Content, nothing, chars, element, read}
use strong_soap.Exchange.{
  IsName, IsSingle, IsFilled, IsPlain, AllPlain, ArePlain, entry, entries, body,
}
use strong_soap.Exchange.Putting.{
  get_field-put_self, put_field-put, append_fields, append_items, append_items-push,
  append_fields-put, append_fields-end, append_items-end, Fresh, Fresh-nothing, Fresh-put,
}

module _ (o : Options) where
  frame-plain :
      (c : NamespaceContext) (n : String)
      → IsName o n
      → new_frame o c other n []
        ≡ ok (record { name = some n; value = undefined; described = other })
  unfolding new_frame read_attributes child_item
  frame-plain c n name = rw (name.parsed) (rw (name.same) refl)

  element_read :
      (n : String) (inner rest : Content) (c : NamespaceContext) (w base base' : Json)
      → IsName o n
      → read o (entered c []) other inner undefined ≡ ok w
      → place false n w base ≡ ok base'
      → read o c other (element n [] inner rest) base ≡ read o c other rest base'
  unfolding read
  element_read n inner rest c w base base' name r p =
      rw (frame-plain (entered c []) n name) (rw r (rw (name.parsed) (rw (name.same) (rw p refl))))

  text_read :
      (t : String) (c : NamespaceContext)
      → trim t ≡ t
      → t ≢ ""
      → read o c other (chars t nothing) undefined ≡ ok (text t)
  unfolding read text_value process_text parse_value
  text_read t c e f = elim (Bool-cases (t == "")) [
    | inl blank ↦ absurd (f ((eq_iff t "").0 blank))
    | inr filled ↦ rw e (rw filled refl)
  ]

  -- A value that is placed in an object under a name that the object has not, or has with an array, or
  -- with a single value.
  place_new :
      (n : String) (v : Json) (acc : Fields)
      → get_field n acc ≡ none
      → place false n v (object acc) ≡ ok (object (put_field n v acc))
  unfolding place joined
  place_new n v acc h = rw h refl

  place_first :
      (n : String) (w : Json) → place false n w undefined ≡ ok (object (put_field n w no_field))
  unfolding place joined
  place_first n w = refl

  read-nothing : (c : NamespaceContext) (v : Json) → read o c other nothing v ≡ ok v
  unfolding read
  read-nothing c v = refl

  place_more :
      (n : String) (v : Json) (ys : Items) (acc : Fields)
      → place false n v (object (put_field n (array ys) acc))
        ≡ ok (object (put_field n (array (push_item ys v)) acc))
  unfolding place joined
  place_more n v ys acc =
      rw (get_field-put_self n (array ys) acc)
        (ap (λ d. ok (object d)) (put_field-put n (array (push_item ys v)) (array ys) acc))

  joined_two : (w v : Json) → IsSingle w → joined false (some w) v ≡ array (item w (item v no_item))
  unfolding joined
  joined_two (array xs) v h = absurd h
  joined_two undefined v h = refl
  joined_two null_value v h = refl
  joined_two (text t) v h = refl
  joined_two (Json.number t) v h = refl
  joined_two (Json.date t) v h = refl
  joined_two (Json.boolean b) v h = refl
  joined_two (Json.sum a b) v h = refl
  joined_two (object d) v h = refl

  place_second :
      (n : String) (w v : Json) (acc : Fields)
      → IsSingle w
      → place false n v (object (put_field n w acc))
        ≡ ok (object (put_field n (array (item w (item v no_item))) acc))
  unfolding place
  place_second n w v acc h = rw (get_field-put_self n w acc) (
      rw (joined_two w v h)
        (ap (λ d. ok (object d)) (put_field-put n (array (item w (item v no_item))) w acc)))

  mutual
    unfolding entry

    single_read :
        (v : Json) (n : String) (rest : Content) (c : NamespaceContext) (base base' : Json)
        → IsSingle v
        → IsPlain o v
        → IsName o n
        → place false n v base ≡ ok base'
        → read o c other (entry n v rest) base ≡ read o c other rest base'
    single_read (text t) n rest c base base' one (e, (f, x)) name p =
        element_read n (chars t nothing) rest c (text t) base base' name
          (text_read t (entered c []) e f) p
    single_read (object d) n rest c base base' one (filled, q) name p =
        element_read n (body d) rest c (object d) base base' name
          (filled_read d (entered c []) filled q) p
    single_read (array xs) n rest c base base' one q name p = absurd one
    single_read undefined n rest c base base' one q name p = absurd q
    single_read null_value n rest c base base' one q name p = absurd q
    single_read (Json.number t) n rest c base base' one q name p = absurd q
    single_read (Json.date t) n rest c base base' one q name p = absurd q
    single_read (Json.boolean b) n rest c base base' one q name p = absurd q
    single_read (Json.sum a b) n rest c base base' one q name p = absurd q

    more_read :
        (xs : Items) (n : String) (rest : Content) (c : NamespaceContext) (ys : Items)
        (acc : Fields)
        → AllPlain o xs
        → IsName o n
        → read o c other (entries n xs rest) (object (put_field n (array ys) acc))
          ≡ read o c other rest (object (put_field n (array (append_items ys xs)) acc))
    more_read no_item n rest c ys acc q name =
        ap (λ zs. read o c other rest (object (put_field n (array zs) acc)))
          (sym (append_items-end ys))
    more_read (item v xs) n rest c ys acc (one, q, qs) name =
        single_read v n (entries n xs rest) c _ _ one q name (place_more n v ys acc)
        ∙ more_read xs n rest c (push_item ys v) acc qs name
        ∙ ap (λ zs. read o c other rest (object (put_field n (array zs) acc)))
            (append_items-push ys xs v)

    any_read :
        (v : Json) (n : String) (rest : Content) (c : NamespaceContext) (base : Json) (acc : Fields)
        → ((w : Json) → place false n w base ≡ ok (object (put_field n w acc)))
        → IsPlain o v
        → IsName o n
        → read o c other (entry n v rest) base ≡ read o c other rest (object (put_field n v acc))
    any_read (array (item v (item w xs))) n rest c base acc p (many, (one, q, (one', q', qs)))
          name =
        single_read v n (entries n (item w xs) rest) c base (object (put_field n v acc)) one q name
          (p v)
        ∙ single_read w n (entries n xs rest) c _ _ one' q' name (place_second n v w acc one)
        ∙ more_read xs n rest c (item v (item w no_item)) acc qs name
    any_read (array (item v no_item)) n rest c base acc p q name = absurd (omega (arith, q.0))
    any_read (array no_item) n rest c base acc p q name = absurd (omega (arith, q.0))
    any_read (text t) n rest c base acc p (e, (f, x)) name =
        element_read n (chars t nothing) rest c (text t) base (object (put_field n (text t) acc))
          name (text_read t (entered c []) e f) (p (text t))
    any_read (object d) n rest c base acc p (filled, q) name =
        element_read n (body d) rest c (object d) base (object (put_field n (object d) acc)) name
          (filled_read d (entered c []) filled q) (p (object d))
    any_read undefined n rest c base acc p q name = absurd q
    any_read null_value n rest c base acc p q name = absurd q
    any_read (Json.number t) n rest c base acc p q name = absurd q
    any_read (Json.date t) n rest c base acc p q name = absurd q
    any_read (Json.boolean b) n rest c base acc p q name = absurd q
    any_read (Json.sum a b) n rest c base acc p q name = absurd q

    fields_read :
        (d : Fields) (c : NamespaceContext) (acc : Fields)
        → ArePlain o d
        → Fresh d acc
        → read o c other (body d) (object acc) ≡ ok (object (append_fields acc d))
    fields_read no_field c acc q f =
        read-nothing c (object acc) ∙ ap (λ e. ok (object e)) (sym (append_fields-end acc))
    fields_read (field n v d) c acc (name, absent, q, qs) (new, f) =
        any_read v n (body d) c (object acc) acc (λ w. place_new n w acc new) q name
        ∙ fields_read d c (put_field n v acc) qs (Fresh-put n v d acc absent f)
        ∙ ap (λ e. ok (object e)) (append_fields-put n v acc d new)

    pub filled_read :
        (d : Fields) (c : NamespaceContext)
        → IsFilled d
        → ArePlain o d
        → read o c other (body d) undefined ≡ ok (object d)
    filled_read no_field c filled q = absurd filled
    filled_read (field n v d) c filled (name, absent, q, qs) =
        any_read v n (body d) c undefined no_field (place_first n) q name
        ∙ fields_read d c (field n v no_field) qs
            (Fresh-put n v d no_field absent (Fresh-nothing d))
