-- ===== src/XmlWriter/Element/Scopes.antt =====
-- `jsonToXml` of src/parser/xmlHandler.js and the namespace context: what a call declares is gone when
-- it returns, but for the declarations of an attribute on the element at hand.
use strong_soap.Common.{
  ℕ, zero, suc, Bool, true, false, ◌≡◌, refl, Option, none, some, ◌∷◌, if◌then◌else◌, ◌&&◌, ◌⊎◌,
  inl, inr, ap, arith,
}
use strong_soap.Common.Result.{Error, Result, ok, throw, diverge, ◌>>=◌}
use strong_soap.NsContext.{
  NamespaceContext, NamespaceScope, new_scope, push_context, declare_namespace, get_prefix_mapping,
  PrefixMapping, reserved, mapping,
}
use strong_soap.NsContext.Frames.{Keeps, declare_namespace-Keeps}
use strong_soap.QName.{QName}
use strong_soap.Descriptor.{
  ElementDescriptor, info, content, Item, an_element, an_attribute, a_type, other, qualified,
  unqualified, Form,
}
use strong_soap.XmlReader.Values.{
  Json, undefined, null_value, text, number, date, boolean, sum, array, object, Items, no_item,
  item,
}
use strong_soap.XmlWriter.Values.{Calls, is_nullish, depth}
use strong_soap.XmlWriter.{Handler, Writer, declare_on, add_attributes, uri_of}
use strong_soap.XmlWriter.Element.{
  declare_element, name_by, name_element, start_element, write_nil, write_content, widened,
  write_element, write_items, write_value, json_to_xml, write_document, own_value, own_attributes,
  is_plain,
}
use strong_soap.XmlWriter.Endings.{IsEnding}
use strong_soap.XmlWriter.Element.Fuel.{json_to_xml-Ends}
use strong_soap.Common.Ending.{Ended}
use strong_soap.XmlWriter.Scopes.{
  IsScoped, chain-Keeps, if-Keeps, declare_on-Keeps, write_attribute-IsScoped,
  add_attributes-IsScoped, map_object-IsScoped,
}

write_content-IsScoped :
    (h : Handler) (write : Item → Json → Writer)
    → ((x : Item) (v : Json) → IsScoped (write x v))
    → (e : ElementDescriptor) (v attrs : Json) → IsScoped (write_content h write e v attrs)
unfolding write_content
write_content-IsScoped h write k e v attrs s parents =
    if-Keeps parents (info e).is_simple _ _
      (add_attributes-IsScoped h (some (content e)) attrs s parents)
      (if-Keeps parents (is_nullish v) _ _ (s, refl)
        (if-Keeps parents (is_plain v) _ _
          (chain-Keeps parents (add_attributes h (some (content e)) attrs (s ∷ parents)) _
            (add_attributes-IsScoped h (some (content e)) attrs s parents) (λ u y. (u, refl)))
          (map_object-IsScoped h write k (some (widened h e v)) v attrs s parents)))

declare_element-Keeps :
    (q : QName) (s : NamespaceScope) (parents : NamespaceContext)
    → Keeps parents (declare_element q (s ∷ parents))
unfolding declare_element
declare_element-Keeps q s parents =
    chain-Keeps parents (declare_namespace (s ∷ parents) q.prefix (uri_of q)) _
      (declare_namespace-Keeps s parents q.prefix (uri_of q)) (λ t x. (t, refl))

name_by-Keeps :
    (q : QName) (m : Option PrefixMapping) (s : NamespaceScope) (parents : NamespaceContext)
    → Keeps parents (name_by q m (s ∷ parents))
unfolding name_by
name_by-Keeps q none s parents = declare_element-Keeps q s parents
name_by-Keeps q (some (reserved t)) s parents = (s, refl)
name_by-Keeps q (some (mapping m)) s parents =
    if-Keeps parents m.declared _ _ (s, refl) (declare_element-Keeps q s parents)

name_element-Keeps :
    (f : Form) (q : QName) (s : NamespaceScope) (parents : NamespaceContext)
    → Keeps parents (name_element f q (s ∷ parents))
unfolding name_element
name_element-Keeps unqualified q s parents = (s, refl)
name_element-Keeps qualified q s parents =
    name_by-Keeps q (get_prefix_mapping (s ∷ parents) (uri_of q) false) s parents

write_nil-IsScoped : (e : ElementDescriptor) (v : Json) → IsScoped (write_nil e v)
unfolding write_nil
write_nil-IsScoped e v s parents =
    if-Keeps parents (is_nullish v && (info e).is_nillable) _ _
      (chain-Keeps parents (declare_on _ _ (s ∷ parents)) _ (declare_on-Keeps _ _ s parents)
        (λ t x. (t, refl)))
      (s, refl)

-- The call fails, or ends with the context it was given.
abbrev Returns {ℓ} : {A : Type ℓ} → NamespaceContext → Result (NamespaceContext × A) → Type 0
Returns c (ok (c', a)) = c' ≡ c
Returns c _ = Unit

Returns-Keeps {ℓ} :
    {A : Type ℓ} (s : NamespaceScope) (parents : NamespaceContext)
    (r : Result (NamespaceContext × A))
    → Returns (s ∷ parents) r
    → Keeps parents r
Returns-Keeps s parents (ok (c', a)) e = (s, e)
Returns-Keeps s parents (throw x) e = tt
Returns-Keeps s parents diverge e = tt

-- `popContext` at the end of an element.
popped-Returns {ℓ κ} :
    {A : Type ℓ} {B : Type κ} (c : NamespaceContext) (r : Result (NamespaceContext × A))
    (f : NamespaceContext × A → Result (NamespaceContext × B))
    → Keeps c r
    → ((t : NamespaceScope) (a : A) → Returns c (f (t ∷ c, a)))
    → Returns c (r >>= f)
popped-Returns c (ok (c', a)) f (t, e) k = rw e (k t a)
popped-Returns c (throw x) f h k = tt
popped-Returns c diverge f h k = tt

before-Returns {ℓ κ} :
    {A : Type ℓ} {B : Type κ} (c : NamespaceContext) (m : Result A)
    (f : A → Result (NamespaceContext × B))
    → ((a : A) → Returns c (f a))
    → Returns c (m >>= f)
before-Returns c (ok a) f k = k a
before-Returns c (throw x) f k = tt
before-Returns c diverge f k = tt

then-Returns {ℓ κ} :
    {A : Type ℓ} {B : Type κ} (c : NamespaceContext) (r : Result (NamespaceContext × A))
    (f : NamespaceContext × A → Result (NamespaceContext × B))
    → Returns c r
    → ((a : A) → Returns c (f (c, a)))
    → Returns c (r >>= f)
then-Returns c (ok (c', a)) f e k = rw e (k a)
then-Returns c (throw x) f h k = tt
then-Returns c diverge f h k = tt

abbrev Restores : Writer → Type 0
Restores w = (c : NamespaceContext) → Returns c (w c)

write_element-Restores :
    (h : Handler) (write : Item → Json → Writer)
    → ((x : Item) (v : Json) → IsScoped (write x v))
    → (e : ElementDescriptor) (v : Json) → Restores (write_element h write e v)
unfolding write_element
write_element-Restores h write k e v c =
    popped-Returns c (name_element (info e).form (info e).qname (push_context c)) _
      (name_element-Keeps (info e).form (info e).qname new_scope c)
      (λ t named. before-Returns c (start_element h e (own_value h v)) _ (λ s.
        popped-Returns c (write_nil e s.value (t ∷ c)) _ (write_nil-IsScoped e s.value t c) (λ u x.
          popped-Returns c (write_content h write e s.value (own_attributes h v) (u ∷ c)) _
            (write_content-IsScoped h write k e s.value (own_attributes h v) u c) (λ w y. refl))))

write_items-Restores :
    (write : Json → Writer)
    → ((v : Json) → Restores (write v))
    → (xs : Items) → Restores (write_items write xs)
unfolding write_items
write_items-Restores write k no_item c = refl
write_items-Restores write k (item v xs) c =
    then-Returns c (write v c) _ (k v c) (λ x.
      then-Returns c (write_items write xs c) _ (write_items-Restores write k xs c) (λ y. refl))

if-Restores : (b : Bool) (v w : Writer) → Restores v → Restores w → Restores (if b then v else w)
if-Restores true v w h k = h
if-Restores false v w h k = k

-- The two facts that hold of a recursive call.
abbrev AllScoped : (Item → Json → Writer) → Type 0
AllScoped write = (x : Item) (v : Json) → IsScoped (write x v)

abbrev AllRestore : (Item → Json → Writer) → Type 0
AllRestore write = (e : ElementDescriptor) (v : Json) → Restores (write (an_element e) v)

write_value-Restores :
    (h : Handler) (write : Item → Json → Writer)
    → AllScoped write
    → AllRestore write
    → (e : ElementDescriptor) (v : Json) → Restores (write_value h write e v)
unfolding write_value
write_value-Restores h write k r e (array xs) =
    if-Restores (info e).is_many (write_items (write (an_element e)) xs)
      (write_element h write e (array xs)) (write_items-Restores (write (an_element e)) (r e) xs)
      (write_element-Restores h write k e (array xs))
write_value-Restores h write k r e undefined = write_element-Restores h write k e undefined
write_value-Restores h write k r e null_value = write_element-Restores h write k e null_value
write_value-Restores h write k r e (text t) = write_element-Restores h write k e (text t)
write_value-Restores h write k r e (number t) = write_element-Restores h write k e (number t)
write_value-Restores h write k r e (date t) = write_element-Restores h write k e (date t)
write_value-Restores h write k r e (boolean b) = write_element-Restores h write k e (boolean b)
write_value-Restores h write k r e (sum a b) = write_element-Restores h write k e (sum a b)
write_value-Restores h write k r e (object d) = write_element-Restores h write k e (object d)

step-Scoped :
    (h : Handler) (f : ℕ)
    → AllScoped (json_to_xml h f)
    → AllRestore (json_to_xml h f)
    → AllScoped (json_to_xml h (suc f))
unfolding json_to_xml
step-Scoped h f k r (an_attribute a) v = write_attribute-IsScoped h a v
step-Scoped h f k r (an_element e) v = λ s parents.
    Returns-Keeps s parents (write_value h (json_to_xml h f) e v (s ∷ parents))
      (write_value-Restores h (json_to_xml h f) k r e v (s ∷ parents))
step-Scoped h f k r (a_type t) v = map_object-IsScoped h (json_to_xml h f) k (some t) v undefined
step-Scoped h f k r other v = map_object-IsScoped h (json_to_xml h f) k none v undefined

json_to_xml-Scoped :
    (h : Handler) (f : ℕ) → AllScoped (json_to_xml h f) × AllRestore (json_to_xml h f)
unfolding json_to_xml
json_to_xml-Scoped h zero = ((λ x v s parents. tt), (λ e v c. tt))
json_to_xml-Scoped h (suc f) =
    let (k, r) = json_to_xml-Scoped h f in
    (step-Scoped h f k r, (λ e v. write_value-Restores h (json_to_xml h f) k r e v))

outcome-lem :
    (c : NamespaceContext) (r : Result (NamespaceContext × Calls))
    → Returns c r
    → Ended r
    → ((calls : Calls) × (r ≡ ok (c, calls))) ⊎ ((x : Error) × (r ≡ throw x))
outcome-lem c (ok (c', calls)) k e = inl (calls, ap (λ d. ok (d, calls)) k)
outcome-lem c (throw x) k e = inr (x, refl)
outcome-lem c diverge k e = absurd e

-- Writing an element's value throws, or ends with the namespace context it was given, whatever it
-- declares for the names, the attributes, xsi:nil, xsi:type and the children within, where the
-- descriptions of types end and the restrictions end and make no value deeper.
pub write_document-context :
    (h : Handler) (c : NamespaceContext) (e : ElementDescriptor) (v : Json)
    → IsEnding h
    → ((calls : Calls) × (write_document h (some c) (an_element e) v ≡ ok (c, calls)))
      ⊎ ((x : Error) × (write_document h (some c) (an_element e) v ≡ throw x))
unfolding write_document
write_document-context h c e v ending =
    outcome-lem c (json_to_xml h (suc (depth v)) (an_element e) v c)
      ((json_to_xml-Scoped h (suc (depth v))).1 e v c)
      (json_to_xml-Ends h ending (suc (depth v)) (an_element e) v (omega arith) c)
