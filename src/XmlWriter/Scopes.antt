-- ===== src/XmlWriter/Scopes.antt =====
-- The writers of attributes and objects of src/parser/xmlHandler.js and the scopes of the context.
use strong_soap.Common.{
  String, Bool, true, false, refl, Option, none, some, List, [], ◌∷◌, if◌then◌else◌, ◌==◌,
}
use strong_soap.Common.Result.{Result, ok, throw, diverge, ◌>>=◌}
use strong_soap.NsContext.{NamespaceContext, NamespaceScope, declare_namespace}
use strong_soap.NsContext.Frames.{Keeps, declare_namespace-Keeps}
use strong_soap.QName.{QName, parse, null}
use strong_soap.Descriptor.{AttributeDescriptor, TypeDescriptor, Item, qualified, unqualified, Form}
use strong_soap.XmlReader.Values.{
  Json, undefined, null_value, text, number, date, boolean, sum, array, object, Fields, no_field,
  field, get_field,
}
use strong_soap.XmlWriter.Values.{sort_keys}
use strong_soap.XmlWriter.{
  Handler, Writer, write_nothing, ◌and_then◌, declare_on, attribute_by, write_attribute,
  xsi_type_name, write_xsi_type, write_known, write_fields, add_attributes, get_xsi_type,
  write_property, write_found, write_children, child_descriptor, map_object, attributes_of,
  elements_of, element_names, last_attribute, last_element, indexed, uri_of, or_type,
}

-- The call fails, or changes no scope but the innermost.
abbrev pub IsScoped : Writer → Type 0
IsScoped w = (s : NamespaceScope) (parents : NamespaceContext) → Keeps parents (w (s ∷ parents))

pub chain-Keeps {ℓ κ} :
    {A : Type ℓ} {B : Type κ} (parents : NamespaceContext) (m : Result (NamespaceContext × A))
    (f : NamespaceContext × A → Result (NamespaceContext × B))
    → Keeps parents m
    → ((t : NamespaceScope) (a : A) → Keeps parents (f (t ∷ parents, a)))
    → Keeps parents (m >>= f)
chain-Keeps parents (ok (c, a)) f (t, e) k = rw e (k t a)
chain-Keeps parents (throw x) f h k = tt
chain-Keeps parents diverge f h k = tt

-- A call without the context in front.
pub before-Keeps {ℓ κ} :
    {A : Type ℓ} {B : Type κ} (parents : NamespaceContext) (m : Result A)
    (f : A → Result (NamespaceContext × B))
    → ((a : A) → Keeps parents (f a))
    → Keeps parents (m >>= f)
before-Keeps parents (ok a) f k = k a
before-Keeps parents (throw x) f k = tt
before-Keeps parents diverge f k = tt

pub if-Keeps {ℓ} :
    {A : Type ℓ} (parents : NamespaceContext) (b : Bool) (r s : Result (NamespaceContext × A))
    → Keeps parents r
    → Keeps parents s
    → Keeps parents (if b then r else s)
if-Keeps parents true r s h k = h
if-Keeps parents false r s h k = k

if-IsScoped : (b : Bool) (v w : Writer) → IsScoped v → IsScoped w → IsScoped (if b then v else w)
if-IsScoped true v w h k = h
if-IsScoped false v w h k = k

pub nothing-IsScoped : IsScoped write_nothing
nothing-IsScoped s parents = (s, refl)

and_then-IsScoped : (a b : Writer) → IsScoped a → IsScoped b → IsScoped (a and_then b)
and_then-IsScoped a b h k s parents =
    chain-Keeps parents (a (s ∷ parents)) _ (h s parents)
      (λ t x. chain-Keeps parents (b (t ∷ parents)) _ (k t parents) (λ u y. (u, refl)))

pub declare_on-Keeps :
    (prefix : Option String) (u : String) (s : NamespaceScope) (parents : NamespaceContext)
    → Keeps parents (declare_on prefix u (s ∷ parents))
unfolding declare_on
declare_on-Keeps prefix u s parents =
    chain-Keeps parents (declare_namespace (s ∷ parents) prefix u) _
      (declare_namespace-Keeps s parents prefix u) (λ t x. (t, refl))

attribute_by-IsScoped : (f : Form) (q : QName) (v : Json) → IsScoped (attribute_by f q v)
unfolding attribute_by
attribute_by-IsScoped unqualified q v s parents = (s, refl)
attribute_by-IsScoped qualified q v s parents =
    chain-Keeps parents (declare_on q.prefix (uri_of q) (s ∷ parents)) _
      (declare_on-Keeps q.prefix (uri_of q) s parents) (λ t x. (t, refl))

pub write_attribute-IsScoped :
    (h : Handler) (a : AttributeDescriptor) (v : Json) → IsScoped (write_attribute h a v)
unfolding write_attribute
write_attribute-IsScoped h a v = attribute_by-IsScoped a.form a.qname _

write_xsi_type-IsScoped : (h : Handler) (v : Json) → IsScoped (write_xsi_type h v)
unfolding write_xsi_type
write_xsi_type-IsScoped h v s parents = before-Keeps parents (xsi_type_name h v) _ (λ q.
    chain-Keeps parents (declare_on _ _ (s ∷ parents)) _ (declare_on-Keeps _ _ s parents) (λ t x.
      chain-Keeps parents (declare_on _ _ (t ∷ parents)) _ (declare_on-Keeps _ _ t parents)
        (λ u y. (u, refl))))

write_known-IsScoped :
    (h : Handler) (a : Option AttributeDescriptor) (p : String) (v : Json)
    → IsScoped (write_known h a p v)
unfolding write_known
write_known-IsScoped h (some a) p v = write_attribute-IsScoped h a v
write_known-IsScoped h none p v =
    if-IsScoped h.ignore_unknown_properties write_nothing _ nothing-IsScoped (λ s parents.
      before-Keeps parents (parse (some p) null) _ (λ q.
        write_attribute-IsScoped h (record { qname = q; type = none; form = unqualified }) v s
          parents))

write_fields-IsScoped :
    (h : Handler) (known : List AttributeDescriptor) (d : Fields)
    → IsScoped (write_fields h known d)
unfolding write_fields
write_fields-IsScoped h known no_field = nothing-IsScoped
write_fields-IsScoped h known (field p v d) =
    and_then-IsScoped
      (if p == h.options.xsi_type_key
        then write_xsi_type h v
        else write_known h (last_attribute known p) p v)
      (write_fields h known d)
      (if-IsScoped (p == h.options.xsi_type_key) (write_xsi_type h v)
        (write_known h (last_attribute known p) p v) (write_xsi_type-IsScoped h v)
        (write_known-IsScoped h (last_attribute known p) p v))
      (write_fields-IsScoped h known d)

pub add_attributes-IsScoped :
    (h : Handler) (t : Option TypeDescriptor) (attrs : Json) → IsScoped (add_attributes h t attrs)
unfolding add_attributes
add_attributes-IsScoped h t (object d) = write_fields-IsScoped h (attributes_of t) d
add_attributes-IsScoped h t (array xs) = write_fields-IsScoped h (attributes_of t) (indexed 0 xs)
add_attributes-IsScoped h t undefined = nothing-IsScoped
add_attributes-IsScoped h t null_value = nothing-IsScoped
add_attributes-IsScoped h t (text x) = nothing-IsScoped
add_attributes-IsScoped h t (number x) = nothing-IsScoped
add_attributes-IsScoped h t (date x) = nothing-IsScoped
add_attributes-IsScoped h t (boolean b) = nothing-IsScoped
add_attributes-IsScoped h t (sum a b) = nothing-IsScoped

-- What `mapObject` asks of its recursive call.
module _ (h : Handler) (write : Item → Json → Writer)
    (write-IsScoped : (x : Item) (v : Json) → IsScoped (write x v)) where
  found-IsScoped : (x : Option Item) (v : Json) → IsScoped (write_found write x v)
  found-IsScoped none v = nothing-IsScoped
  found-IsScoped (some x) v = write-IsScoped x v

  property-IsScoped :
      (t : Option TypeDescriptor) (p : String) (v : Option Json)
      → IsScoped (write_property h write t p v)
  property-IsScoped t p none = nothing-IsScoped
  property-IsScoped t p (some v) = λ s parents.
      before-Keeps parents
        (child_descriptor h (last_element (elements_of t) p) (last_attribute (attributes_of t) p) p
          v)
        _ (λ x. found-IsScoped x v s parents)

  children-IsScoped :
      (t : Option TypeDescriptor) (d : Fields) (names : List String)
      → IsScoped (write_children h write t d names)
  unfolding write_children
  children-IsScoped t d [] = nothing-IsScoped
  children-IsScoped t d (p ∷ names) =
      and_then-IsScoped
        (if p == h.options.attributes_key
          then write_nothing
          else write_property h write t p (get_field p d))
        (write_children h write t d names)
        (if-IsScoped (p == h.options.attributes_key) write_nothing
          (write_property h write t p (get_field p d)) nothing-IsScoped
          (property-IsScoped t p (get_field p d)))
        (children-IsScoped t d names)

  pub map_object-IsScoped :
      (t : Option TypeDescriptor) (v attrs : Json) → IsScoped (map_object h write t v attrs)
  unfolding map_object
  map_object-IsScoped t undefined attrs = nothing-IsScoped
  map_object-IsScoped t null_value attrs = nothing-IsScoped
  map_object-IsScoped t (object d) attrs = λ s parents.
      before-Keeps parents (get_xsi_type h attrs) _ (λ x.
        and_then-IsScoped
          (write_children h write (or_type x t) d
            (sort_keys d (element_names (elements_of (or_type x t)))))
          (add_attributes h (or_type x t) attrs) (children-IsScoped (or_type x t) d _)
          (add_attributes-IsScoped h (or_type x t) attrs) s parents)
  map_object-IsScoped t (array xs) attrs = λ s parents.
      before-Keeps parents (get_xsi_type h attrs) _
        (λ x. add_attributes-IsScoped h (or_type x t) attrs s parents)
  map_object-IsScoped t (text x) attrs = λ s parents. (s, refl)
  map_object-IsScoped t (number x) attrs = λ s parents. (s, refl)
  map_object-IsScoped t (date x) attrs = λ s parents. (s, refl)
  map_object-IsScoped t (boolean b) attrs = λ s parents. (s, refl)
  map_object-IsScoped t (sum a b) attrs = λ s parents. (s, refl)
