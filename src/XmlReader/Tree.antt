-- ===== src/XmlReader/Tree.antt =====
-- The events that the sax parser reports for the content of an element, and how `xmlToJson` of
-- src/parser/xmlHandler.js reads that content, written without a stack.
use strong_soap.Common.{
  String, Bool, ◌≡◌, refl, ◌∙◌, some, true, false, is_text, if◌then◌else◌, Option-cases, inl, inr,
  List, [], ◌∷◌,
}
use strong_soap.Common.Dict.{Dict, put}
use strong_soap.Common.Result.{Result, ok, throw, diverge, ◌>>=◌}
use strong_soap.QName.{parse, null}
use strong_soap.NsContext.{
  NamespaceContext, NamespaceScope, add_namespace, get_namespace_uri, undeclared, pop_context,
}
use strong_soap.Descriptor.{Item}
use strong_soap.XmlReader.Values.{Json}
use strong_soap.XmlReader.{
  Options, Frame, state, Event, opened, closed, text_read, new_frame, entered, open_tag, close_tag,
  on_text, text_value, place, is_many_item, handle, run, register_namespaces, declared_prefix,
}

-- The content of an element: texts and elements, each before what follows it.
pub data Content : Type 0 where
  nothing : Content
  chars : String → Content → Content
  element : (name : String) (attrs : Dict String) (inner : Content) (rest : Content) → Content

-- The events of a content in front of others.
abbrev pub events : Content → List Event → List Event
events nothing es = es
events (chars t rest) es = text_read t ∷ events rest es
events (element name attrs inner rest) es =
    opened name attrs ∷ events inner (closed name ∷ events rest es)

-- What the value of an element becomes by its content: each inner element is read in its own
-- namespaces and then placed.
unfoldable pub read : Options → NamespaceContext → Item → Content → Json → Result Json
read options c described nothing v = ok v
read options c described (chars t rest) v =
    read options c described rest (text_value options t described v)
read options c described (element name attrs inner rest) v = do
  frame ← new_frame options (entered c attrs) described name attrs
  w ← read options (entered c attrs) frame.described inner frame.value
  q ← parse (some name) null
  v' ← place (is_many_item frame.described) q.name w v
  read options c described rest v'

-- Registering namespaces changes no scope but the innermost.
either_scope :
    (b : Bool) (s t : NamespaceScope) (c : NamespaceContext)
    → (s' : NamespaceScope) × ((if◌then◌else◌ {A = NamespaceContext × Bool} b
          ((s ∷ c), false)
          ((t ∷ c), true)).0
        ≡ s' ∷ c)
either_scope true s t c = (s, refl)
either_scope false s t c = (t, refl)

add_namespace-scope :
    (s : NamespaceScope) (c : NamespaceContext) (p v : String)
    → (s' : NamespaceScope) × ((add_namespace (s ∷ c) p v false).0 ≡ s' ∷ c)
unfolding add_namespace
add_namespace-scope s c p v =
    either_scope (is_text (get_namespace_uri (s ∷ c) p false) v) s
      (record s { namespaces = put p (undeclared p v) s.namespaces }) c

register_namespaces-pop :
    (s : NamespaceScope) (c : NamespaceContext) (attrs : Dict String)
    → (pop_context (register_namespaces (s ∷ c) attrs)).0 ≡ c
unfolding register_namespaces
register_namespaces-pop s c [] = refl
register_namespaces-pop s c ((a, v) ∷ attrs) = elim (Option-cases (declared_prefix a)) [
  | inl e ↦ rw e (register_namespaces-pop s c attrs)
  | inr (p, e) ↦
      let (s', kept) = add_namespace-scope s c p v in
      rw e (rw kept (register_namespaces-pop s' c attrs))
]

pub entered-pop :
    (c : NamespaceContext) (attrs : Dict String) → (pop_context (entered c attrs)).0 ≡ c
unfolding entered
entered-pop c attrs = register_namespaces-pop _ c attrs

-- Two chains of calls that begin alike agree where they agree after every value of the first call.
module _ {ℓ κ} {A : Type ℓ} {D : Type κ} where
  both_chains {μ ν} :
      {B : Type μ} {C : Type ν} (m : Result A) (f : A → Result B) (k : B → Result D)
      (g : A → Result C) (j : C → Result D)
      → ((a : A) → (f a >>= k) ≡ (g a >>= j))
      → ((m >>= f) >>= k) ≡ ((m >>= g) >>= j)
  both_chains (ok a) f k g j h = h a
  both_chains (throw e) f k g j h = refl
  both_chains diverge f k g j h = refl

  one_chain {μ} :
      {C : Type μ} (m : Result A) (f : A → Result D) (g : A → Result C) (j : C → Result D)
      → ((a : A) → f a ≡ (g a >>= j))
      → (m >>= f) ≡ ((m >>= g) >>= j)
  one_chain (ok a) f g j h = h a
  one_chain (throw e) f g j h = refl
  one_chain diverge f g j h = refl

-- The parser's events for a content change the innermost frame's value as `read` says, and neither
-- the frames below nor the namespaces; where `read` throws, so does the run.
pub run-events :
    (options : Options) (x : Content) (es : List Event) (c : NamespaceContext) (top : Frame)
    (below : List Frame)
    → run options (events x es) (state c (top ∷ below)) ≡ (
        read options c top.described x top.value >>= λ v.
        run options es (state c (record top { value = v } ∷ below)))
unfolding run handle open_tag close_tag on_text read
run-events options nothing es c top below = refl
run-events options (chars t rest) es c top below =
    run-events options rest es c
      (record top { value = text_value options t top.described top.value }) below
run-events options (element name attrs inner rest) es c top below =
    both_chains (new_frame options (entered c attrs) top.described name attrs) _ _ _ _ (λ frame.
      run-events options inner (closed name ∷ events rest es) (entered c attrs) frame (top ∷ below)
      ∙ one_chain (read options (entered c attrs) frame.described inner frame.value) _ _ _ (λ w.
        both_chains (parse (some name) null) _ _ _ _ (λ q.
          both_chains (place (is_many_item frame.described) q.name w top.value) _ _ _ _ (λ v.
            rw (entered-pop c attrs)
              (run-events options rest es c (record top { value = v }) below)))))
