-- ===== src/Operation/Modes.antt =====
-- When `getMode` of src/parser/wsdl/operation.js answers what.
use strong_soap.Common.{
  ℕ, suc, ◌+◌, ◌≤◌, String, ◌≡◌, ◌↔◌, refl, ap, ◌∙◌, Bool, true, false, ◌&&◌, ◌==◌, nat_eq, Option,
  none, some, [], ◌∷◌, arith, inl, inr, All, length, Bool-cases, eq_iff, eq_refl, if◌then◌else◌,
}
use strong_soap.Common.Dict.{Dict}
use strong_soap.Common.Result.{Result, ok, assertion, Error, value-Chain}
use strong_soap.Operation.{
  PartElement, Part, Operation, Style, document_literal_wrapped, document_literal, document_encoded,
  rpc_encoded, rpc_literal, parts_of, is_element_part, count_parts, is_named, input_use, part_error,
  output_mode, input_mode, literal_mode, get_mode,
}

-- Every part has an element and no type.
abbrev pub AreElements : Dict Part → Type 0
AreElements parts = All (λ e. is_element_part e.1 ≡ true) parts

abbrev last_element : Dict Part → Option PartElement → Option PartElement
last_element [] last = last
last_element ((k, p) ∷ parts) last = last_element parts p.element

count_parts_total :
    (e : Error) (parts : Dict Part) (n : ℕ) (last : Option PartElement)
    → AreElements parts
    → count_parts e parts n last ≡ ok (n + length parts, last_element parts last)
unfolding count_parts
count_parts_total e [] n last h = ap (λ m. ok (m, last)) (omega arith)
count_parts_total e ((k, p) ∷ parts) n last (h, hs) = rw h (
    count_parts_total e parts (suc n) p.element hs
    ∙ ap (λ m. ok (m, last_element parts p.element)) (omega arith))

count_parts_sound :
    (e : Error) (parts : Dict Part) (n : ℕ) (last : Option PartElement) {r : ℕ × Option PartElement}
    → count_parts e parts n last ≡ ok r
    → AreElements parts
unfolding count_parts
count_parts_sound e [] n last h = tt
count_parts_sound e ((k, p) ∷ parts) n last {r} h = elim (Bool-cases (is_element_part p)) [
  | inl good ↦ (good, count_parts_sound e parts (suc n) p.element {r = r} (ground arith))
  | inr bad ↦ absurd (ground arith)
]

-- The loop counts one part: it is the only one, and its element is the last one.
abbrev pub IsOnly : Dict Part → Option PartElement → Type 0
IsOnly parts last =
    (k : String) × (p : Part) × (parts ≡ (k, p) ∷ [])
    × (p.element ≡ last)
    × (is_element_part p ≡ true)

count_parts_lower :
    (e : Error) (parts : Dict Part) (n m : ℕ) (last last' : Option PartElement)
    → count_parts e parts n last ≡ ok (m, last')
    → n ≤ m
unfolding count_parts
count_parts_lower e [] n m last last' h = ground arith
count_parts_lower e ((k, p) ∷ parts) n m last last' h =
    ground (arith, count_parts_lower e parts (suc n) m p.element last')

count_parts-IsOnly :
    (e : Error) (parts : Dict Part) (last : Option PartElement)
    → count_parts e parts 0 none ≡ ok (1, last)
    → IsOnly parts last
unfolding count_parts
count_parts-IsOnly e [] last h = absurd (ground arith)
count_parts-IsOnly e ((k, p) ∷ []) last h = elim (Bool-cases (is_element_part p)) [
  | inl good ↦ (k, p, refl, ground arith, good)
  | inr bad ↦ absurd (ground arith)
]
count_parts-IsOnly e ((k, p) ∷ ((j, q) ∷ parts)) last h =
    absurd (ground (arith, count_parts_lower e parts 2 1 q.element last))

IsOnly-count_parts :
    (e : Error) (parts : Dict Part) (last : Option PartElement)
    → IsOnly parts last
    → count_parts e parts 0 none ≡ ok (1, last)
unfolding count_parts
IsOnly-count_parts e parts last (k, p, one, el, good) = rw one (rw good (ap (λ x. ok (1, x)) el))

-- The conditions for the mode documentLiteralWrapped: style document, use literal, one input part
-- that is an element named like the operation, and one output part that is an element.
pub record IsWrapped (o : Operation) : Type 0 where
  pub style : o.style ≡ "document"
  pub literal : input_use o ≡ "literal"
  pub named : PartElement
  pub input : IsOnly (parts_of o.input) (some named)
  pub same_name : named.name ≡ o.name
  pub other : Option PartElement
  pub output : IsOnly (parts_of o.output) other

IsWrapped-complete : (o : Operation) → IsWrapped o → get_mode o ≡ ok (some document_literal_wrapped)
unfolding get_mode literal_mode input_mode output_mode
IsWrapped-complete o w =
    let counted = IsOnly-count_parts part_error (parts_of o.input) (some w.named) w.input in
    let out = IsOnly-count_parts assertion (parts_of o.output) w.other w.output in
    rw w.style (rw w.literal (rw counted (rw w.same_name (rw (eq_refl o.name) (rw out refl)))))

named_element :
    (n : String) (last : Option PartElement)
    → is_named n last ≡ true
    → (e : PartElement) × (last ≡ some e) × (e.name ≡ n)
named_element n none h = absurd (cc h)
named_element n (some e) h = (e, refl, (eq_iff e.name n).0 h)

WrappedParts : Operation → Type 0
WrappedParts o =
    (e : PartElement) × (x : Option PartElement) × IsOnly (parts_of o.input) (some e)
    × (e.name ≡ o.name)
    × IsOnly (parts_of o.output) x

output_sound :
    (o : Operation)
    → output_mode o ≡ ok (some document_literal_wrapped)
    → (x : Option PartElement) × IsOnly (parts_of o.output) x
unfolding output_mode
output_sound o h =
    let c =
      value-Chain {first = count_parts assertion (parts_of o.output) 0 none}
        (λ r. ok (if nat_eq r.0 1 then some document_literal_wrapped else some document_literal))
        h in
    let one : c.middle.0 ≡ 1 = ground (arith, c.left) in
    (
      c.middle.1,
      count_parts-IsOnly assertion (parts_of o.output) c.middle.1
          (c.reached ∙ ap (λ k. ok (k, c.middle.1)) one),
    )

kept :
    (b : Bool) (r : Result (Option Style))
    → (if b then r else ok (some document_literal)) ≡ ok (some document_literal_wrapped)
    → (b ≡ true) × (r ≡ ok (some document_literal_wrapped))
kept true r h = (refl, h)
kept false r h = absurd (cc h)

input_sound :
    (o : Operation) (n : ℕ) (last : Option PartElement)
    → count_parts part_error (parts_of o.input) 0 none ≡ ok (n, last)
    → input_mode o (n, last) ≡ ok (some document_literal_wrapped)
    → WrappedParts o
unfolding input_mode WrappedParts
input_sound o n last counted h =
    let (tests, inner) = kept (nat_eq n 1 && is_named o.name last) (output_mode o) h in
    let one : n ≡ 1 = ground (arith, tests) in
    let (e, is_e, same) = named_element o.name last (ground (arith, tests)) in
    let (x, out) = output_sound o inner in
    let only =
      count_parts-IsOnly part_error (parts_of o.input) (some e)
        (counted ∙ ap (λ k. ok (k, last)) one ∙ ap (λ l. ok (1, l)) is_e) in
    (e, x, only, same, out)

literal_sound :
    (o : Operation) → literal_mode o ≡ ok (some document_literal_wrapped) → WrappedParts o
unfolding literal_mode
literal_sound o h =
    let c =
      value-Chain {first = count_parts part_error (parts_of o.input) 0 none} (input_mode o) h in
    input_sound o c.middle.0 c.middle.1 c.reached c.left

chosen :
    (a b c d : Bool) (r : Result (Option Style))
    → (if a
        then r
        else if b
        then ok (some document_encoded)
        else if c
        then ok (some rpc_encoded)
        else if d
        then ok (some rpc_literal)
        else ok none)
      ≡ ok (some document_literal_wrapped)
    → (a ≡ true) × (r ≡ ok (some document_literal_wrapped))
chosen true b c d r h = (refl, h)
chosen false true c d r h = absurd (cc h)
chosen false false true d r h = absurd (cc h)
chosen false false false true r h = absurd (cc h)
chosen false false false false r h = absurd (cc h)

both_true : (s t u v : String) → (s == t && u == v) ≡ true → (s ≡ t) × (u ≡ v)
both_true s t u v h = ground (arith, eq_iff s t, eq_iff u v)

IsWrapped-sound : (o : Operation) → get_mode o ≡ ok (some document_literal_wrapped) → IsWrapped o
unfolding get_mode WrappedParts
IsWrapped-sound o h =
    let (tests, inner) =
      chosen (o.style == "document" && input_use o == "literal")
        (o.style == "document" && input_use o == "encoded")
        (o.style == "rpc" && input_use o == "encoded")
        (o.style == "rpc" && input_use o == "literal") (literal_mode o) h in
    let (s, l) = both_true o.style "document" (input_use o) "literal" tests in
    let (e, x, i, n, out) = literal_sound o inner in
    record { style = s; literal = l; named = e; input = i; same_name = n; other = x; output = out }

-- `getMode` answers documentLiteralWrapped exactly under the conditions of `IsWrapped`.
pub get_mode-IsWrapped_iff :
    (o : Operation) → (get_mode o ≡ ok (some document_literal_wrapped)) ↔ IsWrapped o
get_mode-IsWrapped_iff o = (IsWrapped-sound o, IsWrapped-complete o)

abbrev Answers : Result (Option Style) → Type 0
Answers r = (m : Option Style) × (r ≡ ok m)

if-Answers :
    (b : Bool) (r s : Result (Option Style)) → Answers r → Answers s → Answers (if b then r else s)
if-Answers true r s h k = h
if-Answers false r s h k = k

literal_total :
    (o : Operation)
    → AreElements (parts_of o.input)
    → AreElements (parts_of o.output)
    → Answers (literal_mode o)
unfolding literal_mode input_mode output_mode
literal_total o h k =
    let counted = count_parts_total part_error (parts_of o.input) 0 none h in
    let out = count_parts_total assertion (parts_of o.output) 0 none k in
    rw counted (rw out (if-Answers _ _ _ (_, refl) (_, refl)))

-- Where all input and output parts are elements, `getMode` does not throw.
pub get_mode_total :
    (o : Operation)
    → AreElements (parts_of o.input)
    → AreElements (parts_of o.output)
    → (m : Option Style) × (get_mode o ≡ ok m)
unfolding get_mode
get_mode_total o h k = if-Answers _ _ _ (literal_total o h k) (
    if-Answers (o.style == "document" && input_use o == "encoded") _ _ (some document_encoded, refl)
      (if-Answers (o.style == "rpc" && input_use o == "encoded") _ _ (some rpc_encoded, refl)
        (if-Answers (o.style == "rpc" && input_use o == "literal") _ _ (some rpc_literal, refl)
          (none, refl))))
