-- ===== src/Restriction/Texts.antt =====
-- src/parser/xsd/restriction.js: which texts a restriction lets pass.
use strong_soap.Common.{
  ℕ, String, Bool, true, not, ◌&&◌, ◌||◌, ◌==◌, ◌≡◌, Option, none, some, List, [], ◌∷◌,
  if◌then◌else◌, nat_eq, contains,
}
use strong_soap.Common.Result.{Result, ok, throw, error}
use strong_soap.XmlReader.Values.{Json, text, trim}
use strong_soap.Restriction.{
  Facets, Conversions, text_below, Checking, fraction_digit_count, total_digit_count, text_length,
  replaced, squeezed,
}

-- A facet that is missing lets everything pass.
abbrev pub passes : Option String → (String → Bool) → Bool
passes none test = true
passes (some t) test = test t

-- The text behind the facet whiteSpace.
abbrev pub spaced_text : Option String → String → String
spaced_text none s = s
spaced_text (some w) s =
    if w == "replace"
    then replaced s
    else if w == "collapse"
    then trim (squeezed (replaced s))
    else s

abbrev pub in_list : List String → String → Bool
in_list [] s = true
in_list (t ∷ l) s = contains s (t ∷ l)

-- What the facets ask of a text: its place in the order of texts, its digits and its length as it is
-- given, and the pattern and the enumeration behind whiteSpace.
abbrev pub is_accepted : Conversions → Facets → String → Bool
is_accepted k f s =
    let u = spaced_text f.white_space s in
    passes f.min_exclusive (λ t. text_below t s)
    && (passes f.min_inclusive (λ t. not (text_below s t))
        && (passes f.max_exclusive (λ t. text_below s t)
            && (passes f.max_inclusive (λ t. not (text_below t s))
                && (passes f.fraction_digits (λ t. not (k.count_above (fraction_digit_count s) t))
                    && (passes f.total_digits (λ t. not (k.count_above (total_digit_count s) t))
                        && (passes f.exact_length (λ t. k.count_is (text_length s) t)
                            && (passes f.max_length (λ t. not (k.count_above (text_length s) t))
                                && (passes f.min_length (λ t. not (k.count_below (text_length s) t))
                                    && (passes f.pattern (λ t. (t == "") || k.matches t (text u))
                                        && in_list f.enumeration u)))))))))

abbrev text_of : String → ℕ → Checking
text_of s n = record { value = text s; violations = n }

-- A step returns the text, and the violations stay none exactly where its facet is passed.
abbrev Steps : String → ℕ → Bool → Result Checking → Type 0
Steps u n b r = (m : ℕ) × ((r ≡ ok (text_of u m)) × (nat_eq m 0 ≡ (b && nat_eq n 0)))

abbrev pub refusal : Result Json
refusal = throw (error "The field %s cannot have value %s due to the violations: %s")

-- The rest of the code returns the text exactly where the facets that are left are passed.
abbrev EndsWith : String → ℕ → Bool → Result Json → Type 0
EndsWith v n b r = r ≡ (if b && nat_eq n 0 then ok (text v) else refusal)
