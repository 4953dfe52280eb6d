-- ===== src/Restriction/Enforcing.antt =====
-- src/parser/xsd/restriction.js: enforce ends and makes no value deeper, as src/parser/xmlHandler.js
-- relies on where it writes a value.
use mathlib.Core.Path.{subst}
use strong_soap.Common.{
  ℕ, String, Bool, true, false, not, ◌||◌, ◌==◌, ◌≡◌, ◌≤◌, ap, Option, none, some, List, [], ◌∷◌,
  if◌then◌else◌, nat_eq, arith,
}
use strong_soap.Common.Result.{Error, Result, ok, throw, diverge, ◌>>=◌}
use strong_soap.Common.Ending.{Ended}
use strong_soap.NsContext.{NamespaceContext}
use strong_soap.QName.{QName}
use strong_soap.Descriptor.{JsType, js_string, js_boolean, js_number, js_date, Item}
use strong_soap.XmlReader.Values.{
  Json, undefined, null_value, text, number, date, boolean, sum, array, object,
}
use strong_soap.XmlWriter.{Handler}
use strong_soap.XmlWriter.Values.{depth}
use strong_soap.XmlWriter.Endings.{Shallow}
use strong_soap.XmlWriter.Element.{write_document}
use strong_soap.XmlWriter.Element.Fuel.{write_document-Ended}
use strong_soap.Restriction.{
  Facets, Conversions, Checking, violated, when_there, check_base, check_fraction, check_total,
  check_length, check_space, spaced, check_pattern, check_enumeration, settle, enforce, is_below,
  is_at_most, is_at_least, is_above,
}

-- A step throws, or its value is no deeper than the bound.
abbrev Fits : ℕ → Result Checking → Type 0
Fits n (ok c) = depth c.value ≤ n
Fits n (throw x) = Unit
Fits n diverge = ⊥

abbrev FitsValue : ℕ → Result Json → Type 0
FitsValue n (ok v) = depth v ≤ n
FitsValue n (throw x) = Unit
FitsValue n diverge = ⊥

chain-FitsValue :
    (n : ℕ) (r : Result Checking) (f : Checking → Result Json)
    → Fits n r
    → ((c : Checking) → depth c.value ≤ n → FitsValue n (f c))
    → FitsValue n (r >>= f)
chain-FitsValue n (ok c) f h k = k c h
chain-FitsValue n (throw x) f h k = tt
chain-FitsValue n diverge f h k = absurd h

if-Fits :
    (b : Bool) (n : ℕ) (r s : Result Checking) → Fits n r → Fits n s → Fits n (if b then r else s)
if-Fits true n r s h k = h
if-Fits false n r s h k = k

when_there-Fits :
    (n : ℕ) (o : Option String) (test : String → Bool) (c : Checking)
    → depth c.value ≤ n
    → Fits n (when_there o test c)
when_there-Fits n none test c h = h
when_there-Fits n (some t) test c h = h

check_base-Fits :
    (k : Conversions) (base : Option JsType) (v : Json) → Fits (depth v) (check_base k base v)
unfolding check_base depth
check_base-Fits k none v = omega arith
check_base-Fits k (some js_boolean) v = omega arith
check_base-Fits k (some js_number) v = omega arith
check_base-Fits k (some js_date) v = omega arith
check_base-Fits k (some js_string) v = omega arith

check_fraction-Fits :
    (n : ℕ) (k : Conversions) (o : Option String) (v : Json) (m : ℕ)
    → depth v ≤ n
    → Fits n (check_fraction k o (record { value = v; violations = m }))
unfolding check_fraction depth
check_fraction-Fits n k none v m h = h
check_fraction-Fits n k (some t) (number s) m h = omega arith
check_fraction-Fits n k (some t) (text s) m h = h
check_fraction-Fits n k (some t) undefined m h = h
check_fraction-Fits n k (some t) null_value m h = h
check_fraction-Fits n k (some t) (date s) m h = h
check_fraction-Fits n k (some t) (boolean b) m h = h
check_fraction-Fits n k (some t) (sum a b) m h = h
check_fraction-Fits n k (some t) (array xs) m h = h
check_fraction-Fits n k (some t) (object d) m h = h

check_total-Fits :
    (n : ℕ) (k : Conversions) (o : Option String) (v : Json) (m : ℕ)
    → depth v ≤ n
    → Fits n (check_total k o (record { value = v; violations = m }))
unfolding check_total depth
check_total-Fits n k none v m h = h
check_total-Fits n k (some t) (number s) m h = fixed-lem (k.count_above (k.integer_digits s) t)
  where
    fixed-lem :
        (b : Bool)
        → depth
            (if b then violated true (record { value = number s; violations = m }) else record {
              value = text (k.to_fixed_rest s t (k.integer_digits s));
              violations = m;
            }).value
          ≤ n
    fixed-lem true = omega arith
    fixed-lem false = omega arith
check_total-Fits n k (some t) (text s) m h = h
check_total-Fits n k (some t) undefined m h = h
check_total-Fits n k (some t) null_value m h = h
check_total-Fits n k (some t) (date s) m h = h
check_total-Fits n k (some t) (boolean b) m h = h
check_total-Fits n k (some t) (sum a b) m h = h
check_total-Fits n k (some t) (array xs) m h = h
check_total-Fits n k (some t) (object d) m h = h

check_length-Fits :
    (n : ℕ) (o : Option String) (b : Bool) (test : ℕ → String → Bool) (v : Json) (m : ℕ)
    → depth v ≤ n
    → Fits n (check_length o b test (record { value = v; violations = m }))
unfolding check_length
check_length-Fits n none b test v m h = h
check_length-Fits n (some t) b test undefined m h = tt
check_length-Fits n (some t) b test null_value m h = tt
check_length-Fits n (some t) b test (text s) m h = h
check_length-Fits n (some t) b test (number s) m h = h
check_length-Fits n (some t) b test (date s) m h = h
check_length-Fits n (some t) b test (boolean x) m h = h
check_length-Fits n (some t) b test (sum x y) m h = h
check_length-Fits n (some t) b test (array xs) m h = h
check_length-Fits n (some t) b test (object d) m h = h

spaced-Fits :
    (n : ℕ) (w : String) (v : Json) (m : ℕ)
    → Fits n (spaced w v >>= λ u. ok (record { value = u; violations = m }))
unfolding depth
spaced-Fits n w (text s) m = omega arith
spaced-Fits n w undefined m = tt
spaced-Fits n w null_value m = tt
spaced-Fits n w (number s) m = tt
spaced-Fits n w (date s) m = tt
spaced-Fits n w (boolean x) m = tt
spaced-Fits n w (sum x y) m = tt
spaced-Fits n w (array xs) m = tt
spaced-Fits n w (object d) m = tt

check_space-Fits :
    (n : ℕ) (o : Option String) (c : Checking) → depth c.value ≤ n → Fits n (check_space o c)
unfolding check_space
check_space-Fits n none c h = h
check_space-Fits n (some w) c h =
    if-Fits ((w == "replace") || (w == "collapse")) n _ _ (spaced-Fits n w c.value c.violations) h

check_pattern-Fits :
    (n : ℕ) (k : Conversions) (o : Option String) (c : Checking)
    → depth c.value ≤ n
    → Fits n (check_pattern k o c)
check_pattern-Fits n k none c h = h
check_pattern-Fits n k (some t) c h = if-Fits (t == "") n _ _ h h

check_enumeration-Fits :
    (n : ℕ) (l : List String) (c : Checking) → depth c.value ≤ n → Fits n (check_enumeration l c)
check_enumeration-Fits n [] c h = h
check_enumeration-Fits n (s ∷ l) c h = h

settled-FitsValue :
    (n : ℕ) (b : Bool) (v : Json) (x : Error)
    → depth v ≤ n
    → FitsValue n (if b then ok v else throw x)
settled-FitsValue n true v x h = h
settled-FitsValue n false v x h = tt

settle-FitsValue : (n : ℕ) (c : Checking) → depth c.value ≤ n → FitsValue n (settle c)
settle-FitsValue n c h = settled-FitsValue n (nat_eq c.violations 0) c.value _ h

-- The steps from the lengths on.
later-lem :
    (k : Conversions) (f : Facets) (n : ℕ) (c6 : Checking)
    → depth c6.value ≤ n
    → FitsValue n (
        check_length f.exact_length true (λ m t. not (k.count_is m t)) c6 >>= λ c7.
        check_length f.max_length false k.count_above c7 >>= λ c8.
        check_length f.min_length false k.count_below c8 >>= λ c9.
        check_space f.white_space c9 >>= λ c10. check_pattern k f.pattern c10 >>= λ c11.
        check_enumeration f.enumeration c11 >>= λ c12. settle c12)
later-lem k f n c6 h6 =
    chain-FitsValue n _ _ (check_length-Fits n f.exact_length true _ c6.value c6.violations h6)
      (λ c7 h7.
        chain-FitsValue n _ _
          (check_length-Fits n f.max_length false k.count_above c7.value c7.violations h7)
          (λ c8 h8.
            chain-FitsValue n _ _
              (check_length-Fits n f.min_length false k.count_below c8.value c8.violations h8)
              (λ c9 h9. chain-FitsValue n _ _ (check_space-Fits n f.white_space c9 h9) (λ c10 h10.
                chain-FitsValue n _ _ (check_pattern-Fits n k f.pattern c10 h10) (λ c11 h11.
                  chain-FitsValue n _ _ (check_enumeration-Fits n f.enumeration c11 h11)
                    (λ c12 h12. settle-FitsValue n c12 h12))))))

enforce-FitsValue :
    (k : Conversions) (base : Option JsType) (f : Facets) (v : Json)
    → FitsValue (depth v) (enforce k base f v)
unfolding enforce
enforce-FitsValue k base f v =
    let n = depth v in
    chain-FitsValue n _ _ (check_base-Fits k base v) (λ c0 h0.
      chain-FitsValue n _ _ (when_there-Fits n f.min_exclusive (is_at_most k c0.value) c0 h0)
        (λ c1 h1.
          chain-FitsValue n _ _ (when_there-Fits n f.min_inclusive (is_below k c1.value) c1 h1)
            (λ c2 h2.
              chain-FitsValue n _ _
                (when_there-Fits n f.max_exclusive (is_at_least k c2.value) c2 h2)
                (λ c3 h3.
                  chain-FitsValue n _ _
                    (when_there-Fits n f.max_inclusive (is_above k c3.value) c3 h3)
                    (λ c4 h4.
                      chain-FitsValue n _ _
                        (check_fraction-Fits n k f.fraction_digits c4.value c4.violations h4)
                        (λ c5 h5.
                          chain-FitsValue n _ _
                            (check_total-Fits n k f.total_digits c5.value c5.violations h5)
                            (λ c6 h6. later-lem k f n c6 h6)))))))

-- A simple type's restriction: the JavaScript type of its base, and its facets.
abbrev pub Restricted : Type 0
Restricted = Option JsType × Facets

abbrev pub enforcing : Conversions → Option Restricted → Option (Json → Result Json)
enforcing k none = none
enforcing k (some (base, f)) = some (enforce k base f)

-- The handler whose restrictions are the schemas'.
abbrev pub restricting : Handler → Conversions → (QName → Option Restricted) → Handler
restricting h k find = record h { restriction = λ q. enforcing k (find q) }

FitsValue-Shallow : (v : Json) (r : Result Json) → FitsValue (depth v) r → Shallow v r
FitsValue-Shallow v (ok w) h = h
FitsValue-Shallow v (throw x) h = tt
FitsValue-Shallow v diverge h = h

restriction_of : Option (Json → Result Json) → Json → Result Json
restriction_of none = λ v. ok v
restriction_of (some f) = f

enforcing-Shallow :
    (k : Conversions) (o : Option Restricted) (f : Json → Result Json)
    → enforcing k o ≡ some f
    → (v : Json) → Shallow v (f v)
unfolding restriction_of
enforcing-Shallow k none f made v = absurd (cc made)
enforcing-Shallow k (some (base, facets)) f made v =
    subst (λ g. Shallow v (g v)) (ap restriction_of made)
      (FitsValue-Shallow v (enforce k base facets v) (enforce-FitsValue k base facets v))

-- With the restrictions that the schemas give to simple types, writing any value by any descriptor
-- returns or throws, in every context, where the descriptions of types end.
pub restricting-Ended :
    (h : Handler) (k : Conversions) (find : QName → Option Restricted)
    (context : Option NamespaceContext) (x : Item) (v : Json)
    → ((q : QName) → Ended (h.described q))
    → Ended (write_document (restricting h k find) context x v)
restricting-Ended h k find context x v ends =
    write_document-Ended (restricting h k find) context x v (record {
      described_ends = ends;
      enforce_ends = λ q f made w. enforcing-Shallow k (find q) f made w;
    })
