-- ===== src/QName/Printing.antt =====
-- `toString` of src/parser/qname.js against the constructors and `parse`.
use Prim.Native.String.{String, [], ◌∷◌, ◌++◌}
use text.Mathlib.TextLemmas.{nil-append, cons-append, append_assoc}
use mathlib.Core.Path.{subst}
use strong_soap.Common.{
  ◌≡◌, ◌≢◌, ◌⊎◌, refl, ap, sym, ◌∙◌, false, ◌==◌, Option, none, some, arith, inl, inr, eq_iff,
  eq_false, Bool-cases, Option-cases, if◌then◌else◌, or_else,
}
use strong_soap.Common.Result.{ok}
use strong_soap.QName.{
  QName, Groups, has_brace, has_colon, exec, of_text, first_part, second_part, of_parts, braced,
  coloned, to_string,
}
use strong_soap.QName.Matching.{
  uri_text, prefix_text, IsPlainName, IsPlainUri, IsPlainPrefix, Matches, prefix_text-some,
  exec_sound, exec_complete, one-append,
}

-- What the one-argument constructor makes: no brace in the URI, none in the prefix, and a name that
-- is not empty and holds no brace and no colon.
pub record IsPrintable (q : QName) : Type 0 where
  pub uri : String
  pub prefix : String
  pub has_uri : q.ns_uri ≡ some uri
  pub has_prefix : q.prefix ≡ some prefix
  pub uri_plain : has_brace uri ≡ false
  pub prefix_plain : has_brace prefix ≡ false
  pub name_plain : IsPlainName q.name

-- A text that is left out where it is empty.
abbrev optional : String → Option String
optional s = if s == "" then none else some s

braced-uri_text : (u : String) → braced (some u) ≡ uri_text (optional u)
unfolding braced
braced-uri_text u = elim (Bool-cases (u == "")) [
  | inl empty ↦ rw empty refl
  | inr given ↦ rw given (one-append "{" (u ++ "}"))
]

coloned-prefix_text : (p : String) → coloned (some p) ≡ prefix_text (optional p)
unfolding coloned
coloned-prefix_text p = elim (Bool-cases (p == "")) [
  | inl empty ↦ rw empty refl
  | inr given ↦ rw given refl
]

or_else-optional : (s : String) → or_else (optional s) "" ≡ s
or_else-optional s = ground (arith, eq_iff s "")

to_string-shape :
    (u p n : String)
    → to_string (record { ns_uri = some u; prefix = some p; name = n })
      ≡ uri_text (optional u) ++ (prefix_text (optional p) ++ n)
unfolding to_string
to_string-shape u p n =
    append_assoc (braced (some u)) (coloned (some p)) n
    ∙ ap (λ t. t ++ (coloned (some p) ++ n)) (braced-uri_text u)
    ∙ ap (λ t. uri_text (optional u) ++ (t ++ n)) (coloned-prefix_text p)

optional-IsPlainUri : (u : String) → has_brace u ≡ false → IsPlainUri (optional u)
optional-IsPlainUri u h = elim (Bool-cases (u == "")) [
  | inl empty ↦ rw empty tt
  | inr given ↦ rw given h
]

optional-IsPlainPrefix : (p : String) → has_brace p ≡ false → IsPlainPrefix (optional p)
optional-IsPlainPrefix p h = elim (Bool-cases (p == "")) [
  | inl empty ↦ rw empty tt
  | inr given ↦ rw given (given, h)
]

printed-Matches :
    (u p n : String)
    → has_brace u ≡ false
    → has_brace p ≡ false
    → IsPlainName n
    → Matches
        (to_string (record { ns_uri = some u; prefix = some p; name = n }))
        (record { uri = optional u; prefix = optional p; name = n })
printed-Matches u p n a b c = record {
  shape = to_string-shape u p n;
  uri_plain = optional-IsPlainUri u a;
  prefix_plain = optional-IsPlainPrefix p b;
  name_plain = c;
}

read_printed :
    (u p n : String)
    → has_brace u ≡ false
    → has_brace p ≡ false
    → IsPlainName n
    → of_text (to_string (record { ns_uri = some u; prefix = some p; name = n }))
      ≡ ok (record { ns_uri = some u; prefix = some p; name = n })
unfolding of_text
read_printed u p n a b c =
    rw (exec_complete _ n (optional u) (optional p) (printed-Matches u p n a b c), of_text)
      (λ i. ok (record {
        ns_uri = some (or_else-optional u i);
        prefix = some (or_else-optional p i);
        name = n;
      }))

-- Reading back what `toString` prints gives the same name, for names as the one-argument
-- constructor makes them.
pub of_text-to_string : (q : QName) → IsPrintable q → of_text (to_string q) ≡ ok q
of_text-to_string q h =
    let same : ◌≡◌ {A = QName}
        (record { ns_uri = some h.uri; prefix = some h.prefix; name = q.name }) q =
      λ i. record { ns_uri = sym h.has_uri i; prefix = sym h.has_prefix i; name = q.name } in
    subst (λ r. of_text (to_string r) ≡ ok r) same
      (read_printed h.uri h.prefix q.name h.uri_plain h.prefix_plain h.name_plain)

optional-or_else : (p : Option String) → IsPlainPrefix p → optional (or_else p "") ≡ p
optional-or_else none h = refl
optional-or_else (some p) h = ground (arith, h.0)

or_else-plain : (p : Option String) → IsPlainPrefix p → has_brace (or_else p "") ≡ false
unfolding has_brace
or_else-plain none h = refl
or_else-plain (some p) h = rw h.0 h.1

-- The text that `toString` prints, by the groups that were matched.
printed-shape :
    (u n : String) (p : Option String)
    → IsPlainPrefix p
    → to_string (record { ns_uri = some u; prefix = some (or_else p ""); name = n })
      ≡ uri_text (optional u) ++ (prefix_text p ++ n)
printed-shape u n p h =
    to_string-shape u (or_else p "") n
    ∙ ap (λ o. uri_text (optional u) ++ (prefix_text o ++ n)) (optional-or_else p h)

-- What the one-argument constructor makes of the groups.
abbrev of_groups : Groups → QName
of_groups g = record {
  ns_uri = some (or_else g.uri "");
  prefix = some (or_else g.prefix "");
  name = g.name;
}

or_else-uri : (u : Option String) → IsPlainUri u → has_brace (or_else u "") ≡ false
unfolding has_brace
or_else-uri none h = refl
or_else-uri (some u) h = elim (Bool-cases (u == "")) [
  | inl empty ↦ rw empty refl
  | inr given ↦ rw given h
]

of_groups-IsPrintable :
    (u n : String) (p : Option String)
    → has_brace u ≡ false
    → IsPlainPrefix p
    → IsPlainName n
    → IsPrintable (record { ns_uri = some u; prefix = some (or_else p ""); name = n })
of_groups-IsPrintable u n p a b c = record {
  uri = u;
  prefix = or_else p "";
  has_uri = refl;
  has_prefix = refl;
  uri_plain = a;
  prefix_plain = or_else-plain p b;
  name_plain = c;
}

to_string-groups :
    (s n : String) (u p : Option String)
    → Matches s (record { uri = u; prefix = p; name = n })
    → (to_string (record { ns_uri = some (or_else u ""); prefix = some (or_else p ""); name = n })
        ≡ s)
      ⊎ ("{}"
            ++ to_string
                (record { ns_uri = some (or_else u ""); prefix = some (or_else p ""); name = n })
          ≡ s)
to_string-groups s n none p m = inl (printed-shape "" n p m.prefix_plain ∙ sym m.shape)
to_string-groups s n (some u) p m =
    let rest = prefix_text p ++ n in
    elim (Bool-cases (u == "")) [
      | inl empty ↦
          let is_empty = (eq_iff u "").0 empty in
          inr (
            ap (λ t. "{}" ++ t)
              (ap
                  (λ t. to_string (record {
                    ns_uri = some (or_else (some t) "");
                    prefix = some (or_else p "");
                    name = n;
                  }))
                  is_empty
                ∙ printed-shape "" n p m.prefix_plain
                ∙ nil-append rest)
            ∙ ap (λ t. uri_text (some t) ++ rest) (sym is_empty)
            ∙ sym m.shape)
      | inr given ↦
          let same : or_else (some u) "" ≡ u = rw given refl in
          let kept : optional u ≡ some u = rw given refl in
          inl (
            ap (λ t. to_string (record { ns_uri = some t; prefix = some (or_else p ""); name = n }))
              same
            ∙ printed-shape u n p m.prefix_plain
            ∙ ap (λ o. uri_text o ++ rest) kept
            ∙ sym m.shape)
    ]

-- What the one-argument constructor makes is printable, and `toString` prints the text that it was
-- made from, but for an empty URI in braces, which it leaves out.
pub to_string-of_text :
    (s : String) (q : QName)
    → of_text s ≡ ok q
    → IsPrintable q × ((to_string q ≡ s) ⊎ ("{}" ++ to_string q ≡ s))
unfolding of_text
to_string-of_text s q h = elim (Option-cases (exec s)) [
  | inl missing ↦ absurd (cc (rw (missing, of_text) at h))
  | inr (g, found) ↦
      let m = exec_sound s g found in
      let made : of_groups g ≡ q = ground (arith, found) in
      rw (← made) (
        of_groups-IsPrintable (or_else g.uri "") g.name g.prefix (or_else-uri g.uri m.uri_plain)
            m.prefix_plain m.name_plain,
        to_string-groups s g.name g.uri g.prefix m,
      )
]

first_part_plain : (n : String) → has_colon n ≡ false → first_part n ≡ n
unfolding first_part has_colon
first_part_plain [] h = refl
first_part_plain (c ∷ n) h = ground (arith, first_part_plain n)

first_part-colon : (p n : String) → has_colon p ≡ false → first_part (p ++ (":" ∷ n)) ≡ p
unfolding first_part has_colon
first_part-colon [] n h = rw nil-append refl
first_part-colon (c ∷ p) n h = rw cons-append (ground (arith, first_part-colon p n))

second_part-colon :
    (p n : String)
    → has_colon p ≡ false
    → has_colon n ≡ false
    → second_part (p ++ (":" ∷ n)) ≡ some n
unfolding second_part has_colon
second_part-colon [] n h k = rw nil-append (ap some (first_part_plain n k))
second_part-colon (c ∷ p) n h k = rw cons-append (ground (arith, second_part-colon p n))

colon-of_text :
    (p n : String)
    → has_brace p ≡ false
    → p ≢ ""
    → IsPlainName n
    → of_text (p ++ (":" ∷ n)) ≡ ok (record { ns_uri = some ""; prefix = some p; name = n })
unfolding of_text
colon-of_text p n a c d =
    let given = eq_false p "" c in
    let m : Matches (p ++ (":" ∷ n)) (record { uri = none; prefix = some p; name = n }) = record {
      shape = sym (prefix_text-some p n) ∙ sym (nil-append (prefix_text (some p) ++ n));
      uri_plain = tt;
      prefix_plain = (given, a);
      name_plain = d;
    } in
    rw (exec_complete (p ++ (":" ∷ n)) n none (some p) m, of_text) (rw given refl)

-- Without a prefix argument the two- and three-argument constructors read a qualified name the
-- wrong way round: of "p:n" they make "p" the name and "n" the prefix, where the one-argument
-- constructor makes "n" the name and "p" the prefix.
pub of_parts_swapped :
    (uri : Option String) (p n : String)
    → has_brace p ≡ false
    → has_colon p ≡ false
    → p ≢ ""
    → IsPlainName n
    → (of_parts uri (p ++ (":" ∷ n)) none
        ≡ record { ns_uri = some (or_else uri ""); prefix = some n; name = p })
      × (of_text (p ++ (":" ∷ n)) ≡ ok (record { ns_uri = some ""; prefix = some p; name = n }))
unfolding of_parts
of_parts_swapped uri p n a b c d = (
  λ i. record {
    ns_uri = some (or_else uri "");
    prefix = second_part-colon p n b d.2 i;
    name = first_part-colon p n b i;
  },
  colon-of_text p n a c d,
)
