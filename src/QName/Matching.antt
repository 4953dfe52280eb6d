-- ===== src/QName/Matching.antt =====
-- What `qnameExp` of src/parser/qname.js matches.
use Prim.Native.Char.{Char, code}
use Prim.Native.String.{String, [], ◌∷◌, ◌++◌}
use text.Mathlib.TextEquality.{Char-path}
use text.Mathlib.TextLemmas.{nil-append, cons-append, append_assoc}
use strong_soap.Common.{
  ◌↔◌, ◌≡◌, ◌≢◌, refl, ap, sym, ◌∙◌, true, false, ◌||◌, ◌==◌, nat_eq, Option, none, some, arith,
  inl, inr, eq_iff, Bool-cases, Option-cases,
}
use strong_soap.QName.{
  is_colon, has_brace, has_colon, read_uri, split_last, read_name, with_uri, exec, Groups,
}

abbrev pub uri_text : Option String → String
uri_text none = ""
uri_text (some u) = "{" ∷ (u ++ ("}" ∷ ""))

abbrev pub prefix_text : Option String → String
prefix_text none = ""
prefix_text (some p) = p ++ (":" ∷ "")

abbrev pub IsPlainUri : Option String → Type 0
IsPlainUri none = Unit
IsPlainUri (some u) = has_brace u ≡ false

abbrev pub IsPlainPrefix : Option String → Type 0
IsPlainPrefix none = Unit
IsPlainPrefix (some p) = ((p == "") ≡ false) × (has_brace p ≡ false)

abbrev pub IsPlainName : String → Type 0
IsPlainName n = ((n == "") ≡ false) × (has_brace n ≡ false) × (has_colon n ≡ false)

-- The text is an optional braced URI, an optional prefix with its colon, and a name: the URI and
-- the prefix hold no brace, the name no brace and no colon, and prefix and name are not empty.
pub record Matches (s : String) (g : Groups) : Type 0 where
  pub shape : s ≡ uri_text g.uri ++ (prefix_text g.prefix ++ g.name)
  pub uri_plain : IsPlainUri g.uri
  pub prefix_plain : IsPlainPrefix g.prefix
  pub name_plain : IsPlainName g.name

pub has_brace-append : (s t : String) → has_brace (s ++ t) ≡ (has_brace s || has_brace t)
unfolding has_brace
has_brace-append [] t = rw nil-append refl
has_brace-append (c ∷ s) t = rw cons-append (ground (arith, has_brace-append s t))

pub has_colon-append : (s t : String) → has_colon (s ++ t) ≡ (has_colon s || has_colon t)
unfolding has_colon
has_colon-append [] t = rw nil-append refl
has_colon-append (c ∷ s) t = rw cons-append (ground (arith, has_colon-append s t))

colon-eq : (c : Char) → is_colon c ≡ true → c ≡ ":"
colon-eq c h = Char-path c ":" (ground arith)

split_last-none : (s : String) → has_colon s ≡ false → split_last s ≡ none
unfolding has_colon split_last
split_last-none [] h = refl
split_last-none (c ∷ s) h = ground (arith, split_last-none s)

split_last-eq-none : (s : String) → split_last s ≡ none → has_colon s ≡ false
unfolding has_colon split_last
split_last-eq-none [] h = refl
split_last-eq-none (c ∷ s) h = ground (arith, split_last-eq-none s)

split_last_sound :
    (s p n : String) → split_last s ≡ some (p, n) → (s ≡ p ++ (":" ∷ n)) × (has_colon n ≡ false)
unfolding split_last
split_last_sound [] p n h = cc
split_last_sound (c ∷ s) p n h = elim (Option-cases (split_last s)) [
  | inl missing ↦ elim (Bool-cases (is_colon c)) [
    | inl here ↦
        let is_p : "" ≡ p = ground arith in
        let is_n : s ≡ n = ground arith in
        rw (← is_p, ← is_n, colon-eq c here, nil-append) (refl, split_last-eq-none s missing)
    | inr other ↦ absurd (ground arith)
  ]
  | inr ((p', n'), found) ↦
      let (shape, plain) = split_last_sound s p' n' found in
      let is_p : c ∷ p' ≡ p = ground arith in
      let is_n : n' ≡ n = ground arith in
      rw (← is_p, ← is_n, cons-append) (ap (λ t. c ∷ t) shape, plain)
]

split_last_complete :
    (p n : String) → has_colon n ≡ false → split_last (p ++ (":" ∷ n)) ≡ some (p, n)
unfolding split_last
split_last_complete [] n h = rw (nil-append, split_last) (rw (split_last-none n h) refl)
split_last_complete (c ∷ p) n h = rw (cons-append, split_last) (rw (split_last_complete p n h) refl)

read_uri_sound :
    (s u r : String) → read_uri s ≡ some (u, r) → (s ≡ u ++ ("}" ∷ r)) × (has_brace u ≡ false)
unfolding read_uri has_brace
read_uri_sound [] u r h = cc
read_uri_sound (c ∷ s) u r h = elim (Bool-cases (nat_eq (code c) b'}')) [
  | inl here ↦
      let is_u : "" ≡ u = ground arith in
      let is_r : s ≡ r = ground arith in
      let is_c : c ≡ "}" = Char-path c "}" (ground arith) in
      rw (← is_u, ← is_r, is_c, nil-append) (refl, refl)
  | inr other ↦ elim (Option-cases (read_uri s)) [
    | inl missing ↦ absurd (ground arith)
    | inr ((u', r'), found) ↦
        let (shape, plain) = read_uri_sound s u' r' found in
        let is_u : c ∷ u' ≡ u = ground arith in
        let is_r : r' ≡ r = ground arith in
        rw (← is_u, ← is_r, cons-append) (ap (λ t. c ∷ t) shape, ground arith)
  ]
]

read_uri_complete : (u r : String) → has_brace u ≡ false → read_uri (u ++ ("}" ∷ r)) ≡ some (u, r)
unfolding read_uri has_brace
read_uri_complete [] r h = rw (nil-append, read_uri) refl
read_uri_complete (c ∷ u) r h = rw (cons-append, read_uri) (ground (arith, read_uri_complete u r))

pub one-append : (c : Char) (s : String) → (c ∷ "") ++ s ≡ c ∷ s
one-append c s = cons-append c "" s ∙ ap (λ t. c ∷ t) (nil-append s)

pub prefix_text-some : (p n : String) → prefix_text (some p) ++ n ≡ p ++ (":" ∷ n)
prefix_text-some p n = append_assoc p ":" n ∙ ap (λ t. p ++ t) (one-append ":" n)

uri_text-some : (u r : String) → uri_text (some u) ++ r ≡ "{" ∷ (u ++ ("}" ∷ r))
uri_text-some u r =
    cons-append "{" (u ++ "}") r
    ∙ ap (λ t. "{" ∷ t) (append_assoc u "}" r ∙ ap (λ t. u ++ t) (one-append "}" r))

nonempty : (s : String) → (s == "") ≡ false → s ≢ ""
nonempty s h e = ground (arith, eq_iff s "")

brace-colon : (n : String) → has_brace (":" ∷ n) ≡ has_brace n
unfolding has_brace
brace-colon n = refl

brace_behind : (p n : String) → has_brace (p ++ (":" ∷ n)) ≡ false → has_brace n ≡ false
brace_behind p n h = ground (arith, has_brace-append p (":" ∷ n), brace-colon n)

read_name_sound :
    (s n : String) (p : Option String)
    → read_name s ≡ some (p, n)
    → (s ≡ prefix_text p ++ n) × IsPlainPrefix p × IsPlainName n
unfolding read_name
read_name_sound s n p h = elim (Bool-cases (has_brace s)) [
  | inl braced ↦ absurd (ground arith)
  | inr plain ↦ elim (Option-cases (split_last s)) [
    | inl missing ↦
        let is_p : none ≡ p = ground arith in
        let is_n : s ≡ n = ground arith in
        rw (← is_p, ← is_n)
          (sym (nil-append s), tt, (ground arith, plain, split_last-eq-none s missing))
    | inr ((p', n'), found) ↦
        let (shape, no_colon) = split_last_sound s p' n' found in
        let is_p : some p' ≡ p = ground arith in
        let is_n : n' ≡ n = ground arith in
        let plain' = ap has_brace (sym shape) ∙ plain in
        rw (← is_p, ← is_n, prefix_text-some p' n')
          (
            shape,
            (ground arith, ground (arith, has_brace-append p' (":" ∷ n'), plain')),
            (ground arith, brace_behind p' n' plain', no_colon),
          )
  ]
]

read_name_plain : (n : String) → IsPlainName n → read_name n ≡ some (none, n)
unfolding read_name
read_name_plain n (a, b, c) = ground (arith, split_last-none n c)

read_name_colon :
    (p n : String)
    → (p == "") ≡ false
    → has_brace p ≡ false
    → IsPlainName n
    → read_name (p ++ (":" ∷ n)) ≡ some (some p, n)
unfolding read_name
read_name_colon p n d e (a, b, c) =
    ground (arith, split_last_complete p n c, has_brace-append p (":" ∷ n), brace-colon n)

read_name_complete :
    (n : String) (p : Option String)
    → IsPlainPrefix p
    → IsPlainName n
    → read_name (prefix_text p ++ n) ≡ some (p, n)
unfolding read_name
read_name_complete n none _ h = ap read_name (nil-append n) ∙ read_name_plain n h
read_name_complete n (some p) (d, e) h =
    ap read_name (prefix_text-some p n) ∙ read_name_colon p n d e h

with_uri-eq-some :
    (u : Option String) (o : Option (Option String × String)) (g : Groups)
    → with_uri u o ≡ some g
    → (o ≡ some (g.prefix, g.name)) × (u ≡ g.uri)
unfolding with_uri
with_uri-eq-some u none g h = cc
with_uri-eq-some u (some (p, n)) g h = (ground arith, ground arith)

-- A text that begins with no brace is matched without a URI.
unbraced-Matches :
    (s : String) (g : Groups) → read_name s ≡ some (g.prefix, g.name) → none ≡ g.uri → Matches s g
unbraced-Matches s g h u =
    let (shape, prefix, name) = read_name_sound s g.name g.prefix h in
    record {
      shape = rw (← u) (shape ∙ sym (nil-append (prefix_text g.prefix ++ g.name)));
      uri_plain = rw (← u) tt;
      prefix_plain = prefix;
      name_plain = name;
    }

braced-Matches :
    (c : Char) (s u r : String) (g : Groups)
    → code c ≡ b'{'
    → read_uri s ≡ some (u, r)
    → read_name r ≡ some (g.prefix, g.name)
    → some u ≡ g.uri
    → Matches (c ∷ s) g
braced-Matches c s u r g is_c found h is_u =
    let (shape, prefix, name) = read_name_sound r g.name g.prefix h in
    let (outer, plain) = read_uri_sound s u r found in
    record {
      shape =
          rw (← is_u, uri_text-some u (prefix_text g.prefix ++ g.name), ← shape, ← outer)
            (ap (λ d. d ∷ s) (Char-path c "{" is_c));
      uri_plain = rw (← is_u) plain;
      prefix_plain = prefix;
      name_plain = name;
    }

pub exec_sound : (s : String) (g : Groups) → exec s ≡ some g → Matches s g
unfolding exec
exec_sound [] g h = cc
exec_sound (c ∷ s) g h = elim (Bool-cases (nat_eq (code c) b'{')) [
  | inl here ↦ elim (Option-cases (read_uri s)) [
    | inl missing ↦ absurd (ground arith)
    | inr ((u, r), found) ↦
        let (name, uri) = with_uri-eq-some (some u) (read_name r) g (ground arith) in
        braced-Matches c s u r g (ground arith) found name uri
  ]
  | inr other ↦
      let (name, uri) = with_uri-eq-some none (read_name (c ∷ s)) g (ground arith) in
      unbraced-Matches (c ∷ s) g name uri
]

exec-unbraced : (s : String) → has_brace s ≡ false → exec s ≡ with_uri none (read_name s)
unfolding exec has_brace
exec-unbraced [] h = refl
exec-unbraced (c ∷ s) h = ground arith

plain_of_read_name :
    (s : String) {r : Option String × String} → read_name s ≡ some r → has_brace s ≡ false
unfolding read_name
plain_of_read_name s h = ground arith

exec-braced :
    (u r : String)
    → has_brace u ≡ false
    → exec ("{" ∷ (u ++ ("}" ∷ r))) ≡ with_uri (some u) (read_name r)
unfolding exec
exec-braced u r h = rw (read_uri_complete u r h) refl

pub exec_complete :
    (s n : String) (u p : Option String)
    → Matches s (record { uri = u; prefix = p; name = n })
    → exec s ≡ some (record { uri = u; prefix = p; name = n })
unfolding with_uri
exec_complete s n none p m =
    let rest = prefix_text p ++ n in
    let name = read_name_complete n p m.prefix_plain m.name_plain in
    ap exec (m.shape ∙ nil-append rest)
    ∙ exec-unbraced rest (plain_of_read_name rest name)
    ∙ ap (with_uri none) name
exec_complete s n (some u) p m =
    let rest = prefix_text p ++ n in
    let name = read_name_complete n p m.prefix_plain m.name_plain in
    ap exec (m.shape ∙ uri_text-some u rest)
    ∙ exec-braced u rest m.uri_plain
    ∙ ap (with_uri (some u)) name

-- `qnameExp` matches a text with given groups exactly when the text is an optional URI in braces,
-- an optional prefix with a colon and a name, as `Matches` has them.
pub exec_iff : (s : String) (g : Groups) → (exec s ≡ some g) ↔ Matches s g
exec_iff s g = (exec_sound s g, exec_complete s g.name g.uri g.prefix)
