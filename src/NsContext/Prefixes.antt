-- ===== src/NsContext/Prefixes.antt =====
-- `generatePrefix` of src/parser/nscontext.js: the search for an unused prefix ends.
use Prim.Native.String
use text.Mathlib.TextLemmas.{cons-append, head-eq_of_cons-eq, append_cancel_left}
use native.Mathlib.Decide.{ℕ_discrete}
use strong_soap.Common.{
  ℕ, zero, suc, ◌<◌, Char, code, String, ◌≡◌, ◌≢◌, refl, ap, sym, ◌∙◌, inl, inr, Bool, true, false,
  ◌||◌, ◌==◌, Option, some, List, [], ◌∷◌, ◌++◌, arith, length, contains, without,
  contains-without_ne, length-without-lt, truthy?, eq_false, Bool-cases, Option-cases,
}
use strong_soap.Common.Dict.{keys, get, contains-keys}
use strong_soap.Common.Decimal.{decimal, decimal_inj}
use strong_soap.Common.Result.{ok}
use strong_soap.NsContext.{
  NamespaceScope, NamespaceContext, get_namespace_uri, ns_prefix, is_used, find_free,
  bound_prefixes, generate_prefix,
}

pub ns_prefix_inj : (m n : ℕ) → ns_prefix m ≡ ns_prefix n → m ≡ n
ns_prefix_inj m n e = decimal_inj m n (append_cancel_left "ns" (decimal m) (decimal n) e)

-- A generated prefix begins with "ns", so it is no reserved one.
ns_prefix-ne : (n : ℕ) (c : Char) (t : String) → code c ≢ b'n' → ns_prefix n ≢ String.◌∷◌ c t
ns_prefix-ne n c t h e =
    let split : String.◌∷◌ "n" (String.◌++◌ "s" (decimal n)) ≡ String.◌∷◌ c t =
      sym (cons-append "n" "s" (decimal n)) ∙ e in
    h (ap code (sym (head-eq_of_cons-eq split)))

pub ns_prefix-ne-xml : (n : ℕ) → (ns_prefix n == "xml") ≡ false
ns_prefix-ne-xml n = eq_false (ns_prefix n) "xml" (ns_prefix-ne n "x" "ml" (omega arith))

pub ns_prefix-ne-xmlns : (n : ℕ) → (ns_prefix n == "xmlns") ≡ false
ns_prefix-ne-xmlns n = eq_false (ns_prefix n) "xmlns" (ns_prefix-ne n "x" "mlns" (omega arith))

pub contains-append :
    (k : String) (xs ys : List String) → contains k (xs ++ ys) ≡ (contains k xs || contains k ys)
contains-append k [] ys = refl
contains-append k (x ∷ xs) ys = ground (arith, contains-append k xs ys)

-- A prefix that resolves is reserved or bound in some scope.
pub bound-of-used :
    (c : NamespaceContext) (p : String) (local : Bool)
    → truthy? (get_namespace_uri c p local) ≡ true
    → (p == "xml") ≡ false
    → (p == "xmlns") ≡ false
    → contains p (bound_prefixes c) ≡ true
unfolding get_namespace_uri
bound-of-used [] p local h _ _ = cc
bound-of-used (s ∷ c) p local h no_xml no_xmlns = elim (Option-cases (get p s.namespaces)) [
  | inl missing ↦
      ground
        (arith, contains-append p (keys s.namespaces) (bound_prefixes c), bound-of-used c p false)
  | inr (m, found) ↦ ground (
    arith,
    contains-append p (keys s.namespaces) (bound_prefixes c),
    contains-keys p s.namespaces found,
  )
]

used_upto :
    (c : NamespaceContext) (k j : ℕ) {n : ℕ}
    → is_used c (suc k) ≡ true
    → ((i : ℕ) → suc k < i → i < n → is_used c i ≡ true)
    → k < j
    → j < n
    → is_used c j ≡ true
used_upto c k j here above p q = elim (ℕ_discrete j (suc k)) [
  | yes e ↦ rw e here
  | no e ↦ above j (omega arith) q
]

-- With more fuel than candidates that may be taken, the search stops at the first free one.
find_free_stops :
    (f : ℕ) (c : NamespaceContext) (k : ℕ) (taken : List String)
    → length taken < f
    → ((n : ℕ) → k < n → is_used c n ≡ true → contains (ns_prefix n) taken ≡ true)
    → (n : ℕ) × (find_free f c k ≡ some n)
      × (k < n)
      × (is_used c n ≡ false)
      × ((j : ℕ) → k < j → j < n → is_used c j ≡ true)
unfolding find_free
find_free_stops zero c k taken h _ = elim h [ ]
find_free_stops (suc f) c k taken h covers = elim (Bool-cases (is_used c (suc k))) [
  | inl used ↦
      let here = ns_prefix (suc k) in
      let (n, found, above, free, between) =
        find_free_stops f c (suc k) (without here taken)
          (omega (arith, length-without-lt here taken (covers (suc k) (omega arith) used)))
          (λ n p q.
            contains-without_ne here (ns_prefix n) taken
              (λ e. absurd (omega (arith, ns_prefix_inj (suc k) n e)))
            ∙ covers n (omega arith) q) in
      (n, rw used found, omega arith, free, λ j p q. used_upto c k j used between p q)
  | inr free ↦ (suc k, rw free, omega arith, free, λ j p q. absurd (omega arith))
]

-- `generatePrefix` ends in every context with a scope. It returns "ns" with a count above the
-- scope's, stores that count and changes nothing else. The prefix does not resolve to a non-empty
-- URI, and every candidate between the old count and the new one does.
pub generate_prefix-total :
    (s : NamespaceScope) (parents : NamespaceContext) (base : Option String)
    → (n : ℕ) × (generate_prefix (s ∷ parents) base
        ≡ ok (record s { prefix_count = n } ∷ parents, some (ns_prefix n)))
      × (s.prefix_count < n)
      × (is_used (s ∷ parents) n ≡ false)
      × ((j : ℕ) → s.prefix_count < j → j < n → is_used (s ∷ parents) j ≡ true)
unfolding generate_prefix
generate_prefix-total s parents base =
    let c = s ∷ parents in
    let (n, found, above, free, between) =
      find_free_stops (suc (length (bound_prefixes c))) c s.prefix_count (bound_prefixes c)
        (omega arith)
        (λ j _ used.
          bound-of-used c (ns_prefix j) false used (ns_prefix-ne-xml j) (ns_prefix-ne-xmlns j)) in
    (n, rw (found, generate_prefix), above, free, between)
