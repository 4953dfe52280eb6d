-- ===== src/Base/Headers.antt =====
-- The lists of SOAP headers and HTTP headers of src/base.js.
use Prim.Native.String
use strong_soap.Common.{
  ℕ, zero, suc, String, ◌≡◌, ◌≢◌, refl, ap, ◌∙◌, Option, none, some, List, [], ◌∷◌, ◌++◌, length,
  arith, eq_iff,
}
use strong_soap.Common.Dict.{Dict, get, put, get-put}
use strong_soap.Common.Result.{Result, ok, ◌>>=◌}
use strong_soap.QName.{QName}
use strong_soap.XmlReader.Values.{Json, text}
use strong_soap.XmlWriter.{Handler}
use strong_soap.XmlWriter.Values.{Calls, then_calls}
use strong_soap.Descriptor.{ElementDescriptor}
use strong_soap.Base.{
  Base, SoapElement, new_soap_element, valued, add_soap_header, change_soap_header, write_at,
  read_at, add_http_header, appended, write_header, write_headers,
}

read_at-append :
    (l : List (Option SoapElement)) (x : SoapElement)
    → read_at (l ++ some x ∷ []) (length l) ≡ some x
unfolding read_at
read_at-append [] x = refl
read_at-append (y ∷ l) x = read_at-append l x

read_at-write_at :
    (l : List (Option SoapElement)) (i : ℕ) (x : SoapElement) → read_at (write_at l i x) i ≡ some x
unfolding read_at write_at
read_at-write_at [] zero x = refl
read_at-write_at [] (suc i) x = read_at-write_at [] i x
read_at-write_at (y ∷ l) zero x = refl
read_at-write_at (y ∷ l) (suc i) x = read_at-write_at l i x

read_at-write_at_ne :
    (l : List (Option SoapElement)) (i j : ℕ) (x : SoapElement)
    → i ≢ j
    → read_at (write_at l i x) j ≡ read_at l j
unfolding read_at write_at
read_at-write_at_ne [] zero zero x h = absurd (h refl)
read_at-write_at_ne [] zero (suc j) x h = refl
read_at-write_at_ne [] (suc i) zero x h = refl
read_at-write_at_ne [] (suc i) (suc j) x h = read_at-write_at_ne [] i j x (λ e. h (cc e))
read_at-write_at_ne (y ∷ l) zero zero x h = absurd (h refl)
read_at-write_at_ne (y ∷ l) zero (suc j) x h = refl
read_at-write_at_ne (y ∷ l) (suc i) zero x h = refl
read_at-write_at_ne (y ∷ l) (suc i) (suc j) x h = read_at-write_at_ne l i j x (λ e. h (cc e))

-- addSoapHeader returns the index of the header that it adds, and changeSoapHeader with that index
-- puts another in its place and changes no other header.
pub change_soap_header-add :
    (b : Base) (v w : Json) (q r : Option QName)
    → (read_at (add_soap_header b v q).0.soap_headers (add_soap_header b v q).1
        ≡ some (new_soap_element v q))
      × (read_at
            (change_soap_header
              (add_soap_header b v q).0
              (add_soap_header b v q).1
              w
              r).soap_headers
            (add_soap_header b v q).1
          ≡ some (new_soap_element w r))
      × ((j : ℕ)
          → (add_soap_header b v q).1 ≢ j
          → read_at
              (change_soap_header
                (add_soap_header b v q).0
                (add_soap_header b v q).1
                w
                r).soap_headers
              j
            ≡ read_at (add_soap_header b v q).0.soap_headers j)
unfolding change_soap_header
change_soap_header-add b v w q r =
    let l = b.soap_headers ++ some (new_soap_element v q) ∷ [] in
    (
      read_at-append b.soap_headers (new_soap_element v q),
      read_at-write_at l (length b.soap_headers) (new_soap_element w r),
      λ j ne. read_at-write_at_ne l (length b.soap_headers) j (new_soap_element w r) ne,
    )

-- The texts with commas between them, behind a first one.
abbrev pub joined_with : String → List String → String
joined_with v [] = v
joined_with v (w ∷ l) = joined_with (String.◌++◌ v (String.◌++◌ ", " w)) l

abbrev pub joined_from : Option String → List String → Option String
joined_from o [] = o
joined_from none (v ∷ l) = some (joined_with v l)
joined_from (some v) l = some (joined_with v l)

-- A call of `addHttpHeader` for each value.
unfoldable pub add_all : Base → String → List String → Base
add_all b name [] = b
add_all b name (v ∷ l) = add_all (add_http_header b name v) name l

joined_from-step :
    (o : Option String) (v : String) (l : List String)
    → joined_from (some (appended o v)) l ≡ joined_from o (v ∷ l)
joined_from-step none v [] = refl
joined_from-step none v (w ∷ l) = refl
joined_from-step (some u) v [] = refl
joined_from-step (some u) v (w ∷ l) = refl

get-put_self : (k v : String) (d : Dict String) → get k (put k v d) ≡ some v
get-put_self k v d = grind (arith, get-put k k v d, eq_iff k k)

get-put_ne : (k j v : String) (d : Dict String) → k ≢ j → get j (put k v d) ≡ get j d
get-put_ne k j v d ne = grind (arith, get-put k j v d, eq_iff k j)

-- After addHttpHeader of any values under one name, that header is what it was and the values, in
-- their order and with ", " between them; every other header is unchanged.
pub add_all-joined :
    (b : Base) (name : String) (l : List String)
    → (get name (add_all b name l).http_headers ≡ joined_from (get name b.http_headers) l)
      × ((other : String)
          → name ≢ other
          → get other (add_all b name l).http_headers ≡ get other b.http_headers)
unfolding add_all
add_all-joined b name [] = (refl, λ other ne. refl)
add_all-joined b name (v ∷ l) =
    let d = b.http_headers in
    let w = appended (get name d) v in
    let (same, others) = add_all-joined (add_http_header b name v) name l in
    (
      same ∙ ap (λ o. joined_from o l) (get-put_self name w d) ∙ joined_from-step (get name d) v l,
      λ other ne. others other ne ∙ get-put_ne name other w d ne,
    )

module _ (h : Handler) (find_element : String → String → Option (Result ElementDescriptor))
    (parse_xml : Option String → Result Calls) where
  -- A header that is added as a text with a name loses the text: what is written is the same for
  -- every text.
  pub write_headers-named_text :
      (b : Base) (t u : String) (q : QName)
      → write_headers h find_element parse_xml (add_soap_header b (text t) (some q)).0.soap_headers
        ≡ write_headers h find_element parse_xml
            (add_soap_header b (text u) (some q)).0.soap_headers
  unfolding write_headers write_header
  write_headers-named_text b t u q = go b.soap_headers
    where
      go :
          (l : List (Option SoapElement))
          → write_headers h find_element parse_xml (l ++ some (valued (text t) (some q)) ∷ [])
            ≡ write_headers h find_element parse_xml (l ++ some (valued (text u) (some q)) ∷ [])
      go [] = refl
      go (x ∷ l) =
          ap (λ r. write_header h find_element parse_xml x >>= λ c. r >>= λ d. ok (then_calls c d))
            (go l)
