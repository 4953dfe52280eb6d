-- ===== src/HttpRequest/Headers.antt =====
-- Which of the headers given to `buildRequest` of src/http.js wins.
use strong_soap.Common.{
  String, ◌≡◌, refl, sym, ap, ◌∙◌, ◌==◌, Option, none, some, List, [], ◌∷◌, if◌then◌else◌, arith,
  eq_iff, contains, Bool-cases, inl, inr,
}
use strong_soap.Common.Dict.{Dict, get, put, keys, IsDistinct, get-put, get-none_of_absent}
use strong_soap.HttpRequest.{
  Url, Payload, Attachment, OptionValue, header_values, merge, merge_headers, merge_options,
  basic_options, build_request, request_headers, attachments_of, payload_headers, default_headers,
  multipart_type,
}

-- `a || b` on values that may be missing.
abbrev pub else_value : Option String → Option String → Option String
else_value none b = b
else_value (some a) b = some a

pub get-merge :
    (h extra : Dict String) (k : String)
    → IsDistinct extra
    → get k (merge h extra) ≡ else_value (get k extra) (get k h)
unfolding merge
get-merge h [] k d = refl
get-merge h ((j, v) ∷ extra) k (absent, d) =
    get-merge (put j v h) extra k d
    ∙ ground (arith, get-put j k v h, eq_iff j k, get-none_of_absent j extra absent)

-- The headers among the caller's options.
abbrev pub headers_in : Option OptionValue → Dict String
headers_in (some (header_values d)) = d
headers_in _ = []

headers-merge_headers :
    (v : OptionValue) (o : Dict OptionValue) (h : Dict String)
    → get "headers" o ≡ some (header_values h)
    → get "headers" (merge_headers v o) ≡ some (header_values (merge h (headers_in (some v))))
unfolding merge_headers merge
headers-merge_headers (header_values d) o h e =
    rw (e, merge_headers) (get-put "headers" "headers" (header_values (merge h d)) o)
headers-merge_headers (OptionValue.url_value u) o h e = e
headers-merge_headers (OptionValue.text_value t) o h e = e
headers-merge_headers (OptionValue.given t) o h e = e
headers-merge_headers (OptionValue.flag b) o h e = e
headers-merge_headers (OptionValue.body_value b) o h e = e
headers-merge_headers (OptionValue.parts_value b) o h e = e
headers-merge_headers (OptionValue.attachment_values b) o h e = e

get-merge_options :
    (o extra : Dict OptionValue) (h : Dict String)
    → IsDistinct extra
    → get "headers" o ≡ some (header_values h)
    → get "headers" (merge_options o extra)
      ≡ some (header_values (merge h (headers_in (get "headers" extra))))
unfolding merge_options merge
get-merge_options o [] h d e = e
get-merge_options o ((k, v) ∷ extra) h (absent, d) e = elim (Bool-cases (k == "headers")) [
  | inl same ↦
      let none_left : get "headers" extra ≡ none =
        get-none_of_absent "headers" extra
          (ap (λ j. contains j (keys extra)) (sym ((eq_iff k "headers").0 same)) ∙ absent) in
      rw same (
        get-merge_options (merge_headers v o) extra (merge h (headers_in (some v))) d
          (headers-merge_headers v o h e)
        ∙ rw none_left refl)
  | inr different ↦
      rw different
        (get-merge_options (put k v o) extra h d (get-put k "headers" v o ∙ rw different e))
]

-- The type that attachments force on a request.
abbrev pub forced : List Attachment → String → String → String → Option String
forced [] start boundary k = none
forced (a ∷ more) start boundary k =
    if "Content-Type" == k then some (multipart_type start boundary) else none

headers-basic_options :
    (version : String) (u : Url) (d : Payload) (headers : Dict String) (l : List Attachment)
    (start boundary : String)
    → get "headers" (basic_options version u d headers l start boundary)
      ≡ some (header_values (request_headers version u d headers l start boundary))
unfolding basic_options
headers-basic_options version u d headers [] start boundary = refl
headers-basic_options version u d headers (a ∷ more) start boundary = refl

get-request_headers :
    (version : String) (u : Url) (d : Payload) (headers : Dict String) (l : List Attachment)
    (start boundary k : String)
    → IsDistinct headers
    → get k (request_headers version u d headers l start boundary)
      ≡ else_value
          (forced l start boundary k)
          (else_value (get k headers) (get k (payload_headers d l (default_headers version u))))
unfolding request_headers
get-request_headers version u d headers [] start boundary k p =
    get-merge (payload_headers d [] (default_headers version u)) headers k p
get-request_headers version u d headers (a ∷ more) start boundary k p =
    let sent = payload_headers d (a ∷ more) (default_headers version u) in
    get-put "Content-Type" k (multipart_type start boundary) (merge sent headers)
    ∙ elim (Bool-cases ("Content-Type" == k)) [
      | inl same ↦ rw same refl
      | inr different ↦ rw different (get-merge sent headers k p)
    ]

-- Where neither the extra headers nor the caller's options nor its headers repeat a key, `buildRequest`
-- sends under each name the header of the options; without one the multipart type that attachments
-- force; without one the extra header; and else the default for the payload.
pub build_request-headers :
    (version : String) (u : Url) (d : Payload) (headers : Dict String) (extra : Dict OptionValue)
    (start boundary : String)
    → IsDistinct headers
    → IsDistinct extra
    → IsDistinct (headers_in (get "headers" extra))
    → (h : Dict String) × (get "headers" (build_request version u d headers extra start boundary)
        ≡ some (header_values h))
      × ((k : String)
          → get k h
            ≡ else_value (get k (headers_in (get "headers" extra))) (
                else_value (forced (attachments_of extra) start boundary k) (
                  else_value (get k headers) (
                    get k (payload_headers d (attachments_of extra) (default_headers version u))))))
unfolding build_request
build_request-headers version u d headers extra start boundary p q r =
    let l = attachments_of extra in
    let h = request_headers version u d headers l start boundary in
    let own = headers_in (get "headers" extra) in
    (
      merge h own,
      get-merge_options (basic_options version u d headers l start boundary) extra h q
          (headers-basic_options version u d headers l start boundary),
      λ k.
          get-merge h own k r
          ∙ ap (else_value (get k own))
              (get-request_headers version u d headers l start boundary k p),
    )
