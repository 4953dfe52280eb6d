-- ===== src/Client/Sending.antt =====
-- The headers that src/client.js sends, and the result that it takes from a response.
use Prim.Native.String
use strong_soap.Common.{
  String, Bool, false, ◌≡◌, refl, ap, ◌∙◌, Option, none, some, [], ◌∷◌, if◌then◌else◌, ◌==◌, not,
  ◌||◌, eq_iff, arith, Bool-cases, inl, inr, contains,
}
use strong_soap.Common.Dict.{Dict, get, keys, IsDistinct}
use strong_soap.Base.{Base}
use strong_soap.HttpRequest.{merge}
use strong_soap.HttpRequest.Headers.{get-merge, else_value}
use strong_soap.Client.{own_headers, omit, invoke_headers, content_type, is_1_2}

get-omit : (k j : String) (d : Dict String) → get j (omit k d) ≡ (if k == j then none else get j d)
unfolding omit
get-omit k j [] = ground arith
get-omit k j ((i, v) ∷ d) = ground (arith, get-omit k j d, eq_iff i k, eq_iff k j, eq_iff i j)

contains-omit :
    (k j : String) (d : Dict String)
    → contains j (keys d) ≡ false
    → contains j (keys (omit k d)) ≡ false
unfolding omit
contains-omit k j [] h = refl
contains-omit k j ((i, v) ∷ d) h = ground (arith, contains-omit k j d)

omit-IsDistinct : (k : String) (d : Dict String) → IsDistinct d → IsDistinct (omit k d)
unfolding omit
omit-IsDistinct k [] h = tt
omit-IsDistinct k ((i, v) ∷ d) (absent, h) = elim (Bool-cases (i == k)) [
  | inl same ↦ rw same (omit-IsDistinct k d h)
  | inr other ↦ rw other (contains-omit k i d absent, omit-IsDistinct k d h)
]

-- What is sent without headers of the client or of the call.
abbrev pub default_header : Option String → String → Bool → String → Option String
default_header version action required k =
    if "Content-Type" == k
    then some (content_type version)
    else if "SOAPAction" == k
    then (if not (is_1_2 version) || required
        then some (String.◌++◌ "\"" (String.◌++◌ action "\""))
        else none)
    else none

own_headers-get :
    (version : Option String) (action : String) (required : Bool) (k : String)
    → get k (own_headers version action required) ≡ default_header version action required k
own_headers-get version action required k = elim (Bool-cases (not (is_1_2 version) || required)) [
  | inl sent ↦ rw sent refl
  | inr left ↦ rw left (ground arith)
]

-- Where neither the client's HTTP headers nor the call's extra headers repeat a name, a request sends
-- under each name the call's header, but none for the entry soapHeaders; without one the client's; and
-- else the default: the content type of the SOAP version, and the quoted SOAPAction, which version 1.2
-- sends only where the operation requires it.
pub invoke_headers-get :
    (version : Option String) (action : String) (required : Bool) (b : Base) (extra : Dict String)
    (k : String)
    → IsDistinct b.http_headers
    → IsDistinct extra
    → get k (invoke_headers version action required b extra)
      ≡ else_value
          (if "soapHeaders" == k then none else get k extra)
          (else_value (get k b.http_headers) (default_header version action required k))
unfolding invoke_headers
invoke_headers-get version action required b extra k d e =
    get-merge (merge (own_headers version action required) b.http_headers)
      (omit "soapHeaders" extra) k (omit-IsDistinct "soapHeaders" extra e)
    ∙ ap (λ o. else_value o (get k (merge (own_headers version action required) b.http_headers)))
        (get-omit "soapHeaders" k extra)
    ∙ ap (else_value (if "soapHeaders" == k then none else get k extra)) (
        get-merge (own_headers version action required) b.http_headers k d
        ∙ ap (else_value (get k b.http_headers)) (own_headers-get version action required k))
