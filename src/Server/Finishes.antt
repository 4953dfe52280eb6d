-- ===== src/Server/Finishes.antt =====
-- `_requestListener` of src/server.js: how often a response is ended.
use strong_soap.Common.{
  ℕ, suc, ◌+◌, String, Bool, true, false, ◌≡◌, refl, Option, none, some, List, [], ◌∷◌, ◌++◌,
  if◌then◌else◌, ◌==◌, ◌&&◌, length, arith, Bool-cases, inl, inr, truthy?,
}
use strong_soap.XmlReader.Values.{Json}
use strong_soap.Server.Replies.{Setting, Answer}
use strong_soap.Server.Requests.{Handling, Outcome, returned, threw}
use strong_soap.Server.Listening.{
  Action, set_header, set_status, write, finish, Request, Service, process, answer_actions,
  all_actions, error_actions, request_text, process_actions, post_actions, wants_wsdl,
  request_listener,
}

abbrev pub finishes : List Action → ℕ
finishes [] = 0
finishes (finish ∷ l) = suc (finishes l)
finishes (set_header n v ∷ l) = finishes l
finishes (set_status v ∷ l) = finishes l
finishes (write t ∷ l) = finishes l

finishes-append : (k l : List Action) → finishes (k ++ l) ≡ finishes k + finishes l
finishes-append [] l = omega arith
finishes-append (finish ∷ k) l = omega (arith, finishes-append k l)
finishes-append (set_header n v ∷ k) l = finishes-append k l
finishes-append (set_status v ∷ k) l = finishes-append k l
finishes-append (write t ∷ k) l = finishes-append k l

if-finishes :
    (b : Bool) (k l : List Action) (n : ℕ)
    → finishes k ≡ n
    → finishes l ≡ n
    → finishes (if b then k else l) ≡ n
if-finishes true k l n h g = h
if-finishes false k l n h g = g

answer_actions-finishes :
    (s : Setting) (xml : String) (status : Option Json)
    → finishes (answer_actions s (record { xml = xml; status = status })) ≡ 1
answer_actions-finishes s xml none = refl
answer_actions-finishes s xml (some v) =
    if-finishes (s.is_true v) (set_status v ∷ write xml ∷ finish ∷ []) (write xml ∷ finish ∷ []) 1
      refl refl

all_actions-finishes : (s : Setting) (l : List Answer) → finishes (all_actions s l) ≡ length l
all_actions-finishes s [] = refl
all_actions-finishes s (a ∷ l) = omega (
  arith,
  finishes-append (answer_actions s a) (all_actions s l),
  answer_actions-finishes s a.xml a.status,
  all_actions-finishes s l,
)

-- One for an error that reaches the listener.
abbrev pub failures : Outcome → ℕ
failures returned = 0
failures (threw e) = 1

error_actions-finishes :
    (v : Service) (out : Outcome) → finishes (error_actions v out) ≡ failures out
error_actions-finishes v returned = refl
error_actions-finishes v (threw e) = refl

-- How often the response is to be ended after processing.
abbrev pub due : Handling × Outcome → ℕ
due (h, out) = length h.answers + failures out

process_actions-finishes :
    (v : Service) (r : Handling × Outcome) → finishes (process_actions v r) ≡ due r
process_actions-finishes v (h, out) = omega (
  arith,
  finishes-append (all_actions v.setting h.answers) (error_actions v out),
  all_actions-finishes v.setting h.answers,
  error_actions-finishes v out,
)

-- Whether the request's body is processed.
abbrev pub is_processed : Request → Bool
is_processed r =
    if r.method == "GET" then false else ((r.method == "POST") && truthy? r.content_type)

post_actions-finishes :
    (v : Service) (r : Request) (t : Option String)
    → finishes (post_actions v r t)
      ≡ (if truthy? t then due (process v r.pathname (v.read (request_text v r))) else 1)
post_actions-finishes v r none = refl
post_actions-finishes v r (some t) = elim (Bool-cases (t == "")) [
  | inl empty ↦ rw empty refl
  | inr given ↦
      rw given (process_actions-finishes v (process v r.pathname (v.read (request_text v r))))
]

-- The response to a request is ended once where the request is no POST with a content type. For a POST
-- with one it is ended once for each answer that the processing gives and once for an error that it
-- throws.
pub request_listener-finishes :
    (v : Service) (r : Request)
    → finishes (request_listener v r)
      ≡ (if is_processed r then due (process v r.pathname (v.read (request_text v r))) else 1)
unfolding request_listener
request_listener-finishes v r = elim (Bool-cases (r.method == "GET")) [
  | inl get ↦ rw get (if-finishes (wants_wsdl v r.query) _ (finish ∷ []) 1 refl refl)
  | inr other ↦ elim (Bool-cases (r.method == "POST")) [
    | inl post ↦ rw (other, post) (post_actions-finishes v r r.content_type)
    | inr neither ↦ rw (other, neither) refl
  ]
]
