-- ===== src/Server/Listening.antt =====
-- src/server.js: the constructor's listener, `_requestListener` and `_process`.
-- The package compress, the text of an error and `toLowerCase` are arguments, and so is `xmlToJson`
-- on the parser's events.
use Prim.Native.String
use strong_soap.Common.{
  code, nat_eq, String, Bool, true, false, ◌&&◌, ◌==◌, Option, none, some, List, [], ◌∷◌, ◌++◌,
  if◌then◌else◌,
}
use strong_soap.Common.Dict.{Dict}
use strong_soap.Common.Result.{Result, ok, throw, diverge}
use strong_soap.XmlReader.Values.{Json, number}
use strong_soap.Server.{Binding, Port, Search, find_binding, body_field, without_slash}
use strong_soap.Server.Replies.{Setting, Answer}
use strong_soap.Server.Requests.{
  Handling, Outcome, returned, threw, plain_error, nothing_done, dispatch, Method,
}

-- What is called on the response.
pub data Action : Type 0 where
  set_header : (name value : String) → Action
  set_status : Json → Action
  write : String → Action
  finish : Action

pub record Request : Type 0 where
  pub method : String
  pub pathname : String
  pub query : Option String
  pub content_type : Option String
  pub is_gzip : Bool
  pub remote_address : String
  pub chunks : List String

-- `authenticate` and `authorizeConnection` are methods that a server may be given.
pub record Service : Type 0 where
  pub setting : Setting
  pub path : String
  pub ports : Dict (Dict Port)
  pub services : Dict (Dict (Dict Method))
  pub wsdl_text : String
  pub read : String → Result Json
  pub authenticate : Option (Json → Bool)
  pub authorize : Option (String → Bool)
  pub inflate : Option (List String → String)
  pub lower : String → String
  pub error_text : Json → String

-- `path + '/'` where the path does not end in one.
unfoldable pub with_slash : String → String
with_slash String.[] = "/"
with_slash (String.◌∷◌ c s) =
    if nat_eq (code c) b'/' && (s == "") then String.◌∷◌ c s else String.◌∷◌ c (with_slash s)

abbrev pub security_of : Json → Json
security_of message = body_field (some "Security") (body_field (some "Header") message)

-- Whether `_process` throws at the security header.
abbrev pub is_refused : Service → Json → Bool
is_refused v message = elim v.authenticate [
  | none ↦ false
  | some check ↦
      if v.setting.is_true (security_of message)
      then (if check (security_of message) then false else true)
      else true
]

abbrev pub bound : Service → Json → Search × Option Binding → Handling × Outcome
bound v message (search, none) = (nothing_done, threw plain_error)
bound v message (search, some b) =
    dispatch v.setting (v.setting.is_true (body_field (some "Timestamp") (security_of message)))
      v.ports v.services search b (body_field (some "Body") message)

abbrev pub process_message : Service → String → Json → Handling × Outcome
process_message v pathname message =
    if is_refused v message
    then (nothing_done, threw plain_error)
    else bound v message (find_binding (without_slash pathname) v.ports)

-- `_process`
unfoldable pub process : Service → String → Result Json → Handling × Outcome
unfolding dispatch
process v pathname (ok message) = process_message v pathname message
process v pathname (throw x) = (nothing_done, threw plain_error)
process v pathname diverge = (nothing_done, threw plain_error)

-- The callback of `_process`: a status that counts as true is set.
abbrev pub answer_actions : Setting → Answer → List Action
answer_actions s a = elim a.status [
  | none ↦ write a.xml ∷ finish ∷ []
  | some v ↦
      if s.is_true v then set_status v ∷ write a.xml ∷ finish ∷ [] else write a.xml ∷ finish ∷ []
]

abbrev pub all_actions : Setting → List Answer → List Action
all_actions s [] = []
all_actions s (a ∷ l) = answer_actions s a ++ all_actions s l

abbrev pub error_actions : Service → Outcome → List Action
error_actions v returned = []
error_actions v (threw e) = set_status (number "500") ∷ write (v.error_text e) ∷ finish ∷ []

abbrev pub join_chunks : List String → String
join_chunks [] = ""
join_chunks (c ∷ l) = String.◌++◌ c (join_chunks l)

abbrev pub request_text : Service → Request → String
request_text v r = elim v.inflate [
  | none ↦ join_chunks r.chunks
  | some f ↦ if r.is_gzip then f r.chunks else join_chunks r.chunks
]

abbrev pub process_actions : Service → Handling × Outcome → List Action
process_actions v (h, out) = all_actions v.setting h.answers ++ error_actions v out

abbrev pub post_actions : Service → Request → Option String → List Action
post_actions v r none =
    set_status (number "415") ∷ write "The Content-Type is expected in the headers" ∷ finish ∷ []
post_actions v r (some t) =
    if t == ""
    then set_status (number "415")
      ∷ write "The Content-Type is expected in the headers"
      ∷ finish
      ∷ []
    else set_header "Content-Type" t
      ∷ process_actions v (process v r.pathname (v.read (request_text v r)))

-- `reqQuery && reqQuery.toLowerCase() === '?wsdl'`
abbrev pub wants_wsdl : Service → Option String → Bool
wants_wsdl v none = false
wants_wsdl v (some q) = if q == "" then false else v.lower q == "?wsdl"

-- `_requestListener`, up to the later calls of a method's callback.
unfoldable pub request_listener : Service → Request → List Action
unfolding process
request_listener v r =
    if r.method == "GET"
    then (if wants_wsdl v r.query
        then set_header "Content-Type" "application/xml" ∷ write v.wsdl_text ∷ finish ∷ []
        else finish ∷ [])
    else if r.method == "POST"
    then post_actions v r r.content_type
    else finish ∷ []

-- The listener that the constructor adds: `none` where the request goes to the other listeners.
unfoldable pub listen : Service → Request → Option (List Action)
unfolding request_listener with_slash
listen v r =
    if (elim v.authorize [ none ↦ true | some allows ↦ allows r.remote_address ])
    then if with_slash v.path == with_slash r.pathname then some (request_listener v r) else none
    else some (finish ∷ [])
