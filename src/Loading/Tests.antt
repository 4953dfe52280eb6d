-- ===== src/Loading/Tests.antt =====
-- Runs of the loading of src/parser/wsdl.js, and its theorems at inputs.
use strong_soap.Common.{
  ◌≡◌, refl, String, false, Option, none, some, List, [], ◌∷◌, if◌then◌else◌, ◌==◌, arith, sym, ap,
  inl, inr, Bool-cases,
}
use strong_soap.Common.Result.{error}
use strong_soap.Loading.{
  Reader, found, done, raised, Include, Reply, State, start, load, open_wsdl, include_path,
}
use strong_soap.Loading.Settled.{Once, IsClosed, IsDirect}
use strong_soap.Loading.Replies.{open_wsdl-ends, Redirected, load-Redirected}

abbrev to : String → Include
to uri = record { namespace = none; location = uri; is_include = false }

-- Two documents that include each other; definitions are the texts.
abbrev imports : String → List Include
imports text = if text == "a" then to "b" ∷ [] else to "a" ∷ []

abbrev circular : Reader
circular = record {
  Definitions = String;
  Memory = Unit {0};
  fetch = λ u. found u u;
  resolve_path = λ base uri. uri;
  resolve_url = λ base uri. uri;
  parse = λ text m. (done text, m);
  includes = λ d m. imports d;
  merge = λ i d e m. (done tt, m);
  process_schemas = λ d m. (done tt, m);
  process_services = λ d m. (done tt, m);
}

abbrev reads_of : Option (Reply × State circular) → List String
reads_of none = []
reads_of (some (r, t)) = t.reads

open_test : reads_of (open_wsdl circular 2 (start circular tt) "a") ≡ "b" ∷ "a" ∷ []
unfolding open_wsdl load
open_test = refl

location_of : (u v : String) → include_path circular u (to v) ≡ v
unfolding include_path
location_of u v = ground (arith)

circular-IsClosed : IsClosed circular ("a" ∷ "b" ∷ [])
circular-IsClosed u h t m m' d c e p = elim (Bool-cases (d == "a")) [
  | inl yes_a ↦ rw yes_a (rw (location_of u "b") refl, tt)
  | inr no_a ↦ rw no_a (rw (location_of u "a") refl, tt)
]

circular-IsDirect : IsDirect circular
circular-IsDirect u h t e = sym (cc e)

open_wsdl-ends_example :
    (r : Reply) × (t : State circular) × (open_wsdl circular 2 (start circular tt) "a"
      ≡ some (r, t))
    × Once t.reads
open_wsdl-ends_example =
    open_wsdl-ends circular ("a" ∷ "b" ∷ []) "a" tt circular-IsDirect circular-IsClosed refl

-- Every request is redirected to the URI v.
abbrev moving : Reader
moving = record circular { fetch = λ u. found "v" "moved"; includes = λ d m. to "u" ∷ [] }

moving-Redirected : Redirected moving "u" "v" "moved" (to "u")
unfolding include_path
moving-Redirected = record {
  answer = refl;
  moved = λ e. cc (ap (λ s. s == "u") e);
  parsed = λ m. ("moved", m, [], refl, refl);
  back = refl;
}

load-Redirected_example : load moving 1000 (start moving tt) "u" ≡ none
load-Redirected_example =
    load-Redirected moving "u" "v" "moved" (to "u") 1000 (start moving tt) moving-Redirected refl

-- No document can be parsed.
abbrev unparsable : Reader
unparsable = record circular { parse = λ text m. (raised (error "malformed"), m) }
