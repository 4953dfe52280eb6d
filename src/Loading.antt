-- ===== src/Loading.antt =====
-- The loading of WSDL and XSD documents in src/parser/wsdl.js: `load`, `open`, `_loadAsyncOrSync`,
-- `processIncludes` and `_processNextInclude`, with the cache that their calls share.
-- What parsing, merging and post-processing make of definitions, the reading of files, requests and
-- the resolution of paths are fields of Reader. Each callback is called when the work before it is
-- done, so that the calls are written one in the other.
pub mod Settled
pub mod Including
pub mod Cycles
pub mod Replies
mod Tests
use strong_soap.Common.{
  ℕ, zero, suc, ◌+◌, nat_eq, String, Bool, true, false, ◌||◌, Option, none, some, List, [], ◌∷◌,
  if◌then◌else◌,
}
use strong_soap.Common.Dict.{Dict, get, put}
use strong_soap.Common.Result.{Error, type_error, error}
use text.Mathlib.Text.{starts_with}

-- An entry of `schema.includes`.
pub record Include : Type 0 where
  pub namespace : Option String
  pub location : String
  pub is_include : Bool

-- What a read of a file or a request comes to.
pub data Fetched : Type 0 where
  -- The error that the file system or the HTTP client reports.
  unread : Error → Fetched
  -- The text, with the URI that the response names; a file has its own.
  found : (href : String) → String → Fetched
  -- A response whose status is not 200.
  refused : Fetched
  -- No error and no response.
  no_response : Fetched

-- How work on the definitions ends: with a value, or with an error that is thrown.
pub data Worked (A : Type 0) : Type 0 where
  done : A → Worked A
  raised : Error → Worked A

-- `Definitions` stands for references to definitions, `Memory` for what they hold.
pub record Reader : Type 1 where
  pub Definitions : Type 0
  pub Memory : Type 0
  pub fetch : String → Fetched
  -- `path.resolve(path.dirname(uri), location)` and `url.resolve(uri, location)`.
  pub resolve_path : String → String → String
  pub resolve_url : String → String → String
  -- `_fromXML`.
  pub parse : String → Memory → Worked Definitions × Memory
  -- The `includes` of all schemas, one after the other.
  pub includes : Definitions → Memory → List Include
  -- The merge of an included document, whose definitions may be missing.
  pub merge : Include → Definitions → Option Definitions → Memory → Worked (Unit {0}) × Memory
  -- The post-processing of the schemas, and that of the services.
  pub process_schemas : Definitions → Memory → Worked (Unit {0}) × Memory
  pub process_services : Definitions → Memory → Worked (Unit {0}) × Memory

-- `/^https?:/.test(uri)`
abbrev pub is_http : String → Bool
is_http uri = starts_with uri "http:" || starts_with uri "https:"

-- What a call of `load` ends in: the callback with an error, the callback with a WSDL, or a thrown
-- error that no callback is given.
pub data Reply : Type 0 where
  failed : Error → Reply
  given : ℕ → Reply
  thrown : Error → Reply

-- How the includes end: all are done, the callback gets an error, or an error is thrown.
pub data Included : Type 0 where
  complete : Included
  broken : Error → Included
  crashed : Error → Included

module _ (reader : Reader) where
  open reader use {
    Definitions, Memory, fetch, resolve_path, resolve_url, parse, includes, merge, process_schemas,
    process_services,
  }

  -- A WSDL object.
  pub record Wsdl : Type 0 where
    pub content : String
    pub uri : String
    pub definitions : Option Definitions
    pub is_loaded : Bool

  -- The objects by number, the cache, what definitions hold, and the reads made, the last one first.
  pub record State : Type 0 where
    pub objects : ℕ → Wsdl
    pub count : ℕ
    pub cache : Dict ℕ
    pub memory : Memory
    pub reads : List String

  abbrev pub change : (ℕ → Wsdl) → ℕ → Wsdl → ℕ → Wsdl
  change objects i w j = if nat_eq i j then w else objects j

  abbrev pub set_object : State → ℕ → Wsdl → State
  set_object s i w = record s { objects = change s.objects i w }

  unfoldable pub include_path : String → Include → String
  include_path uri i =
      if is_http uri || is_http i.location
      then resolve_url uri i.location
      else resolve_path uri i.location

  -- The callback `staticLoad` for a WSDL that was loaded: the including document's definitions, the
  -- included one's, and the merge.
  unfoldable pub static_load :
      Include → Option Definitions → Option Definitions → State → Worked (Unit {0}) × State
  static_load inc none e s = (raised type_error, s)
  static_load inc (some d) e s = let (w, m) = merge inc d e s.memory in (w, record s { memory = m })

  unfoldable pub merged :
      (State → Option (Included × State)) → Worked (Unit {0}) × State → Option (Included × State)
  merged go_on (done u, s) = go_on s
  merged go_on (raised e, s) = some (crashed e, s)

  -- What follows the load of one include.
  unfoldable pub after_load :
      (State → Option (Included × State))
      → ℕ
      → Include
      → Option (Reply × State)
      → Option (Included × State)
  unfolding static_load merged
  after_load go_on i inc none = none
  after_load go_on i inc (some (failed e, s)) = some (broken e, s)
  after_load go_on i inc (some (thrown e, s)) = some (crashed e, s)
  after_load go_on i inc (some (given j, s)) =
      merged go_on (static_load inc (s.objects i).definitions (s.objects j).definitions s)

  -- `_processNextInclude`, with the function that loads.
  unfoldable pub process_includes :
      (State → String → Option (Reply × State))
      → ℕ
      → List Include
      → State
      → Option (Included × State)
  unfolding include_path after_load
  process_includes load i [] s = some (complete, s)
  process_includes load i (inc ∷ rest) s =
      after_load (process_includes load i rest) i inc (load s (include_path (s.objects i).uri inc))

  -- The callback of `processIncludes` in `_loadAsyncOrSync`: an error in a schema is thrown, one in a
  -- service goes to the callback.
  unfoldable pub services_processed : ℕ → Worked (Unit {0}) × Memory → State → Reply × State
  services_processed i (done u, m) s = (given i, record s { memory = m })
  services_processed i (raised e, m) s = (failed e, record s { memory = m })

  unfoldable pub post_process : ℕ → Definitions → Worked (Unit {0}) × Memory → State → Reply × State
  unfolding services_processed
  post_process i d (done u, m) s = services_processed i (process_services d m) s
  post_process i d (raised e, m) s = (thrown e, record s { memory = m })

  unfoldable pub after_includes :
      ℕ → Definitions → Option (Included × State) → Option (Reply × State)
  unfolding post_process
  after_includes i d none = none
  after_includes i d (some (broken e, s)) = some (failed e, s)
  after_includes i d (some (crashed e, s)) = some (thrown e, s)
  after_includes i d (some (complete, s)) = some (post_process i d (process_schemas d s.memory) s)

  -- The object is marked before anything is done with its content.
  unfoldable pub mark_loaded : ℕ → State → State
  mark_loaded i s = set_object s i (record (s.objects i) { is_loaded = true })

  unfoldable pub set_definitions : ℕ → Definitions → Memory → State → State
  set_definitions i d m s =
      record (set_object s i (record (s.objects i) { definitions = some d })) { memory = m }

  -- The includes are those that the schemas have once the document is parsed.
  unfoldable pub after_parse :
      (State → String → Option (Reply × State))
      → ℕ
      → Worked Definitions × Memory
      → State
      → Option (Reply × State)
  unfolding process_includes after_includes set_definitions
  after_parse load i (raised e, m) s = some (failed e, record s { memory = m })
  after_parse load i (done d, m) s =
      after_includes i d (process_includes load i (includes d m) (set_definitions i d m s))

  -- `_loadAsyncOrSync`.
  unfoldable pub load_object :
      (State → String → Option (Reply × State)) → ℕ → State → Option (Reply × State)
  unfolding after_parse mark_loaded
  load_object load i s = after_parse load i (parse (s.objects i).content s.memory) (mark_loaded i s)

  -- `new WSDL(definition, uri, options)`, put in the cache.
  unfoldable pub new_object : String → String → State → State
  new_object uri text s = record s {
    objects =
        change s.objects s.count
          (record { content = text; uri = uri; definitions = none; is_loaded = false });
    count = s.count + 1;
    cache = put uri s.count s.cache;
  }

  unfoldable pub after_fetch :
      (State → String → Option (Reply × State)) → Fetched → State → Option (Reply × State)
  unfolding load_object new_object
  after_fetch load (unread e) s = some (failed e, s)
  after_fetch load (found href text) s = load_object load s.count (new_object href text s)
  after_fetch load refused s =
      some (failed (error "Invalid {{WSDL URL}}: %s\n\n\r Code: %s\n\n\r Response Body: %j"), s)
  after_fetch load no_response s = some (thrown type_error, s)

  -- The end of `open`: the text is read.
  unfoldable pub read_object :
      (State → String → Option (Reply × State)) → String → State → Option (Reply × State)
  unfolding after_fetch
  read_object load uri s = after_fetch load (fetch uri) (record s { reads = uri ∷ s.reads })

  -- `WSDL.open`: only an object of the cache that is not loaded is taken from there.
  unfoldable pub open_uri :
      (State → String → Option (Reply × State)) → State → String → Option (Reply × State)
  unfolding load_object read_object
  open_uri load s uri = elim (get uri s.cache) [
    | none ↦ read_object load uri s
    | some i ↦ if (s.objects i).is_loaded then read_object load uri s else load_object load i s
  ]

  -- `WSDL.load`.
  unfoldable pub load_with :
      (State → String → Option (Reply × State)) → State → String → Option (Reply × State)
  unfolding open_uri
  load_with load s uri = elim (get uri s.cache) [
    | none ↦ open_uri load s uri
    | some i ↦ if (s.objects i).is_loaded then some (given i, s) else open_uri load s uri
  ]

  -- The fuel bounds how deep the includes lead; without any left the call has no end.
  unfoldable pub load : ℕ → State → String → Option (Reply × State)
  unfolding load_with
  load zero s uri = none
  load (suc f) s uri = load_with (load f) s uri

  -- `WSDL.open` as the program calls it, with the fuel for the includes.
  unfoldable pub open_wsdl : ℕ → State → String → Option (Reply × State)
  unfolding open_uri
  open_wsdl f s uri = open_uri (load f) s uri

  -- The state before the first call: nothing is cached.
  abbrev pub start : Memory → State
  start m = record {
    objects = λ i. record { content = ""; uri = ""; definitions = none; is_loaded = false };
    count = 0;
    cache = [];
    memory = m;
    reads = [];
  }
