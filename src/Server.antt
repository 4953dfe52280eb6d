-- ===== src/Server.antt =====
-- src/server.js: from a request to the operation that answers it.
-- `listeners`, logging and events are left out. `url.parse` has been called: a request has its path and
-- its query, a port the path of its location.
pub mod Replies
pub mod Requests
pub mod Listening
pub mod Ports
pub mod Answers
pub mod Faults
pub mod Finishes
mod Tests
use Prim.Native.String
use strong_soap.Common.{
  ℕ, Char, code, String, Bool, true, false, ◌&&◌, ◌==◌, nat_eq, Option, none, some, List, [], ◌∷◌,
  ◌++◌, if◌then◌else◌, truthy?,
}
use strong_soap.Common.Dict.{Dict, get}
use strong_soap.Common.Result.{Result, ok, throw, type_error, ◌>>=◌}
use strong_soap.Operation.{Operation, Style}
use strong_soap.XmlReader.Values.{
  Json, undefined, null_value, text, object, Fields, no_field, field, get_field,
}
use strong_soap.XmlWriter.Values.{defined}

-- An operation of a binding, with its mode, the names of the elements of its input's parts (`none` for a
-- part without an element) and that of its output's first part.
pub record BoundOperation : Type 0 where
  pub operation : Operation
  pub mode : Option Style
  pub input_parts : List (Option String)
  pub output_parts : List (Option String)

pub record Binding : Type 0 where
  pub style : String
  pub operations : Dict BoundOperation

pub record Port : Type 0 where
  pub pathname : String
  pub binding : Binding

-- `path.replace(/\/$/, '')`
unfoldable pub without_slash : String → String
without_slash String.[] = ""
without_slash (String.◌∷◌ c s) =
    if nat_eq (code c) b'/' && (s == "") then "" else String.◌∷◌ c (without_slash s)

-- Where the search for the binding stands: the names that were tried last, and the first port.
pub record Search : Type 0 where
  pub service_name : Option String
  pub port_name : Option String
  pub first_port : Option Port

-- `if (!firstPort) firstPort = port`
abbrev pub kept_first : Option Port → Port → Option Port
kept_first none port = some port
kept_first (some p) port = some p

-- The inner loop, over a service's ports: the binding that is returned, if any.
unfoldable pub try_ports : String → Dict Port → Search → Search × Option Binding
unfolding without_slash
try_ports pathname [] s = (s, none)
try_ports pathname ((name, port) ∷ ports) s =
    let named : Search = record s { port_name = some name } in
    let rest =
      try_ports pathname ports (record named { first_port = kept_first s.first_port port }) in
    if without_slash port.pathname == pathname then (named, some port.binding) else rest

-- A loop goes on where its body has not returned.
abbrev pub unless_found :
    Search × Option Binding → (Search → Search × Option Binding) → Search × Option Binding
unless_found (s, some b) next = (s, some b)
unless_found (s, none) next = next s

abbrev pub first_binding : Option Port → Option Binding
first_binding none = none
first_binding (some p) = some p.binding

-- The outer loop, over the services. Without a port at the path it is the first port's binding.
unfoldable pub try_services : String → Dict (Dict Port) → Search → Search × Option Binding
unfolding try_ports
try_services pathname [] s = (s, first_binding s.first_port)
try_services pathname ((name, ports) ∷ services) s =
    unless_found (try_ports pathname ports (record s { service_name = some name }))
      (λ s'. try_services pathname services s')

unfoldable pub find_binding : String → Dict (Dict Port) → Search × Option Binding
unfolding try_services
find_binding pathname services =
    try_services pathname services
      (record { service_name = none; port_name = none; first_port = none })

-- `Object.keys(body)[0]`, or the second key where the first is the one for attributes.
unfoldable pub message_name : String → Json → Result (Option String)
message_name key (object no_field) = ok none
message_name key (object (field k v no_field)) = ok (if k == key then none else some k)
message_name key (object (field k v (field j w d))) = ok (some (if k == key then j else k))
message_name key undefined = throw type_error
message_name key null_value = throw type_error
message_name key body = ok none

-- `firstPart.element.$name`
abbrev pub first_part_name : List (Option String) → Result String
first_part_name [] = throw type_error
first_part_name (none ∷ parts) = throw type_error
first_part_name (some n ∷ parts) = ok n

-- What the search for a message's operation finds: the operation's name and its output's, and the key
-- that the loop tried last.
pub record Found : Type 0 where
  pub operation_name : Option String
  pub output_name : Option String
  pub last_key : Option String

abbrev pub output_of : BoundOperation → Result (Option String)
output_of o = elim o.operation.output [
  | none ↦ ok none
  | some p ↦ first_part_name o.output_parts >>= λ n. ok (some n)
]

unfoldable pub find_operation : Option String → Dict BoundOperation → Option String → Result Found
find_operation message [] last =
    ok (record { operation_name = none; output_name = none; last_key = last })
find_operation message ((key, o) ∷ operations) last = first_part_name o.input_parts >>= λ n.
    if (elim message [ none ↦ false | some m ↦ n == m ])
    then (output_of o >>= λ output. ok (record {
      operation_name = some o.operation.name;
      output_name = output;
      last_key = some key;
    }))
    else find_operation message operations (some key)

-- `body[name]`
abbrev pub body_field : Option String → Json → Json
body_field (some n) (object d) = elim (get_field n d) [ none ↦ undefined | some v ↦ v ]
body_field n body = undefined

-- `error.Fault` where it is not undefined.
abbrev pub fault_of : Json → Option Json
fault_of (object d) = defined (get_field "Fault" d)
fault_of v = none
