-- ===== src/Bindings.antt =====
-- The post-processing of WSDL elements: `postProcess` of part.js, message.js, parameter.js,
-- operation.js, portType.js, binding.js and service.js in src/parser/wsdl. A message is the dictionary
-- of its parts. What `getMode` makes of an operation that is bound is in Operation.
pub mod Messages
pub mod Bound
mod Tests
use Prim.Native.String
use strong_soap.Common.{
  ℕ, zero, suc, String, Bool, true, false, not, ◌||◌, ◌==◌, Option, none, some, List, [], ◌∷◌, ◌++◌,
  map, if◌then◌else◌, truthy?, or_else,
}
use strong_soap.Common.Dict.{Dict, get, put}
use strong_soap.Common.Result.{Result, ok, throw, type_error, error, ◌>>=◌}
use strong_soap.QName.{QName, parse, null}
use strong_soap.XmlReader.Values.{is_space}

-- `text.split(/\s+/)`: `current` is the part that is being read, after a space or not.
split_from : Bool → String → String → List String
split_from after current String.[] = current ∷ []
split_from after current (String.◌∷◌ c s) =
    let skipped = split_from true current s in
    let ended = current ∷ split_from true "" s in
    let longer = split_from false (String.◌++◌ current (String.◌∷◌ c "")) s in
    if is_space c then (if after then skipped else ended) else longer

unfoldable pub split_spaces : String → List String
unfolding split_from
split_spaces s = split_from false "" s

-- The input, output or fault of an operation in a portType: its attribute message.
pub record PortParameter : Type 0 where
  pub message : Option String

pub record PortOperation : Type 0 where
  pub input : Option PortParameter
  pub output : Option PortParameter
  pub faults : List PortParameter
  pub parameter_order : Option String

-- A soap:header of a binding.
pub record SoapHeader : Type 0 where
  pub message : Option String
  pub part : Option String

-- The input or output of an operation in a binding: the attribute parts of its body, if it has one.
pub record BindingParameter : Type 0 where
  pub body : Option (Option String)
  pub headers : List SoapHeader

-- A fault of an operation in a binding, with a soap:fault or without.
pub record BindingOperation : Type 0 where
  pub style : Option String
  pub input : Option BindingParameter
  pub output : Option BindingParameter
  pub faults : List Bool

-- A part of a message: its attributes element and type.
pub record Part : Type 0 where
  pub element : Option String
  pub type : Option String

-- What `postProcess` of a part resolves in the schemas.
abbrev pub reference : Part → Option String
reference p = if truthy? p.element then p.element else if truthy? p.type then p.type else none

-- `resolveSchemaObject` of a reference, up to the name that it looks up.
unfoldable pub process_reference : Option String → Result (Option QName)
process_reference none = ok none
process_reference (some r) = parse (some r) null >>= λ q. ok (some q)

-- `postProcess` of a part.
unfoldable pub process_part : Part → Result (Option QName)
unfolding process_reference
process_part p = process_reference (reference p)

-- `postProcess` of a message.
unfoldable pub process_message : Dict Part → Result (List (Option QName))
unfolding process_part
process_message [] = ok []
process_message ((n, p) ∷ parts) = do
  q ← process_part p
  rest ← process_message parts
  ok (q ∷ rest)

unfoldable pub the_message : Option (Dict Part) → Result (Dict Part)
the_message none = throw (error "Unable to resolve message ")
the_message (some parts) = ok parts

-- `postProcess` of a parameter in a portType.
unfoldable pub resolve_message : Dict (Dict Part) → PortParameter → Result (Dict Part)
unfolding the_message process_message
resolve_message messages p = do
  q ← parse p.message null
  parts ← the_message (get q.name messages)
  processed ← process_message parts
  ok parts

unfoldable pub resolve_optional :
    Dict (Dict Part) → Option PortParameter → Result (Option (Dict Part))
unfolding resolve_message
resolve_optional messages none = ok none
resolve_optional messages (some p) = resolve_message messages p >>= λ parts. ok (some parts)

unfoldable pub resolve_all : Dict (Dict Part) → List PortParameter → Result (List (Dict Part))
unfolding resolve_message
resolve_all messages [] = ok []
resolve_all messages (p ∷ ps) = do
  parts ← resolve_message messages p
  rest ← resolve_all messages ps
  ok (parts ∷ rest)

-- An operation of a portType with the messages that its parameters have.
pub record Resolved : Type 0 where
  pub input : Option (Dict Part)
  pub output : Option (Dict Part)
  pub faults : List (Dict Part)
  pub parameter_order : Option String

-- A parameter of a binding: the message it was given, the parts of its body (one that the message
-- lacks is undefined), and the parts of its headers.
pub record BoundParameter : Type 0 where
  pub message : Option (Dict Part)
  pub parts : Option (Dict (Option Part))
  pub header_parts : List (Option Part)

pub record BoundOperation : Type 0 where
  pub style : String
  pub input : Option BoundParameter
  pub output : Option BoundParameter
  pub faults : List (Option (Dict Part))
  pub parameter_order : Option (List String)

-- `postProcess` of an operation in a portType.
unfoldable pub resolve_operation : Dict (Dict Part) → PortOperation → Result Resolved
unfolding resolve_optional resolve_all
resolve_operation messages o = do
  input ← resolve_optional messages o.input
  output ← resolve_optional messages o.output
  faults ← resolve_all messages o.faults
  ok (record {
    input = input;
    output = output;
    faults = faults;
    parameter_order = o.parameter_order;
  })

-- `postProcess` of a portType: its operations by name.
unfoldable pub resolve_port_type :
    Dict (Dict Part) → Dict PortOperation → Dict Resolved → Result (Dict Resolved)
unfolding resolve_operation
resolve_port_type messages [] done = ok done
resolve_port_type messages ((n, o) ∷ os) done = do
  r ← resolve_operation messages o
  resolve_port_type messages os (put n r done)

unfoldable pub select_parts : Dict Part → List String → Dict (Option Part) → Dict (Option Part)
select_parts message [] parts = parts
select_parts message (n ∷ ns) parts = select_parts message ns (put n (get n message) parts)

abbrev pub all_parts : Dict Part → Dict (Option Part)
all_parts [] = []
all_parts ((n, p) ∷ m) = (n, some p) ∷ all_parts m

-- The parts of a soap:body. Without a message its attribute parts cannot be resolved.
unfoldable pub body_parts :
    Option String → Option (Dict Part) → Result (Option (Dict (Option Part)))
unfolding split_spaces select_parts
body_parts names none = if truthy? names then throw type_error else ok none
body_parts names (some m) = ok (
    if truthy? names
    then some (select_parts m (split_spaces (or_else names "")) [])
    else some (all_parts m))

abbrev pub part_of : Option String → Option (Dict Part) → Option Part
part_of name none = none
part_of name (some m) = if truthy? name then get (or_else name "") m else none

-- The part of a soap:header, of the message that it names or of the parameter's.
unfoldable pub header_part :
    Dict (Dict Part) → Option (Dict Part) → SoapHeader → Result (Option Part)
unfolding process_message
header_part messages own h =
    if truthy? h.message
    then (do
      q ← parse h.message null
      elim (get q.name messages) [
        | none ↦ ok none
        | some m ↦ process_message m >>= λ processed. ok (part_of h.part (some m))
      ])
    else ok (part_of h.part own)

unfoldable pub header_parts :
    Dict (Dict Part) → Option (Dict Part) → List SoapHeader → Result (List (Option Part))
unfolding header_part
header_parts messages own [] = ok []
header_parts messages own (h ∷ hs) = do
  p ← header_part messages own h
  ps ← header_parts messages own hs
  ok (p ∷ ps)

abbrev pub optional_body :
    Option (Option String) → Option (Dict Part) → Result (Option (Dict (Option Part)))
optional_body none m = ok none
optional_body (some names) m = body_parts names m

-- `postProcess` of a parameter in a binding, with the message that the binding set.
unfoldable pub bind_parameter :
    Dict (Dict Part) → Option (Dict Part) → Option BindingParameter → Result (Option BoundParameter)
unfolding body_parts header_parts
bind_parameter messages message none = ok none
bind_parameter messages message (some b) = do
  parts ← optional_body b.body message
  hs ← header_parts messages message b.headers
  ok (some (record { message = message; parts = parts; header_parts = hs }))

-- The faults of a binding beyond those of the portType: one without soap:fault is an error.
-- The others stay, without a message.
unfoldable pub extra_faults : List (Dict Part) → List Bool → Result (List (Option (Dict Part)))
extra_faults ports [] = ok []
extra_faults (p ∷ ports) (b ∷ bs) = extra_faults ports bs
extra_faults [] (true ∷ bs) = extra_faults [] bs >>= λ rest. ok (none ∷ rest)
extra_faults [] (false ∷ bs) = throw type_error

-- One operation of a binding, with the operation of the portType that has its name.
unfoldable pub bind_operation :
    Dict (Dict Part) → String → BindingOperation → Resolved → Result BoundOperation
unfolding bind_parameter extra_faults
bind_operation messages style o r = do
  input ← bind_parameter messages r.input o.input
  output ← bind_parameter messages r.output o.output
  extra ← extra_faults r.faults o.faults
  ok (record {
    style = if truthy? o.style then or_else o.style "" else style;
    input = input;
    output = output;
    faults = map some r.faults ++ extra;
    parameter_order =
        if truthy? r.parameter_order
        then some (split_spaces (or_else r.parameter_order ""))
        else none;
  })

-- The loop of `postProcess` over the operations of a binding.
unfoldable pub bind_operations :
    Dict (Dict Part)
    → String
    → Dict Resolved
    → Dict BindingOperation
    → Dict BoundOperation
    → Result (Dict BoundOperation)
unfolding bind_operation
bind_operations messages style ports [] done = ok done
bind_operations messages style ports ((n, o) ∷ os) done = elim (get n ports) [
  | none ↦ bind_operations messages style ports os done
  | some r ↦ do
    b ← bind_operation messages style o r
    bind_operations messages style ports os (put n b done)
]

-- `postProcess` of a binding: without its portType it has no operations.
unfoldable pub bind_binding :
    Dict (Dict Part)
    → Dict (Dict PortOperation)
    → (type : Option String) (style : String) → Dict BindingOperation
    → Result (Dict BoundOperation)
unfolding resolve_port_type bind_operations
bind_binding messages port_types type style os = do
  q ← parse type null
  elim (get q.name port_types) [
    | none ↦ ok []
    | some port ↦ do
      ports ← resolve_port_type messages port []
      bind_operations messages style ports os []
  ]

-- A port of a service: its attribute binding, and the location of its address.
pub record ServicePort : Type 0 where
  pub binding : Option String
  pub location : Option String

-- `postProcess` of a service, with its bindings processed: a port without one is left out.
unfoldable pub service_ports :
    {B : Type 0}
    → Dict B
    → Dict ServicePort
    → Dict (Option String × B)
    → Result (Dict (Option String × B))
service_ports bindings [] done = ok done
service_ports bindings ((n, p) ∷ ps) done = do
  q ← parse p.binding null
  service_ports bindings ps
      (elim (get q.name bindings) [ none ↦ done | some b ↦ put n (p.location, b) done ])
