-- ===== src/Server/Requests.antt =====
-- src/server.js: `_process`, `_executeMethod` and `_requestListener`.
-- A method of a service is what it does with its arguments: the calls of its callback before it ends,
-- how it ends, and the calls of its callback later. It does not catch what its callback throws.
use strong_soap.Common.{
  String, Bool, true, false, ◌==◌, Option, none, some, List, [], ◌∷◌, ◌++◌, if◌then◌else◌,
}
use strong_soap.Common.Dict.{Dict, get}
use strong_soap.Common.Result.{Result, ok, throw, diverge, ◌>>=◌}
use strong_soap.Operation.{Parameter}
use strong_soap.XmlReader.Values.{Json, undefined, null_value, object, no_field}
use strong_soap.Server.{
  BoundOperation, Binding, Port, Search, Found, find_operation, message_name, body_field, fault_of,
}
use strong_soap.Server.Replies.{Setting, Answer, result_message, send_error}

-- The arguments that a method gives to its callback.
pub record Called : Type 0 where
  pub error : Json
  pub result : Json

pub data Ending : Type 0 where
  returns throws : Json → Ending

pub record Behaviour : Type 0 where
  pub before : List Called
  pub ending : Ending
  pub later : List Called

abbrev pub Method : Type 0
Method = Json → Behaviour

-- How a call of the server's own code ends; an error without a property Fault is an object without keys.
pub data Outcome : Type 0 where
  returned : Outcome
  threw : Json → Outcome

abbrev pub plain_error : Json
plain_error = object no_field

-- `handled`, and what the callback of `_process` was given.
pub record Handling : Type 0 where
  pub handled : Bool
  pub answers : List Answer

abbrev pub answered : Handling → Result Answer → Handling × Outcome
answered h (ok a) = (record h { answers = h.answers ++ a ∷ [] }, returned)
answered h (throw x) = (h, threw plain_error)
answered h diverge = (h, threw plain_error)

abbrev pub is_undefined : Json → Bool
is_undefined undefined = true
is_undefined v = false

abbrev pub answer_of : Result String → Result Answer
answer_of r = r >>= λ xml. ok (record { xml = xml; status = none })

abbrev pub reply_by : Setting → Bool → BoundOperation → Option Json → Called → Result Answer
reply_by s timestamp o none c =
    answer_of (result_message s timestamp o (if is_undefined c.result then c.error else c.result))
reply_by s timestamp o (some fault) c = send_error s timestamp o fault

-- `handleResult` behind the test of `handled`.
abbrev pub reply_to : Setting → Bool → BoundOperation → Called → Result Answer
reply_to s timestamp o c = reply_by s timestamp o (fault_of c.error) c

-- `handleResult`
unfoldable pub handle_result :
    Setting → Bool → BoundOperation → Handling → Called → Handling × Outcome
handle_result s timestamp o h c =
    if h.handled
    then (h, returned)
    else answered (record h { handled = true }) (reply_to s timestamp o c)

-- The next piece of code runs where the last one returned.
abbrev pub and_then : Handling × Outcome → (Handling → Handling × Outcome) → Handling × Outcome
and_then (h, returned) next = next h
and_then (h, threw e) next = (h, threw e)

unfoldable pub call_backs :
    Setting → Bool → BoundOperation → List Called → Handling → Handling × Outcome
unfolding handle_result
call_backs s timestamp o [] h = (h, returned)
call_backs s timestamp o (c ∷ calls) h =
    and_then (handle_result s timestamp o h c) (λ h'. call_backs s timestamp o calls h')

-- `if (typeof result !== 'undefined') handleResult(null, result)`
abbrev pub end_method : Setting → Bool → BoundOperation → Ending → Handling → Handling × Outcome
end_method s timestamp o (throws e) h = (h, threw e)
end_method s timestamp o (returns v) h =
    if is_undefined v
    then (h, returned)
    else handle_result s timestamp o h (record { error = null_value; result = v })

-- `callback('')` where the operation has no output.
abbrev pub begin_with : Option Parameter → Handling
begin_with none = record { handled = true; answers = record { xml = ""; status = none } ∷ [] }
begin_with (some p) = record { handled = false; answers = [] }

abbrev pub begin_method : BoundOperation → Handling
begin_method o = begin_with o.operation.output

-- `_executeMethod` from the test for an output on.
unfoldable pub run_method :
    Setting → Bool → BoundOperation → Option Method → Json → Handling × Outcome
unfolding call_backs
run_method s timestamp o none args = (begin_method o, threw plain_error)
run_method s timestamp o (some f) args =
    and_then (call_backs s timestamp o (f args).before (begin_method o))
      (λ h. end_method s timestamp o (f args).ending h)

-- The later calls of the callback; what one of them throws ends in no reply.
unfoldable pub run_later : Setting → Bool → BoundOperation → List Called → Handling → Handling
unfolding handle_result
run_later s timestamp o [] h = h
run_later s timestamp o (c ∷ calls) h =
    run_later s timestamp o calls (handle_result s timestamp o h c).0

-- `a[k]` where the key may be undefined, which no method or operation is called.
abbrev pub at {ℓ} : {V : Type ℓ} → Option String → Dict V → Option V
at none d = none
at (some k) d = get k d

abbrev pub chain_at {ℓ κ} : {V : Type ℓ} {W : Type κ} → Option V → (V → Option W) → Option W
chain_at none f = none
chain_at (some v) f = f v

abbrev pub port_at : Dict (Dict Port) → Search → Option Port
port_at services s = chain_at (at s.service_name services) (at s.port_name)

abbrev pub nothing_done : Handling
nothing_done = record { handled = false; answers = [] }

-- Where the services have no such port the callback is given an envelope that is no text, which the
-- response refuses; where the port's binding has no such operation the code reads a property of
-- undefined.
abbrev pub execute_at :
    Setting
    → Bool
    → Option (Dict Method)
    → Option BoundOperation
    → Option String
    → Json
    → Handling × Outcome
execute_at s timestamp none o name args = (nothing_done, threw plain_error)
execute_at s timestamp (some methods) none name args = (nothing_done, threw plain_error)
execute_at s timestamp (some methods) (some o) name args =
    run_method s timestamp o (at name methods) args

abbrev pub operation_at : Dict (Dict Port) → Search → Option String → Option BoundOperation
operation_at ports search name = chain_at (port_at ports search) (λ p. at name p.binding.operations)

-- `_executeMethod`
unfoldable pub execute_method :
    Setting
    → Bool
    → Dict (Dict Port)
    → Dict (Dict (Dict Method))
    → Search
    → Option String
    → Json
    → Handling × Outcome
unfolding run_method
execute_method s timestamp ports services search name args =
    execute_at s timestamp (chain_at (at search.service_name services) (at search.port_name))
      (operation_at ports search name) name args

-- The `catch` of `_process`: a Fault is sent by the operation of the key that the loop tried last.
abbrev pub caught_by :
    Setting → Bool → Option BoundOperation → Option Json → Json → Handling → Handling × Outcome
caught_by s timestamp o none e h = (h, threw e)
caught_by s timestamp none (some fault) e h = (h, threw plain_error)
caught_by s timestamp (some o) (some fault) e h = answered h (send_error s timestamp o fault)

unfoldable pub caught :
    Setting → Bool → Option BoundOperation → Handling × Outcome → Handling × Outcome
caught s timestamp o (h, returned) = (h, returned)
caught s timestamp o (h, threw e) = caught_by s timestamp o (fault_of e) e h

-- The style document, with what the search for the operation found.
abbrev pub dispatch_found :
    Setting
    → Bool
    → Dict (Dict Port)
    → Dict (Dict (Dict Method))
    → Search
    → Binding
    → Json
    → Result Found
    → Handling × Outcome
dispatch_found s timestamp ports services search b args (throw x) =
    (nothing_done, threw plain_error)
dispatch_found s timestamp ports services search b args diverge = (nothing_done, threw plain_error)
dispatch_found s timestamp ports services search b args (ok found) =
    caught s timestamp (at found.last_key b.operations)
      (execute_method s timestamp ports services search found.operation_name args)

-- With the name of the message's element. In the style rpc the catch reads a variable that is undefined
-- there.
abbrev pub dispatch_named :
    Setting
    → Bool
    → Dict (Dict Port)
    → Dict (Dict (Dict Method))
    → Search
    → Binding
    → Json
    → Result (Option String)
    → Handling × Outcome
dispatch_named s timestamp ports services search b body (throw x) =
    (nothing_done, threw plain_error)
dispatch_named s timestamp ports services search b body diverge = (nothing_done, threw plain_error)
dispatch_named s timestamp ports services search b body (ok m) =
    if b.style == "rpc"
    then caught s false none (execute_method s false ports services search m (body_field m body))
    else dispatch_found s timestamp ports services search b (body_field m body)
        (find_operation m b.operations none)

-- `_process` behind the choice of the binding.
unfoldable pub dispatch :
    Setting
    → Bool
    → Dict (Dict Port)
    → Dict (Dict (Dict Method))
    → Search
    → Binding
    → Json
    → Handling × Outcome
unfolding execute_method caught
dispatch s timestamp ports services search b body =
    dispatch_named s timestamp ports services search b body
      (message_name s.options.attributes_key body)
