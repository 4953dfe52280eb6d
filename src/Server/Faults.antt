-- ===== src/Server/Faults.antt =====
-- `_process` of src/server.js and the Faults that methods throw.
use strong_soap.Common.{
  String, Bool, true, false, ◌≡◌, ap, ◌∙◌, Option, none, some, [], if◌then◌else◌, ◌==◌,
}
use strong_soap.Common.Dict.{Dict}
use strong_soap.Common.Result.{ok}
use strong_soap.XmlReader.Values.{Json}
use strong_soap.Server.{
  BoundOperation, Binding, Port, Search, find_operation, message_name, body_field, fault_of,
}
use strong_soap.Server.Replies.{Setting}
use strong_soap.Server.Requests.{
  throws, Method, threw, plain_error, and_then, call_backs, end_method, begin_method, run_method,
  execute_at, operation_at, execute_method, caught, caught_by, dispatch, dispatch_named,
  dispatch_found, chain_at, at,
}

-- A method that throws before it calls its callback.
method_throws :
    (s : Setting) (timestamp : Bool) (o : BoundOperation) (f : Method) (args e : Json)
    → (f args).before ≡ []
    → (f args).ending ≡ throws e
    → run_method s timestamp o (some f) args ≡ (begin_method o, threw e)
unfolding run_method call_backs
method_throws s timestamp o f args e quiet ends =
    ap
      (λ calls.
        and_then (call_backs s timestamp o calls (begin_method o))
          (λ h. end_method s timestamp o (f args).ending h))
      quiet
    ∙ ap (λ x. end_method s timestamp o x (begin_method o)) ends

module _ (s : Setting) (timestamp : Bool) (ports : Dict (Dict Port))
    (services : Dict (Dict (Dict Method))) (search : Search) (b : Binding) (body : Json)
    (m name : Option String) (methods : Dict Method) (o : BoundOperation) (f : Method)
    (e fault : Json)
    (port : chain_at (at search.service_name services) (at search.port_name) ≡ some methods)
    (operation : operation_at ports search name ≡ some o) (method : at name methods ≡ some f)
    (quiet : (f (body_field m body)).before ≡ []) (ends : (f (body_field m body)).ending ≡ throws e)
    (is_fault : fault_of e ≡ some fault)
    (message : message_name s.options.attributes_key body ≡ ok m) where
  execute-throws :
      (t : Bool)
      → execute_method s t ports services search name (body_field m body)
        ≡ (begin_method o, threw e)
  unfolding execute_method
  execute-throws t =
      ap (λ x. execute_at s t x (operation_at ports search name) name (body_field m body)) port
      ∙ ap (λ x. execute_at s t (some methods) x name (body_field m body)) operation
      ∙ ap (λ x. run_method s t o x (body_field m body)) method
      ∙ method_throws s t o f (body_field m body) e quiet ends

  caught-throws :
      (t : Bool) (p : Option BoundOperation)
      → caught s t p (execute_method s t ports services search name (body_field m body))
        ≡ caught_by s t p (some fault) e (begin_method o)
  unfolding caught
  caught-throws t p =
      ap (caught s t p) (execute-throws t) ∙ ap (λ x. caught_by s t p x e (begin_method o)) is_fault

-- In the style rpc a Fault that a method throws before it calls its callback is lost: what reaches the
-- listener is an error without a Fault, and no fault message is sent.
pub dispatch-rpc_fault :
    (s : Setting) (timestamp : Bool) (ports : Dict (Dict Port))
    (services : Dict (Dict (Dict Method))) (search : Search) (b : Binding) (body : Json)
    (m : Option String) (methods : Dict Method) (o : BoundOperation) (f : Method) (e fault : Json)
    → chain_at (at search.service_name services) (at search.port_name) ≡ some methods
    → operation_at ports search m ≡ some o
    → at m methods ≡ some f
    → (f (body_field m body)).before ≡ []
    → (f (body_field m body)).ending ≡ throws e
    → fault_of e ≡ some fault
    → message_name s.options.attributes_key body ≡ ok m
    → (b.style == "rpc") ≡ true
    → dispatch s timestamp ports services search b body ≡ (begin_method o, threw plain_error)
unfolding dispatch
dispatch-rpc_fault s timestamp ports services search b body m methods o f e fault port operation
      method quiet ends is_fault message rpc =
    ap (dispatch_named s timestamp ports services search b body) message
    ∙ ap
        (λ x.
          if x
          then caught s false none
              (execute_method s false ports services search m (body_field m body))
          else dispatch_found s timestamp ports services search b (body_field m body)
              (find_operation m b.operations none))
        rpc
    ∙ caught-throws s timestamp ports services search b body m m methods o f e fault port operation
        method quiet ends is_fault message false none
