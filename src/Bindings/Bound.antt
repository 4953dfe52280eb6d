-- ===== src/Bindings/Bound.antt =====
-- Which operations a binding has after `postProcess` of src/parser/wsdl/binding.js, and what they take
-- over from its portType.
use strong_soap.Common.{
  String, ◌≡◌, refl, ap, sym, ◌==◌, Option, none, some, [], ◌∷◌, eq_iff, Option-cases, Bool-cases,
  inl, inr,
}
use strong_soap.Common.Dict.{Dict, get, put, get-put}
use strong_soap.Common.Result.{Result, ok, value-Chain}
use strong_soap.Bindings.{
  Part, BindingParameter, BindingOperation, Resolved, BoundParameter, BoundOperation, optional_body,
  header_parts, bind_parameter, extra_faults, bind_operation, bind_operations,
}

module _ (messages : Dict (Dict Part)) (style : String) (ports : Dict Resolved) where
  -- A parameter that is bound has the message of the portType's.
  abbrev pub HasMessage : Option (Dict Part) → Option BoundParameter → Type 0
  HasMessage m none = Unit
  HasMessage m (some b) = b.message ≡ m

  pub record Takes (r : Resolved) (b : BoundOperation) : Type 0 where
    pub input : HasMessage r.input b.input
    pub output : HasMessage r.output b.output

  -- Every operation takes the messages of the one in the portType with its name.
  abbrev pub FromPorts : Dict BoundOperation → Type 0
  FromPorts done =
      (n : String) (b : BoundOperation)
      → get n done ≡ some b
      → (r : Resolved) × (get n ports ≡ some r) × Takes r b

  bind_parameter-message :
      (m : Option (Dict Part)) (b : Option BindingParameter) (out : Option BoundParameter)
      → bind_parameter messages m b ≡ ok out
      → HasMessage m out
  unfolding bind_parameter
  bind_parameter-message m none out e = let same : out ≡ none = sym (cc e) in rw same tt
  bind_parameter-message m (some b) out e =
      let body = value-Chain {first = optional_body b.body m} _ e in
      let headers = value-Chain {first = header_parts messages m b.headers} _ body.left in
      let same : out
          ≡ some (record { message = m; parts = body.middle; header_parts = headers.middle }) =
        sym (cc headers.left) in
      rw same refl

  abbrev bound_input : Result BoundOperation → Option BoundParameter
  bound_input (ok b) = b.input
  bound_input r = none

  abbrev bound_output : Result BoundOperation → Option BoundParameter
  bound_output (ok b) = b.output
  bound_output r = none

  put-FromPorts :
      (n : String) (r : Resolved) (b : BoundOperation) (done : Dict BoundOperation)
      → FromPorts done
      → get n ports ≡ some r
      → Takes r b
      → FromPorts (put n b done)
  put-FromPorts n r b done h there takes k c e = elim (Bool-cases (n == k)) [
    | inl same ↦
        let named : n ≡ k = (eq_iff n k).0 same in
        let made : c ≡ b = cc (rw same at (rw (get-put n k b done) at e)) in
        (r, rw (← named) there, rw made takes)
    | inr differ ↦ h k c (rw differ at (rw (get-put n k b done) at e))
  ]

  bind_operation-Takes :
      (o : BindingOperation) (r : Resolved) (b : BoundOperation)
      → bind_operation messages style o r ≡ ok b
      → Takes r b
  unfolding bind_operation
  bind_operation-Takes o r b e =
      let input = value-Chain {first = bind_parameter messages r.input o.input} _ e in
      let output = value-Chain {first = bind_parameter messages r.output o.output} _ input.left in
      let extra = value-Chain {first = extra_faults r.faults o.faults} _ output.left in
      let inputs : b.input ≡ input.middle = sym (ap bound_input extra.left) in
      let outputs : b.output ≡ output.middle = sym (ap bound_output extra.left) in
      record {
        input = rw inputs (bind_parameter-message r.input o.input input.middle input.reached);
        output = rw outputs (bind_parameter-message r.output o.output output.middle output.reached);
      }

  bind_operations-FromPorts :
      (os : Dict BindingOperation) (done out : Dict BoundOperation)
      → FromPorts done
      → bind_operations messages style ports os done ≡ ok out
      → FromPorts out
  unfolding bind_operations
  bind_operations-FromPorts [] done out h e = let same : out ≡ done = sym (cc e) in rw same h
  bind_operations-FromPorts ((n, o) ∷ os) done out h e = elim (Option-cases (get n ports)) [
    | inl missing ↦ bind_operations-FromPorts os done out h (rw (missing, bind_operations) at e)
    | inr (r, there) ↦
        let chain =
          value-Chain {first = bind_operation messages style o r} _
            (rw (there, bind_operations) at e) in
        bind_operations-FromPorts os (put n chain.middle done) out
          (put-FromPorts n r chain.middle done h there
            (bind_operation-Takes o r chain.middle chain.reached))
          chain.left
  ]

  -- After a binding is processed, each of its operations is one of the portType's, and its input and
  -- output, where it has them, have the messages that the portType's input and output have.
  pub bind_operations-bound :
      (os : Dict BindingOperation) (out : Dict BoundOperation) (n : String) (b : BoundOperation)
      → bind_operations messages style ports os [] ≡ ok out
      → get n out ≡ some b
      → (r : Resolved) × (get n ports ≡ some r) × Takes r b
  bind_operations-bound os out n b e found =
      bind_operations-FromPorts os [] out (λ n b h. absurd (cc h)) e n b found
