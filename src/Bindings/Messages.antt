-- ===== src/Bindings/Messages.antt =====
-- When the messages of a portType resolve, in src/parser/wsdl/parameter.js.
use strong_soap.Common.{
  String, Bool, true, false, ◌&&◌, ◌≡◌, refl, ap, ◌∙◌, Option, none, some, List, [], ◌∷◌,
}
use strong_soap.Common.Dict.{Dict, get, put}
use strong_soap.Common.Result.{Result, ok, throw, diverge, ◌>>=◌}
use strong_soap.QName.{QName, parse, null}
use strong_soap.Bindings.{
  Part, reference, process_reference, process_part, process_message, PortParameter, PortOperation,
  Resolved, the_message, resolve_message, resolve_optional, resolve_all, resolve_operation,
  resolve_port_type,
}

-- The call returns.
abbrev pub returns {ℓ} : {A : Type ℓ} → Result A → Bool
returns (ok a) = true
returns (throw e) = false
returns diverge = false

returns-chain {ℓ κ} :
    {A : Type ℓ} {B : Type κ} (m : Result A) (f : A → Result B) (b : Bool)
    → ((a : A) → returns (f a) ≡ b)
    → returns (m >>= f) ≡ (returns m && b)
returns-chain (ok a) f b h = h a
returns-chain (throw e) f b h = refl
returns-chain diverge f b h = refl

and-true : (b : Bool) → (b && true) ≡ b
and-true true = refl
and-true false = refl

-- The attribute of the part that counts is a name, or it has none.
abbrev is_reference : Option String → Bool
is_reference none = true
is_reference (some r) = returns (parse (some r) null)

abbrev pub refers : Part → Bool
refers p = is_reference (reference p)

returns-process_reference : (o : Option String) → returns (process_reference o) ≡ is_reference o
unfolding process_reference
returns-process_reference none = refl
returns-process_reference (some r) =
    returns-chain (parse (some r) null) _ true (λ q. refl) ∙ and-true _

abbrev pub all_refer : Dict Part → Bool
all_refer [] = true
all_refer ((n, p) ∷ m) = refers p && all_refer m

returns-process_part : (p : Part) → returns (process_part p) ≡ refers p
unfolding process_part
returns-process_part p = returns-process_reference (reference p)

returns-process_message : (m : Dict Part) → returns (process_message m) ≡ all_refer m
unfolding process_message
returns-process_message [] = refl
returns-process_message ((n, p) ∷ m) =
    returns-chain (process_part p) _ (all_refer m) (λ q.
      returns-chain (process_message m) _ true (λ l. refl) ∙ and-true _ ∙ returns-process_message m)
    ∙ ap (λ b. b && all_refer m) (returns-process_part p)

-- The rest of `resolve_message` behind the name.
abbrev found_message : Option (Dict Part) → Result (Dict Part)
found_message o = do parts ← the_message o; processed ← process_message parts; ok parts

module _ (messages : Dict (Dict Part)) where
  abbrev is_there : Option (Dict Part) → Bool
  is_there none = false
  is_there (some m) = all_refer m

  abbrev pub is_defined : Result QName → Bool
  is_defined (ok q) = is_there (get q.name messages)
  is_defined (throw e) = false
  is_defined diverge = false

  -- The parameter names a message that is defined, prefixes left aside, and whose parts refer to names.
  abbrev pub names_message : PortParameter → Bool
  names_message p = is_defined (parse p.message null)

  abbrev pub optional_names : Option PortParameter → Bool
  optional_names none = true
  optional_names (some p) = names_message p

  abbrev pub all_name : List PortParameter → Bool
  all_name [] = true
  all_name (p ∷ ps) = names_message p && all_name ps

  abbrev pub operation_names : PortOperation → Bool
  operation_names o = optional_names o.input && (optional_names o.output && all_name o.faults)

  abbrev pub operations_name : Dict PortOperation → Bool
  operations_name [] = true
  operations_name ((n, o) ∷ os) = operation_names o && operations_name os

  returns-found_message : (o : Option (Dict Part)) → returns (found_message o) ≡ is_there o
  unfolding the_message
  returns-found_message none = refl
  returns-found_message (some m) =
      returns-chain (process_message m) _ true (λ l. refl) ∙ and-true _ ∙ returns-process_message m

  returns-named :
      (r : Result QName) → returns (r >>= λ q. found_message (get q.name messages)) ≡ is_defined r
  returns-named (ok q) = returns-found_message (get q.name messages)
  returns-named (throw e) = refl
  returns-named diverge = refl

  returns-resolve_message :
      (p : PortParameter) → returns (resolve_message messages p) ≡ names_message p
  unfolding resolve_message
  returns-resolve_message p = returns-named (parse p.message null)

  returns-resolve_optional :
      (o : Option PortParameter) → returns (resolve_optional messages o) ≡ optional_names o
  unfolding resolve_optional
  returns-resolve_optional none = refl
  returns-resolve_optional (some p) =
      returns-chain (resolve_message messages p) _ true (λ m. refl)
      ∙ and-true _
      ∙ returns-resolve_message p

  returns-resolve_all : (ps : List PortParameter) → returns (resolve_all messages ps) ≡ all_name ps
  unfolding resolve_all
  returns-resolve_all [] = refl
  returns-resolve_all (p ∷ ps) =
      returns-chain (resolve_message messages p) _ (all_name ps) (λ m.
        returns-chain (resolve_all messages ps) _ true (λ l. refl)
        ∙ and-true _
        ∙ returns-resolve_all ps)
      ∙ ap (λ b. b && all_name ps) (returns-resolve_message p)

  returns-resolve_operation :
      (o : PortOperation) → returns (resolve_operation messages o) ≡ operation_names o
  unfolding resolve_operation
  returns-resolve_operation o =
      returns-chain (resolve_optional messages o.input) _
        (optional_names o.output && all_name o.faults)
        (λ i.
          returns-chain (resolve_optional messages o.output) _ (all_name o.faults) (λ u.
            returns-chain (resolve_all messages o.faults) _ true (λ l. refl)
            ∙ and-true _
            ∙ returns-resolve_all o.faults)
          ∙ ap (λ b. b && all_name o.faults) (returns-resolve_optional o.output))
      ∙ ap (λ b. b && (optional_names o.output && all_name o.faults))
          (returns-resolve_optional o.input)

  -- A portType is processed without an error exactly where each input, output and fault of its
  -- operations names a message, its prefix left aside, that the definitions
  -- have, and in that message the attribute element of each part, or where it is missing or empty its
  -- attribute type, is missing, empty or a name.
  pub returns-resolve_port_type :
      (os : Dict PortOperation) (done : Dict Resolved)
      → returns (resolve_port_type messages os done) ≡ operations_name os
  unfolding resolve_port_type
  returns-resolve_port_type [] done = refl
  returns-resolve_port_type ((n, o) ∷ os) done =
      returns-chain (resolve_operation messages o) _ (operations_name os)
        (λ r. returns-resolve_port_type os (put n r done))
      ∙ ap (λ b. b && operations_name os) (returns-resolve_operation o)
