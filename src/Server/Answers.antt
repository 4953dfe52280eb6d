-- ===== src/Server/Answers.antt =====
-- `_executeMethod` of src/server.js: how often a request is answered, whatever a method does.
use strong_soap.Common.{
  ◌≤◌, Bool, true, false, ◌≡◌, refl, ap, ◌∙◌, Option, none, some, List, [], ◌∷◌, ◌++◌,
  if◌then◌else◌, Bool-cases, inl, inr, length, arith,
}
use strong_soap.Common.Result.{Result, ok, throw, diverge}
use strong_soap.Operation.{Parameter}
use strong_soap.XmlReader.Values.{Json, null_value}
use strong_soap.Server.{BoundOperation}
use strong_soap.Server.Replies.{Setting, Answer}
use strong_soap.Server.Requests.{
  Called, Ending, returns, throws, Behaviour, Method, Outcome, returned, threw, Handling, answered,
  is_undefined, reply_to, handle_result, and_then, call_backs, end_method, begin_with, begin_method,
  run_method, run_later,
}

-- All calls of the callback in their order, a value that the method returns being one.
abbrev pub returned_call : Ending → List Called
returned_call (throws e) = []
returned_call (returns v) =
    if is_undefined v then [] else record { error = null_value; result = v } ∷ []

abbrev pub calls_of : Behaviour → List Called
calls_of b = b.before ++ (returned_call b.ending ++ b.later)

abbrev pub later_calls :
    Setting → Bool → BoundOperation → List Called → Handling × Outcome → Handling × Outcome
later_calls s timestamp o calls (h, out) = (run_later s timestamp o calls h, out)

-- The end of a request: the method has run, and its later calls have been made.
abbrev pub settled : Setting → Bool → BoundOperation → Method → Json → Handling × Outcome
settled s timestamp o f args =
    later_calls s timestamp o (f args).later (run_method s timestamp o (some f) args)

module _ (s : Setting) (timestamp : Bool) (o : BoundOperation) where
  abbrev handled_with : List Answer → Handling
  handled_with l = record { handled = true; answers = l }

  call_backs-handled :
      (calls : List Called) (l : List Answer)
      → call_backs s timestamp o calls (handled_with l) ≡ (handled_with l, returned)
  unfolding call_backs handle_result
  call_backs-handled [] l = refl
  call_backs-handled (c ∷ calls) l = call_backs-handled calls l

  run_later-handled :
      (calls : List Called) (l : List Answer)
      → run_later s timestamp o calls (handled_with l) ≡ handled_with l
  unfolding run_later handle_result
  run_later-handled [] l = refl
  run_later-handled (c ∷ calls) l = run_later-handled calls l

  end_method-handled :
      (v : Json) (l : List Answer)
      → end_method s timestamp o (returns v) (handled_with l) ≡ (handled_with l, returned)
  unfolding handle_result
  end_method-handled v l = elim (Bool-cases (is_undefined v)) [
    | inl missing ↦ rw missing refl
    | inr given ↦ rw given refl
  ]

  abbrev open_with : Handling
  open_with = record { handled = false; answers = [] }

  -- The method and its later calls.
  abbrev finished : List Called → Ending → List Called → Handling → Handling × Outcome
  finished before ending later h =
      later_calls s timestamp o later
        (and_then (call_backs s timestamp o before h) (λ g. end_method s timestamp o ending g))

  finished-handled :
      (before later : List Called) (v : Json) (l : List Answer)
      → finished before (returns v) later (handled_with l) ≡ (handled_with l, returned)
  finished-handled before later v l =
      rw (call_backs-handled before l)
        (rw (end_method-handled v l) (ap (λ h. (h, returned)) (run_later-handled later l)))

-- An operation without an output whose method ends without an exception is answered once, with an
-- empty text and before the method runs, whatever it returns and gives to its callback.
pub settled-one_way :
    (s : Setting) (timestamp : Bool) (o : BoundOperation) (f : Method) (args v : Json)
    → o.operation.output ≡ none
    → (f args).ending ≡ returns v
    → settled s timestamp o f args
      ≡ (record { handled = true; answers = record { xml = ""; status = none } ∷ [] }, returned)
unfolding run_method
settled-one_way s timestamp o f args v out ends =
    ap (λ x. finished s timestamp o (f args).before (f args).ending (f args).later (begin_with x))
      out
    ∙ ap (λ e. finished s timestamp o (f args).before e (f args).later (begin_with none)) ends
    ∙ finished-handled s timestamp o (f args).before (f args).later v
        (record { xml = ""; status = none } ∷ [])

-- What holds of every state: an open request has no answer, a handled one has one at most.
abbrev IsBounded : Handling → Type 0
IsBounded h = length h.answers ≤ (if h.handled then 1 else 0)

module _ (s : Setting) (timestamp : Bool) (o : BoundOperation) where
  answered-IsBounded :
      (r : Result Answer) → IsBounded (answered (record { handled = true; answers = [] }) r).0
  answered-IsBounded (ok a) = omega arith
  answered-IsBounded (throw x) = omega arith
  answered-IsBounded diverge = omega arith

  handle_result-IsBounded :
      (b : Bool) (l : List Answer) (c : Called)
      → IsBounded (record { handled = b; answers = l })
      → IsBounded (handle_result s timestamp o (record { handled = b; answers = l }) c).0
  unfolding handle_result
  handle_result-IsBounded true l c h = h
  handle_result-IsBounded false [] c h = answered-IsBounded (reply_to s timestamp o c)
  handle_result-IsBounded false (a ∷ l) c h = absurd (omega arith)

  next-IsBounded :
      (r : Handling × Outcome) (next : Handling → Handling × Outcome)
      → IsBounded r.0
      → ((h : Handling) → IsBounded h → IsBounded (next h).0)
      → IsBounded (and_then r next).0
  next-IsBounded (h, returned) next k f = f h k
  next-IsBounded (h, threw e) next k f = k

  call_backs-IsBounded :
      (calls : List Called) (h : Handling)
      → IsBounded h
      → IsBounded (call_backs s timestamp o calls h).0
  unfolding call_backs
  call_backs-IsBounded [] h k = k
  call_backs-IsBounded (c ∷ calls) h k =
      next-IsBounded (handle_result s timestamp o h c) _
        (handle_result-IsBounded h.handled h.answers c k) (λ g l. call_backs-IsBounded calls g l)

  if-IsBounded :
      (b : Bool) (r t : Handling × Outcome)
      → IsBounded r.0
      → IsBounded t.0
      → IsBounded (if b then r else t).0
  if-IsBounded true r t h k = h
  if-IsBounded false r t h k = k

  end_method-IsBounded :
      (e : Ending) (h : Handling) → IsBounded h → IsBounded (end_method s timestamp o e h).0
  end_method-IsBounded (throws e) h k = k
  end_method-IsBounded (returns v) h k =
      if-IsBounded (is_undefined v) _ _ k (handle_result-IsBounded h.handled h.answers _ k)

  run_later-IsBounded :
      (calls : List Called) (h : Handling)
      → IsBounded h
      → IsBounded (run_later s timestamp o calls h)
  unfolding run_later
  run_later-IsBounded [] h k = k
  run_later-IsBounded (c ∷ calls) h k =
      run_later-IsBounded calls (handle_result s timestamp o h c).0
        (handle_result-IsBounded h.handled h.answers c k)

  begin_with-IsBounded : (p : Option Parameter) → IsBounded (begin_with p)
  begin_with-IsBounded none = omega arith
  begin_with-IsBounded (some p) = omega arith

  at_most_one : (h : Handling) → IsBounded h → length h.answers ≤ 1
  at_most_one h k = ground arith

-- Before a Fault that it throws is caught, an operation is answered at most once, whatever its method
-- does: however often it calls its callback, before or after it ends, and whether it returns or throws.
pub settled-bound :
    (s : Setting) (timestamp : Bool) (o : BoundOperation) (f : Method) (args : Json)
    → length (settled s timestamp o f args).0.answers ≤ 1
unfolding run_method
settled-bound s timestamp o f args = at_most_one s timestamp o _ (
    run_later-IsBounded s timestamp o (f args).later _ (
      next-IsBounded s timestamp o (call_backs s timestamp o (f args).before (begin_method o)) _
        (call_backs-IsBounded s timestamp o (f args).before (begin_method o)
          (begin_with-IsBounded s timestamp o o.operation.output))
        (λ h k. end_method-IsBounded s timestamp o (f args).ending h k)))
