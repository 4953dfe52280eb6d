-- ===== src/NsContext/Frames.antt =====
-- Pushing and popping contexts of src/parser/nscontext.js: balanced calls restore the outer scopes.
use mathlib.Core.Path.{fun_ext}
use strong_soap.Common.{
  String, ◌≡◌, refl, sym, ap, ◌∙◌, Bool, false, Option, none, some, List, [], ◌∷◌, ◌++◌, inl, inr,
  Option-cases, Bool-cases, truthy?, is_text, ◌==◌,
}
use strong_soap.Common.Result.{Result, ok, throw, diverge, ◌>>=◌, >>=-assoc}
use strong_soap.Common.Dict.{get}
use strong_soap.NsContext.Prefixes.{generate_prefix-total}
use strong_soap.NsContext.{
  Mapping, NamespaceScope, NamespaceContext, push_context, new_scope, pop_context, add_namespace,
  generate_prefix, register_namespace, declare_namespace, settle, bind_new, register_prefix,
  get_namespace_uri, mark_declared, declare_mapping, get_namespace_mapping,
}

-- The calls that a client of the context makes and that may change it.
pub data Call : Type 0 where
  push pop : Call
  add : (prefix ns_uri : String) (local_only : Bool) → Call
  generate : Option String → Call
  register declare : (prefix : Option String) (ns_uri : String) → Call

unfoldable pub run_call : Call → NamespaceContext → Result NamespaceContext
run_call push c = ok (push_context c)
run_call pop c = ok (pop_context c).0
run_call (add p u local) c = ok (add_namespace c p u local).0
run_call (generate base) c = do (c', _) ← generate_prefix c base; ok c'
run_call (register p u) c = do (c', _) ← register_namespace c p u; ok c'
run_call (declare p u) c = do (c', _) ← declare_namespace c p u; ok c'

unfoldable pub run : List Call → NamespaceContext → Result NamespaceContext
unfolding run_call
run [] c = ok c
run (x ∷ xs) c = do c' ← run_call x c; run xs c'

abbrev IsLocal : Call → Type 0
IsLocal push = ⊥
IsLocal pop = ⊥
IsLocal _ = Unit

-- Sequences in which every push has its pop.
pub data IsBalanced : List Call → Type 0 where
  done : IsBalanced []
  one : {x : Call} {xs : List Call} → IsLocal x → IsBalanced xs → IsBalanced (x ∷ xs)
  nest : {xs ys : List Call} → IsBalanced xs → IsBalanced ys → IsBalanced (push ∷ (xs ++ pop ∷ ys))

-- The call fails, or leaves the scopes above `parents` alone but for one on top of them.
abbrev pub Keeps {ℓ} : {A : Type ℓ} → NamespaceContext → Result (NamespaceContext × A) → Type 0
Keeps parents (ok (c, a)) = (t : NamespaceScope) × (c ≡ t ∷ parents)
Keeps parents _ = Unit

abbrev Within : NamespaceContext → Result NamespaceContext → Type 0
Within parents (ok c) = (t : NamespaceScope) × (c ≡ t ∷ parents)
Within parents _ = Unit

Keeps->>= :
    {A B : Type 0} (parents : NamespaceContext) (m : Result (NamespaceContext × A))
    (f : NamespaceContext × A → Result (NamespaceContext × B))
    → Keeps parents m
    → ((t : NamespaceScope) (a : A) → Keeps parents (f (t ∷ parents, a)))
    → Keeps parents (m >>= f)
Keeps->>= parents (ok (c, a)) f (t, e) k = rw e (k t a)
Keeps->>= parents (throw x) f _ k = tt
Keeps->>= parents diverge f _ k = tt

Within->>= :
    {A : Type 0} (parents : NamespaceContext) (m : Result (NamespaceContext × A))
    → Keeps parents m
    → Within parents (m >>= λ r. ok r.0)
Within->>= parents (ok (c, a)) k = k
Within->>= parents (throw x) _ = tt
Within->>= parents diverge _ = tt

generate_prefix-Keeps :
    (s : NamespaceScope) (parents : NamespaceContext) (base : Option String)
    → Keeps parents (generate_prefix (s ∷ parents) base)
generate_prefix-Keeps s parents base =
    let (n, made, _, _, _) = generate_prefix-total s parents base in rw made (_, refl)

bind_new-Keeps :
    (s : NamespaceScope) (parents : NamespaceContext) (p : Option String) (u : String)
    → Keeps parents (ok (bind_new (s ∷ parents) p u))
unfolding bind_new
bind_new-Keeps s parents none u = (s, refl)
bind_new-Keeps s parents (some p) u = (_, refl)

settle-Keeps :
    (s : NamespaceScope) (parents : NamespaceContext) (p : Option String) (u : String)
    → Keeps parents (settle (s ∷ parents) p u)
unfolding settle
settle-Keeps s parents none u = bind_new-Keeps s parents none u
settle-Keeps s parents (some p) u =
    elim (Bool-cases (truthy? (get_namespace_uri (s ∷ parents) p false))) [
      | inl taken ↦ rw taken (
          Keeps->>= parents (generate_prefix (s ∷ parents) none) (λ r. ok (bind_new r.0 r.1 u))
            (generate_prefix-Keeps s parents none) (λ t q. bind_new-Keeps t parents q u))
      | inr free ↦ rw free (bind_new-Keeps s parents (some p) u)
    ]

generated-Keeps :
    (s : NamespaceScope) (parents : NamespaceContext) (u : String)
    → Keeps parents (generate_prefix (s ∷ parents) none >>= λ r. settle r.0 r.1 u)
generated-Keeps s parents u =
    Keeps->>= parents (generate_prefix (s ∷ parents) none) (λ r. settle r.0 r.1 u)
      (generate_prefix-Keeps s parents none) (λ t q. settle-Keeps t parents q u)

register_namespace-Keeps :
    (s : NamespaceScope) (parents : NamespaceContext) (p : Option String) (u : String)
    → Keeps parents (register_namespace (s ∷ parents) p u)
unfolding register_namespace register_prefix
register_namespace-Keeps s parents none u = generated-Keeps s parents u
register_namespace-Keeps s parents (some p) u = elim (Bool-cases (p == "")) [
  | inl empty ↦ rw empty (generated-Keeps s parents u)
  | inr given ↦ elim (Option-cases (get_namespace_mapping (s ∷ parents) p)) [
    | inl missing ↦ rw (given, missing, register_prefix) (settle-Keeps s parents (some p) u)
    | inr (m, found) ↦ elim (Bool-cases (m.uri == u)) [
      | inl same ↦ rw (given, found, same, register_prefix) (s, refl)
      | inr other ↦ rw (given, found, other, register_prefix) (settle-Keeps s parents (some p) u)
    ]
  ]
]

declare_mapping-Keeps :
    (s : NamespaceScope) (parents : NamespaceContext) (m : Option Mapping)
    → Keeps parents (declare_mapping (s ∷ parents) m)
unfolding declare_mapping
declare_mapping-Keeps s parents none = (s, refl)
declare_mapping-Keeps s parents (some m) = elim (Bool-cases m.declared) [
  | inl decl ↦ rw (decl, declare_mapping) (s, refl)
  | inr fresh ↦ elim (Option-cases (get m.prefix s.namespaces)) [
    | inl missing ↦ rw (fresh, declare_mapping) (rw (missing, mark_declared) tt)
    | inr (m', bound) ↦ rw (fresh, declare_mapping) (rw (bound, mark_declared) (_, refl))
  ]
]

pub declare_namespace-Keeps :
    (s : NamespaceScope) (parents : NamespaceContext) (p : Option String) (u : String)
    → Keeps parents (declare_namespace (s ∷ parents) p u)
unfolding declare_namespace
declare_namespace-Keeps s parents p u =
    Keeps->>= parents (register_namespace (s ∷ parents) p u) (λ r. declare_mapping r.0 r.1)
      (register_namespace-Keeps s parents p u) (λ t m. declare_mapping-Keeps t parents m)

run_call-Within :
    (x : Call) (s : NamespaceScope) (parents : NamespaceContext)
    → IsLocal x
    → Within parents (run_call x (s ∷ parents))
unfolding run_call add_namespace
run_call-Within push s parents h = absurd h
run_call-Within pop s parents h = absurd h
run_call-Within (add p u local) s parents h =
    elim (Bool-cases (is_text (get_namespace_uri (s ∷ parents) p local) u)) [
      | inl same ↦ rw same (s, refl)
      | inr new ↦ rw new (_, refl)
    ]
run_call-Within (generate base) s parents h =
    Within->>= parents _ (generate_prefix-Keeps s parents base)
run_call-Within (register p u) s parents h =
    Within->>= parents _ (register_namespace-Keeps s parents p u)
run_call-Within (declare p u) s parents h =
    Within->>= parents _ (declare_namespace-Keeps s parents p u)

Within-bind :
    (parents : NamespaceContext) (m : Result NamespaceContext)
    (f : NamespaceContext → Result NamespaceContext)
    → Within parents m
    → ((t : NamespaceScope) → Within parents (f (t ∷ parents)))
    → Within parents (m >>= f)
Within-bind parents (ok c) f (t, e) k = rw e (k t)
Within-bind parents (throw x) f _ k = tt
Within-bind parents diverge f _ k = tt

run-append : (xs ys : List Call) (c : NamespaceContext) → run (xs ++ ys) c ≡ (run xs c >>= run ys)
unfolding run
run-append [] ys c = refl
run-append (x ∷ xs) ys c =
    ap (λ k. run_call x c >>= k) (fun_ext (run-append xs ys))
    ∙ sym (>>=-assoc (run_call x c) (run xs) (run ys))

pop-Within :
    (s : NamespaceScope) (parents : NamespaceContext) (m : Result NamespaceContext) (ys : List Call)
    → Within (s ∷ parents) m
    → Within parents (run ys (s ∷ parents))
    → Within parents (m >>= run (pop ∷ ys))
unfolding run
pop-Within s parents (ok c) ys (t, e) k = rw e k
pop-Within s parents (throw x) ys _ k = tt
pop-Within s parents diverge ys _ k = tt

run-Within :
    {xs : List Call} (s : NamespaceScope) (parents : NamespaceContext)
    → IsBalanced xs
    → Within parents (run xs (s ∷ parents))
unfolding run
run-Within s parents done = (s, refl)
run-Within s parents (one {x} {xs} h b) =
    Within-bind parents (run_call x (s ∷ parents)) (run xs) (run_call-Within x s parents h)
      (λ t. run-Within t parents b)
run-Within s parents (nest {xs} {ys} b b') =
    rw (run-append xs (pop ∷ ys) (push_context (s ∷ parents))) (
      pop-Within s parents (run xs (push_context (s ∷ parents))) ys
        (run-Within new_scope (s ∷ parents) b) (run-Within s parents b'))

framed-eq :
    (c c' : NamespaceContext) (m : Result NamespaceContext)
    → Within c m
    → (m >>= run (pop ∷ [])) ≡ ok c'
    → c' ≡ c
unfolding run
framed-eq c c' (ok d) (t, e) h = cc (rw e at h)
framed-eq c c' (throw x) _ h = cc
framed-eq c c' diverge _ h = cc

-- A push, balanced calls and a pop that end without an error leave the context as it was, whatever
-- was added, generated, registered or declared between them.
pub run-restores :
    (xs : List Call) (c c' : NamespaceContext)
    → IsBalanced xs
    → run (push ∷ (xs ++ pop ∷ [])) c ≡ ok c'
    → c' ≡ c
unfolding run
run-restores xs c c' b h =
    framed-eq c c' (run xs (push_context c)) (run-Within new_scope c b)
      (sym (run-append xs (pop ∷ []) (push_context c)) ∙ h)
