-- ===== src/Loading/Replies.antt =====
-- What a call of `open` or `load` in src/parser/wsdl.js comes to.
use strong_soap.Common.{
  ℕ, zero, suc, ◌≡◌, ◌≢◌, refl, ap, ◌∙◌, String, true, Option, none, some, List, [], ◌∷◌, contains,
  length, arith, eq_false,
}
use strong_soap.Common.Dict.{get, get-put}
use strong_soap.Loading.{
  Reader, found, done, Include, Reply, failed, given, thrown, State, include_path, process_includes,
  after_parse, set_definitions, after_fetch, read_object, open_uri, load_with, load, open_wsdl,
  start,
}
use strong_soap.Loading.Settled.{Once, missing, IsDirect, IsClosed, IsSettled, Ends}
use strong_soap.Loading.Cycles.{
  entered, entered-object, load_object-entered, open-End, load-End, same_uri,
}

missing_none : (us : List String) → missing us [] ≡ length us
unfolding missing
missing_none [] = refl
missing_none (u ∷ us) = omega (arith, missing_none us)

module _ (reader : Reader) where
  start-IsSettled : (m : reader.Memory) → IsSettled reader (start reader m)
  start-IsSettled m = record {
    loaded = λ k i e. absurd (cc e);
    numbered = λ k i e. absurd (cc e);
    once = tt;
    cached = λ k e. absurd (cc e);
  }

  has_ended :
      (us : List String) (s : State reader) (o : Option (Reply × State reader))
      → Ends reader us s o
      → (r : Reply) × (t : State reader) × (o ≡ some (r, t)) × Once t.reads
  has_ended us s none h = absurd h
  has_ended us s (some (given i, t)) h = (given i, t, refl, h.settled.once)
  has_ended us s (some (failed e, t)) h = (failed e, t, refl, h)
  has_ended us s (some (thrown e, t)) h = (thrown e, t, refl, h)

  -- Where responses name the URI that was asked for and finitely many documents include only one
  -- another, in circles or not, opening any of them ends, with as much fuel as there are documents,
  -- and no document is read twice.
  pub open_wsdl-ends :
      (us : List String) (u : String) (m : reader.Memory)
      → IsDirect reader
      → IsClosed reader us
      → contains u us ≡ true
      → (r : Reply) × (t : State reader) × (open_wsdl reader (length us) (start reader m) u
          ≡ some (r, t))
        × Once t.reads
  unfolding open_wsdl
  open_wsdl-ends us u m direct closed h = has_ended us (start reader m) _ (
      open-End reader us direct closed (length us) (load reader (length us))
        (load-End reader us direct closed (length us)) (start reader m) u (start-IsSettled m) h refl
        (omega (arith, missing_none us)))

  -- A document that a redirect leads to and that first includes the URI that was asked for.
  pub record Redirected (u v text : String) (inc : Include) : Type 0 where
    pub answer : reader.fetch u ≡ found v text
    pub moved : u ≢ v
    pub parsed :
        (m : reader.Memory)
        → (d : reader.Definitions) × (m' : reader.Memory) × (rest : List Include) × (reader.parse
              text m
            ≡ (done d, m'))
          × (reader.includes d m' ≡ inc ∷ rest)
    pub back : include_path reader v inc ≡ u

  -- With every fuel, the load of such a document does not end where the cache does not have its URI:
  -- it is cached by the other URI, and read again and again.
  pub load-Redirected :
      (u v text : String) (inc : Include) (f : ℕ) (s : State reader)
      → Redirected u v text inc
      → get u s.cache ≡ none
      → load reader f s u ≡ none
  unfolding load load_with open_uri read_object after_fetch after_parse process_includes
  load-Redirected u v text inc zero s h n = refl
  load-Redirected u v text inc (suc f) s h n =
      let (d, m', rest, p, i) = h.parsed s.memory in
      let t = set_definitions reader s.count d m' (entered reader u v text s) in
      let same : (t.objects s.count).uri ≡ v =
        unfold set_definitions in
        same_uri reader (entered reader u v text s).objects s.count s.count d
        ∙ ap (λ w. w.uri) (entered-object reader u v text s) in
      let again : load reader f t u ≡ none = load-Redirected u v text inc f t h (
        unfold set_definitions entered in
        rw (get-put v u s.count s.cache) (ground (arith, n, eq_false v u))) in
      rw (n, load_with)
        (rw (n, open_uri)
          (rw h.answer (
            rw (load_object-entered reader (load reader f) u v text s) (
              rw p (
                rw i (
                  let step : load reader f t (include_path reader (t.objects s.count).uri inc)
                      ≡ none =
                    rw (same, h.back) again in
                  rw step refl))))))
