-- ===== src/Loading/Cycles.antt =====
-- The loading of src/parser/wsdl.js where documents include one another in circles.
use mathlib.Core.Path.{subst}
use strong_soap.Common.{
  ℕ, zero, suc, ◌<◌, String, ◌≡◌, refl, ap, ◌∙◌, true, false, Option, none, some, List, ◌∷◌, arith,
  eq_iff, contains, inl, inr, Option-cases,
}
use strong_soap.Common.Dict.{get, keys, get-put, contains-keys-put}
use strong_soap.Loading.{
  Reader, Fetched, unread, found, refused, no_response, Worked, done, raised, Reply, State, Wsdl,
  change, after_parse, mark_loaded, set_definitions, load_object, new_object, after_fetch,
  read_object, open_uri, load_with, load,
}
use strong_soap.Loading.Settled.{
  missing, missing-put-le, missing-put-lt, absent_of_get-none, nat_eq_refl, eq_of_nat_eq, IsDirect,
  IsClosed, IsSettled, Keeps, Ends, LoadsEnd, Keeps-refl, IncludesEnd-after,
}
use strong_soap.Loading.Including.{after_includes-End, process_includes-End}

module _ (reader : Reader) where
  -- A change of the definitions alone.
  pub same_uri :
      (objects : ℕ → Wsdl reader) (i j : ℕ) (d : reader.Definitions)
      → (change reader objects i (record (objects i) { definitions = some d }) j).uri
        ≡ (objects j).uri
  same_uri objects i j d = ground (arith, eq_of_nat_eq i j)

  pub same_loaded :
      (objects : ℕ → Wsdl reader) (i j : ℕ) (d : reader.Definitions)
      → (change reader objects i (record (objects i) { definitions = some d }) j).is_loaded
        ≡ (objects j).is_loaded
  same_loaded objects i j d = ground (arith, eq_of_nat_eq i j)

  pub set_definitions-Keeps :
      (us : List String) (i : ℕ) (d : reader.Definitions) (m : reader.Memory) {s t : State reader}
      → Keeps reader us s t
      → Keeps reader us s (set_definitions reader i d m t)
  unfolding set_definitions
  set_definitions-Keeps us i d m {t = t} h = record {
    settled = record {
      loaded = λ k j e. same_loaded t.objects i j d ∙ h.settled.loaded k j e;
      numbered = h.settled.numbered;
      once = h.settled.once;
      cached = h.settled.cached;
    };
    fewer = h.fewer;
    more = h.more;
    uris = λ j lt. same_uri t.objects i j d ∙ h.uris j lt;
  }

  -- A document that is read goes into the cache, and is marked before its includes are loaded.
  unfoldable pub entered : String → String → String → State reader → State reader
  unfolding new_object mark_loaded
  entered r u t s =
      mark_loaded reader s.count (new_object reader u t (record s { reads = r ∷ s.reads }))

  pub load_object-entered :
      (next : State reader → String → Option (Reply × State reader)) (r u t : String)
      (s : State reader)
      → load_object reader next s.count (new_object reader u t (record s { reads = r ∷ s.reads }))
        ≡ after_parse reader next s.count (reader.parse t s.memory) (entered r u t s)
  unfolding load_object entered
  load_object-entered next r u t s =
      ap (λ x. after_parse reader next s.count (reader.parse x s.memory) (entered r u t s))
        (unfold new_object in simp (nat_eq_refl s.count))

  pub entered-object :
      (r u t : String) (s : State reader)
      → (entered r u t s).objects s.count
        ≡ record { content = t; uri = u; definitions = none; is_loaded = true }
  unfolding entered
  entered-object r u t s = simp (nat_eq_refl s.count)

  pub not_read :
      (u : String) (s : State reader)
      → IsSettled reader s
      → contains u (keys s.cache) ≡ false
      → contains u s.reads ≡ false
  not_read u s h n = ground (arith, h.cached u)

  pub entered-Keeps :
      (us : List String) (u t : String) (s : State reader)
      → IsSettled reader s
      → contains u us ≡ true
      → get u s.cache ≡ none
      → Keeps reader us s (entered u u t s)
  unfolding entered
  entered-Keeps us u t s h c n =
      let absent = absent_of_get-none u s.cache n in
      record {
        settled = record {
          loaded = λ k i e. ground (
            arith,
            eq_of_nat_eq s.count i,
            get-put u k s.count s.cache,
            h.loaded k i,
            h.numbered k i,
          );
          numbered = λ k i e. ground (arith, get-put u k s.count s.cache, h.numbered k i);
          once = (not_read u s h absent, h.once);
          cached =
              λ k e. ground (arith, eq_iff u k, contains-keys-put u k s.count s.cache, h.cached k);
        };
        fewer = missing-put-le us u s.count s.cache;
        more = omega arith;
        uris = λ i lt. ground arith;
      }

  module _ (us : List String) (f : ℕ) (next : State reader → String → Option (Reply × State reader))
      (ends : LoadsEnd reader us f next) where
    pub after_parse-End :
        (u t : String) (s : State reader) (w : Worked reader.Definitions × reader.Memory)
        → reader.parse t s.memory ≡ w
        → reader.fetch u ≡ found u t
        → IsClosed reader us
        → IsSettled reader s
        → contains u us ≡ true
        → get u s.cache ≡ none
        → missing us s.cache < suc f
        → Ends reader us s (after_parse reader next s.count w (entered u u t s))
    unfolding after_parse
    after_parse-End u t s (raised e, m) p e' closed h c n lt =
        (entered-Keeps us u t s h c n).settled.once
    after_parse-End u t s (done d, m) p e' closed h c n lt =
        let kept = set_definitions-Keeps us s.count d m (entered-Keeps us u t s h c n) in
        let start = set_definitions reader s.count d m (entered u u t s) in
        after_includes-End reader us s.count d s _ (
          IncludesEnd-after reader us s start _ kept (
            process_includes-End reader us f next ends s.count u (reader.includes d m) start
              kept.settled (unfold entered set_definitions in omega arith)
              (unfold set_definitions in
                same_uri (entered u u t s).objects s.count s.count d
                ∙ ap (λ w. w.uri) (entered-object u u t s))
              (closed u u t s.memory m d c e' p)
              (unfold entered set_definitions in
                omega (
                  arith,
                  lt,
                  missing-put-lt us u s.count s.cache c (absent_of_get-none u s.cache n),
                ))))

    pub read-End :
        (u t : String) (s : State reader)
        → reader.fetch u ≡ found u t
        → IsClosed reader us
        → IsSettled reader s
        → contains u us ≡ true
        → get u s.cache ≡ none
        → missing us s.cache < suc f
        → Ends reader us s (
            load_object reader next s.count
              (new_object reader u t (record s { reads = u ∷ s.reads })))
    read-End u t s e closed h c n m =
        rw (load_object-entered next u u t s) (after_parse-End u t s _ refl e closed h c n m)

  module _ (us : List String) (direct : IsDirect reader) (closed : IsClosed reader us) where
    pub after_fetch-End :
        (f : ℕ) (next : State reader → String → Option (Reply × State reader))
        → LoadsEnd reader us f next
        → (u : String) (w : Fetched) (s : State reader) → reader.fetch u ≡ w
        → IsSettled reader s
        → contains u us ≡ true
        → get u s.cache ≡ none
        → missing us s.cache < suc f
        → Ends reader us s (after_fetch reader next w (record s { reads = u ∷ s.reads }))
    unfolding after_fetch
    after_fetch-End f next ends u (found href t) s e h c n m =
        let same = direct u href t e in
        rw same (
          read-End us f next ends u t s (subst (λ x. reader.fetch u ≡ found x t) same e) closed h c
            n m)
    after_fetch-End f next ends u (unread x) s e h c n m =
        (not_read u s h (absent_of_get-none u s.cache n), h.once)
    after_fetch-End f next ends u refused s e h c n m =
        (not_read u s h (absent_of_get-none u s.cache n), h.once)
    after_fetch-End f next ends u no_response s e h c n m =
        (not_read u s h (absent_of_get-none u s.cache n), h.once)

    -- A document that the cache does not have.
    pub open-End :
        (f : ℕ) (next : State reader → String → Option (Reply × State reader))
        → LoadsEnd reader us f next
        → (s : State reader) (u : String) → IsSettled reader s
        → contains u us ≡ true
        → get u s.cache ≡ none
        → missing us s.cache < suc f
        → Ends reader us s (open_uri reader next s u)
    unfolding open_uri read_object
    open-End f next ends s u h c n m =
        rw (n, open_uri) (after_fetch-End f next ends u (reader.fetch u) s refl h c n m)

    pub load-End : (f : ℕ) → LoadsEnd reader us f (load reader f)
    unfolding load load_with
    load-End zero s u h c m = absurd (omega arith)
    load-End (suc f) s u h c m = elim (Option-cases (get u s.cache)) [
      | inr (i, e) ↦ rw (e, load_with) (rw (h.loaded u i e) (Keeps-refl reader us s h))
      | inl e ↦ rw (e, load_with) (open-End f (load reader f) (load-End f) s u h c e m)
    ]
