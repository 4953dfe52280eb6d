-- ===== src/Loading/Including.antt =====
-- The includes of one document in src/parser/wsdl.js, one after the other.
use strong_soap.Common.{
  ℕ, ◌<◌, String, ◌≡◌, ◌∙◌, true, Option, none, some, List, [], ◌∷◌, arith, contains, All,
}
use strong_soap.Loading.{
  Reader, Worked, done, raised, Include, Reply, failed, given, thrown, Included, complete, broken,
  crashed, State, include_path, static_load, merged, after_load, services_processed,
  process_includes, post_process, after_includes,
}
use strong_soap.Loading.Settled.{
  missing, IsSettled, Keeps, Ends, IncludesEnd, LoadsEnd, Keeps-refl, Keeps-memory,
  IncludesEnd-after,
}

module _ (reader : Reader) where
  pub services-End :
      (us : List String) (i : ℕ) {s t : State reader} (w : Worked (Unit {0}) × reader.Memory)
      → Keeps reader us s t
      → Ends reader us s (some (services_processed reader i w t))
  unfolding services_processed
  services-End us i (done u, m) h = Keeps-memory reader us m h
  services-End us i (raised e, m) h = h.settled.once

  pub post_process-End :
      (us : List String) (i : ℕ) (d : reader.Definitions) {s t : State reader}
      (w : Worked (Unit {0}) × reader.Memory)
      → Keeps reader us s t
      → Ends reader us s (some (post_process reader i d w t))
  unfolding post_process
  post_process-End us i d (done u, m) h = services-End us i (reader.process_services d m) h
  post_process-End us i d (raised e, m) h = h.settled.once

  pub after_includes-End :
      (us : List String) (i : ℕ) (d : reader.Definitions) (s : State reader)
      (r : Option (Included × State reader))
      → IncludesEnd reader us s r
      → Ends reader us s (after_includes reader i d r)
  unfolding after_includes
  after_includes-End us i d s none h = absurd h
  after_includes-End us i d s (some (broken e, t)) h = h
  after_includes-End us i d s (some (crashed e, t)) h = h
  after_includes-End us i d s (some (complete, t)) h =
      post_process-End us i d (reader.process_schemas d t.memory) h

  pub merged-End :
      (us : List String) (go_on : State reader → Option (Included × State reader))
      (s : State reader) (w : Worked (Unit {0}) × State reader)
      → Keeps reader us s w.1
      → IncludesEnd reader us w.1 (go_on w.1)
      → IncludesEnd reader us s (merged reader go_on w)
  unfolding merged
  merged-End us go_on s (done u, t) h k = IncludesEnd-after reader us s t (go_on t) h k
  merged-End us go_on s (raised e, t) h k = h.settled.once

  pub static_load-Keeps :
      (us : List String) (inc : Include) (d e : Option reader.Definitions) {s t : State reader}
      → Keeps reader us s t
      → Keeps reader us s (static_load reader inc d e t).1
  unfolding static_load
  static_load-Keeps us inc none e h = h
  static_load-Keeps us inc (some d) e {t = t} h =
      Keeps-memory reader us (reader.merge inc d e t.memory).1 h

  pub after_load-End :
      (us : List String) (go_on : State reader → Option (Included × State reader)) (i : ℕ)
      (inc : Include) (s : State reader) (r : Option (Reply × State reader))
      → Ends reader us s r
      → ((t : State reader) → Keeps reader us s t → IncludesEnd reader us t (go_on t))
      → IncludesEnd reader us s (after_load reader go_on i inc r)
  unfolding after_load
  after_load-End us go_on i inc s none h k = absurd h
  after_load-End us go_on i inc s (some (failed e, t)) h k = h
  after_load-End us go_on i inc s (some (thrown e, t)) h k = h
  after_load-End us go_on i inc s (some (given j, t)) h k =
      let kept = static_load-Keeps us inc (t.objects i).definitions (t.objects j).definitions h in
      merged-End us go_on s _ kept (k _ kept)

  module _ (us : List String) (f : ℕ) (next : State reader → String → Option (Reply × State reader))
      (ends : LoadsEnd reader us f next) where
    pub process_includes-End :
        (i : ℕ) (u : String) (incs : List Include) (s : State reader)
        → IsSettled reader s
        → i < s.count
        → (s.objects i).uri ≡ u
        → All (λ inc. contains (include_path reader u inc) us ≡ true) incs
        → missing us s.cache < f
        → IncludesEnd reader us s (process_includes reader next i incs s)
    unfolding process_includes
    process_includes-End i u [] s h lt e a m = Keeps-refl reader us s h
    process_includes-End i u (inc ∷ rest) s h lt e (p, a) m =
        after_load-End us (process_includes reader next i rest) i inc s _ (ends s _ h (rw e p) m)
          (λ t kept.
            process_includes-End i u rest t kept.settled (omega (arith, kept.more))
              (kept.uris i lt ∙ e) a (omega (arith, kept.fewer)))
