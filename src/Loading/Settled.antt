-- ===== src/Loading/Settled.antt =====
-- States of the loading of src/parser/wsdl.js between two loads, and what a load keeps of them.
use strong_soap.Common.{
  ℕ, ◌+◌, ◌≤◌, ◌<◌, nat_eq, String, ◌≡◌, refl, ◌∙◌, true, false, Option, none, some, List, [], ◌∷◌,
  if◌then◌else◌, arith, eq_iff, contains, All,
}
use strong_soap.Common.Dict.{Dict, get, put, keys, contains-keys-put}
use strong_soap.Loading.{
  Reader, found, done, Reply, failed, given, thrown, Included, complete, broken, crashed, State,
  include_path, load,
}

-- No text stands twice.
abbrev pub Once : List String → Type 0
Once [] = Unit
Once (x ∷ xs) = (contains x xs ≡ false) × Once xs

-- How many of the texts are no keys.
unfoldable pub missing : List String → Dict ℕ → ℕ
missing [] c = 0
missing (u ∷ us) c = (if contains u (keys c) then 0 else 1) + missing us c

pub missing-put-le :
    (us : List String) (k : String) (i : ℕ) (c : Dict ℕ) → missing us (put k i c) ≤ missing us c
unfolding missing
missing-put-le [] k i c = omega arith
missing-put-le (u ∷ us) k i c = ground (arith, contains-keys-put k u i c, missing-put-le us k i c)

pub missing-put-lt :
    (us : List String) (k : String) (i : ℕ) (c : Dict ℕ)
    → contains k us ≡ true
    → contains k (keys c) ≡ false
    → missing us (put k i c) < missing us c
unfolding missing
missing-put-lt [] k i c h n = cc
missing-put-lt (u ∷ us) k i c h n = ground (
  arith,
  eq_iff u k,
  eq_iff k u,
  contains-keys-put k u i c,
  missing-put-le us k i c,
  missing-put-lt us k i c,
)

pub absent_of_get-none : (k : String) (c : Dict ℕ) → get k c ≡ none → contains k (keys c) ≡ false
absent_of_get-none k [] h = refl
absent_of_get-none k ((j, v) ∷ c) h = ground (arith, absent_of_get-none k c)

pub eq_of_nat_eq : (m n : ℕ) → nat_eq m n ≡ true → m ≡ n
eq_of_nat_eq m n h = ground arith

pub nat_eq_refl : (n : ℕ) → nat_eq n n ≡ true
nat_eq_refl n = ground arith

module _ (reader : Reader) where
  -- Every response names the URI that was asked for.
  abbrev pub IsDirect : Type 0
  IsDirect = (u h t : String) → reader.fetch u ≡ found h t → h ≡ u

  -- The documents at some URIs include documents at these URIs only.
  abbrev pub IsClosed : List String → Type 0
  IsClosed us =
      (u h t : String) (m m' : reader.Memory) (d : reader.Definitions)
      → contains u us ≡ true
      → reader.fetch u ≡ found h t
      → reader.parse t m ≡ (done d, m')
      → All (λ i. contains (include_path reader u i) us ≡ true) (reader.includes d m')

  -- A state between two loads: what the cache has is loaded, and what was read is in the cache and
  -- was read once.
  pub record IsSettled (s : State reader) : Type 0 where
    pub loaded : (k : String) (i : ℕ) → get k s.cache ≡ some i → (s.objects i).is_loaded ≡ true
    pub numbered : (k : String) (i : ℕ) → get k s.cache ≡ some i → i < s.count
    pub once : Once s.reads
    pub cached : (k : String) → contains k s.reads ≡ true → contains k (keys s.cache) ≡ true

  -- What a load of other documents leaves as it was.
  pub record Keeps (us : List String) (s t : State reader) : Type 0 where
    pub settled : IsSettled t
    pub fewer : missing us t.cache ≤ missing us s.cache
    pub more : s.count ≤ t.count
    pub uris : (i : ℕ) → i < s.count → (t.objects i).uri ≡ (s.objects i).uri

  -- The load ends, and keeps the state settled where the callback is given a WSDL.
  abbrev pub Ends : List String → State reader → Option (Reply × State reader) → Type 0
  Ends us s none = ⊥
  Ends us s (some (given i, t)) = Keeps us s t
  Ends us s (some (failed e, t)) = Once t.reads
  Ends us s (some (thrown e, t)) = Once t.reads

  abbrev pub IncludesEnd : List String → State reader → Option (Included × State reader) → Type 0
  IncludesEnd us s none = ⊥
  IncludesEnd us s (some (complete, t)) = Keeps us s t
  IncludesEnd us s (some (broken e, t)) = Once t.reads
  IncludesEnd us s (some (crashed e, t)) = Once t.reads

  -- Loads end in every settled state from which few enough documents are missing.
  abbrev pub LoadsEnd :
      List String → ℕ → (State reader → String → Option (Reply × State reader)) → Type 0
  LoadsEnd us f load =
      (s : State reader) (u : String)
      → IsSettled s
      → contains u us ≡ true
      → missing us s.cache < f
      → Ends us s (load s u)

  pub Keeps-refl : (us : List String) (s : State reader) → IsSettled s → Keeps us s s
  Keeps-refl us s h = record {
    settled = h;
    fewer = omega arith;
    more = omega arith;
    uris = λ i k. refl;
  }

  pub Keeps-trans :
      (us : List String) {s t r : State reader} → Keeps us s t → Keeps us t r → Keeps us s r
  Keeps-trans us h k = record {
    settled = k.settled;
    fewer = omega (arith, h.fewer, k.fewer);
    more = omega (arith, h.more, k.more);
    uris = λ i lt. k.uris i (omega (arith, h.more)) ∙ h.uris i lt;
  }

  -- Work on the definitions touches neither the objects nor the cache.
  pub Keeps-memory :
      (us : List String) {s t : State reader} (m : reader.Memory)
      → Keeps us s t
      → Keeps us s (record t { memory = m })
  Keeps-memory us m h = record {
    settled = record {
      loaded = h.settled.loaded;
      numbered = h.settled.numbered;
      once = h.settled.once;
      cached = h.settled.cached;
    };
    fewer = h.fewer;
    more = h.more;
    uris = h.uris;
  }

  pub IncludesEnd-after :
      (us : List String) (s t : State reader) (r : Option (Included × State reader))
      → Keeps us s t
      → IncludesEnd us t r
      → IncludesEnd us s r
  IncludesEnd-after us s t none h k = absurd k
  IncludesEnd-after us s t (some (complete, r)) h k = Keeps-trans us h k
  IncludesEnd-after us s t (some (broken x, r)) h k = k
  IncludesEnd-after us s t (some (crashed x, r)) h k = k
