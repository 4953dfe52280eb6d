-- ===== src/SimpleTypes/Returning.antt =====
-- `postProcess` of a simple type returns.
use strong_soap.Common.{
  ℕ, zero, suc, ◌-◌, ◌<◌, ◌≡◌, refl, Option, none, some, [], ◌∷◌, get_elem?, length, arith, inl,
  inr, ◌⊎◌,
}
use strong_soap.Common.Result.{ok}
use strong_soap.SimpleTypes.{TypeValue, Entry, Store, post_process}
use strong_soap.SimpleTypes.Growing.{Grows-refl, open_count}
use strong_soap.SimpleTypes.Known.{IsClosed}
use strong_soap.SimpleTypes.Ending.{Processed, resolve_type-Processed}

Option-cases : (t : Option TypeValue) → (t ≡ none) ⊎ ((v : TypeValue) × (t ≡ some v))
Option-cases none = inl refl
Option-cases (some v) = inr (v, refl)

get-some : (n i : ℕ) (s : Store) → length s ≡ n → i < n → (e : Entry) × (get_elem? s i ≡ some e)
get-some n i [] l m = absurd (omega arith)
get-some n zero (e ∷ s) l m = (e, refl)
get-some zero (suc i) (e ∷ s) l m = absurd (omega arith)
get-some (suc n) (suc i) (e ∷ s) l m = get-some n i s (omega arith) (omega arith)

open-pos :
    (i : ℕ) (s : Store) {e : Entry} → get_elem? s i ≡ some e → e.type ≡ none → 0 < open_count s
open-pos i [] g h = absurd (cc g)
open-pos zero (f ∷ s) {e} g h = let same : f.type ≡ none = cc (g, h) in rw same (omega arith)
open-pos (suc i) (f ∷ s) g h = omega (arith, open-pos i s g h)

same_store :
    (i : ℕ) (s : Store) (e : Entry) {t : TypeValue}
    → get_elem? s i ≡ some e
    → e.type ≡ some t
    → Processed s i (ok s)
same_store i s e at there = record {
  after = s;
  returned = refl;
  grows = Grows-refl s;
  has_value = rw at (λ c. cc (there, c));
  fits = rw at (rw there tt);
}

module _ (n : ℕ) where
  processed-of :
      (fuel i : ℕ) (s : Store)
      → length s ≡ n
      → IsClosed n s
      → i < n
      → open_count s < fuel
      → Processed s i (post_process fuel i s)
  unfolding post_process
  processed-of zero i s l c m h = absurd (omega arith)
  processed-of (suc fuel) i s l c m h =
      let (e, at) = get-some n i s l m in
      elim (Option-cases e.type) [
        | inl left ↦
            rw (at, post_process)
              (rw left (
                resolve_type-Processed n (fuel - 1) (post_process fuel)
                  (λ j t lt ct mj oj.
                    processed-of fuel j t lt ct mj (omega (arith, open-pos i s at left)))
                  i s e at left l c (omega (arith, open-pos i s at left))))
        | inr (t, there) ↦ rw (at, post_process) (rw there (same_store i s e at there))
      ]

-- Where every reference leads to a type of the store, no union misses a member, and the types of XML
-- Schema's namespace are built in, postProcess of any type returns, in circles or not, with more fuel
-- than there are types without a value. The type then has a value, one that its children call for if it
-- had none before, and all values that were there are kept.
pub post_process-Processed :
    (fuel i : ℕ) (s : Store)
    → IsClosed (length s) s
    → i < length s
    → open_count s < fuel
    → Processed s i (post_process fuel i s)
post_process-Processed fuel i s c m h = processed-of (length s) fuel i s refl c m h
