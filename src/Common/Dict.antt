-- ===== src/Common/Dict.antt =====
-- A JavaScript object used as a dictionary: its own keys with their values, in insertion order.
use Prim.Native.String.{String}
use mathlib.Core.Path.{◌≡◌, refl}
use mathlib.Core.Bool.{true, false, ◌||◌}
use mathlib.Core.Option.{Option, none, some}
use mathlib.Core.List.{List, [], ◌∷◌, ◌++◌}
use native.Mathlib.Omega.{arith}
use text.Mathlib.Text.{◌==◌}
use text.Mathlib.TextEquality.{eq_iff}
use strong_soap.Common.Tests.{if◌then◌else◌}
use strong_soap.Common.Lists.{contains}

abbrev pub Dict {ℓ} : Type ℓ → Type ℓ
Dict V = List (String × V)

module _ {ℓ} {V : Type ℓ} where
  -- `d[k]`, `none` for undefined.
  abbrev pub get : String → Dict V → Option V
  get k [] = none
  get k ((j, v) ∷ d) = if j == k then some v else get k d

  -- `d[k] = v`: a new key goes to the end, an old one keeps its place.
  abbrev pub put : String → V → Dict V → Dict V
  put k v [] = (k, v) ∷ []
  put k v ((j, w) ∷ d) = if j == k then (j, v) ∷ d else (j, w) ∷ put k v d

  abbrev pub keys : Dict V → List String
  keys [] = []
  keys ((k, v) ∷ d) = k ∷ keys d

  pub get-put :
      (k j : String) (v : V) (d : Dict V) → get j (put k v d) ≡ (if k == j then some v else get j d)
  get-put k j v [] = refl
  get-put k j v ((i, w) ∷ d) = ground (arith, eq_iff k j, eq_iff i k, eq_iff i j, get-put k j v d)

  pub contains-keys :
      (k : String) (d : Dict V) {v : V} → get k d ≡ some v → contains k (keys d) ≡ true
  contains-keys k [] {v} h = cc
  contains-keys k ((j, w) ∷ d) {v} h = ground (arith, contains-keys k d {v = v})

  pub keys-append : (d e : Dict V) → keys (d ++ e) ≡ keys d ++ keys e
  keys-append [] e = refl
  keys-append ((k, v) ∷ d) e = cc (keys-append d e)

-- No key stands twice.
module _ {ℓ} {V : Type ℓ} where
  abbrev pub IsDistinct : Dict V → Type 0
  IsDistinct [] = Unit
  IsDistinct ((k, v) ∷ d) = (contains k (keys d) ≡ false) × IsDistinct d

  pub contains-keys-put :
      (k j : String) (v : V) (d : Dict V)
      → contains j (keys (put k v d)) ≡ (contains j (keys d) || (k == j))
  contains-keys-put k j v [] = ground arith
  contains-keys-put k j v ((i, w) ∷ d) =
      ground (arith, eq_iff i k, eq_iff k j, eq_iff i j, contains-keys-put k j v d)

  pub put-IsDistinct : (k : String) (v : V) (d : Dict V) → IsDistinct d → IsDistinct (put k v d)
  put-IsDistinct k v [] h = (refl, tt)
  put-IsDistinct k v ((i, w) ∷ d) (p, h) =
      ground (arith, eq_iff i k, eq_iff k i, contains-keys-put k i v d, put-IsDistinct k v d h)

  pub get-none_of_absent : (k : String) (d : Dict V) → contains k (keys d) ≡ false → get k d ≡ none
  get-none_of_absent k [] h = refl
  get-none_of_absent k ((j, v) ∷ d) h = ground (arith, get-none_of_absent k d)
