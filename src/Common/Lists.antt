-- ===== src/Common/Lists.antt =====
-- Lists measured by native numbers, and predicates on their members.
use Prim.Native.Nat.{ℕ, zero, suc, ◌+◌, ◌≤◌, ◌<◌}
use Prim.Native.String.{String}
use mathlib.Core.Path.{◌≡◌, refl}
use mathlib.Core.Logic.{◌≢◌}
use mathlib.Core.Bool.{Bool, true, false, ◌||◌}
use mathlib.Core.Option.{Option, none, some}
use mathlib.Core.List.{List, [], ◌∷◌, ◌++◌}
use native.Mathlib.Omega.{arith}
use text.Mathlib.Text.{◌==◌}
use text.Mathlib.TextEquality.{eq_iff}
use strong_soap.Common.Tests.{if◌then◌else◌}

module _ {ℓ} {A : Type ℓ} where
  abbrev pub length : List A → ℕ
  length [] = 0
  length (x ∷ xs) = suc (length xs)

  abbrev pub get_elem? : List A → ℕ → Option A
  get_elem? [] i = none
  get_elem? (x ∷ xs) zero = some x
  get_elem? (x ∷ xs) (suc i) = get_elem? xs i

  pub length-append : (xs ys : List A) → length (xs ++ ys) ≡ length xs + length ys
  length-append [] ys = omega arith
  length-append (x ∷ xs) ys = omega (arith, length-append xs ys)

module _ {ℓ κ} {A : Type ℓ} where
  abbrev pub All : (A → Type κ) → List A → Type κ
  All P [] = Unit
  All P (x ∷ xs) = P x × All P xs

  pub All-append : (P : A → Type κ) (xs ys : List A) → All P xs → All P ys → All P (xs ++ ys)
  All-append P [] ys _ k = k
  All-append P (x ∷ xs) ys (p, h) k = (p, All-append P xs ys h k)

  pub All-append_left : (P : A → Type κ) (xs ys : List A) → All P (xs ++ ys) → All P xs
  All-append_left P [] ys _ = tt
  All-append_left P (x ∷ xs) ys (p, h) = (p, All-append_left P xs ys h)

-- Membership of a text in a list of texts, as `indexOf(k) !== -1` decides it.
abbrev pub contains : String → List String → Bool
contains k [] = false
contains k (j ∷ l) = (j == k) || contains k l

-- The list without a text.
abbrev pub without : String → List String → List String
without k [] = []
without k (j ∷ l) = if j == k then without k l else j ∷ without k l

pub length-without-le : (k : String) (l : List String) → length (without k l) ≤ length l
length-without-le k [] = omega arith
length-without-le k (j ∷ l) = ground (arith, length-without-le k l)

pub length-without-lt :
    (k : String) (l : List String) → contains k l ≡ true → length (without k l) < length l
length-without-lt k [] h = cc
length-without-lt k (j ∷ l) h = ground (arith, length-without-le k l, length-without-lt k l)

pub contains-without_ne :
    (k j : String) (l : List String) → k ≢ j → contains j (without k l) ≡ contains j l
contains-without_ne k j [] h = refl
contains-without_ne k j (i ∷ l) h =
    ground (arith, contains-without_ne k j l h, eq_iff i k, eq_iff i j)
