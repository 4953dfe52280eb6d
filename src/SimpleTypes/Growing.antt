-- ===== src/SimpleTypes/Growing.antt =====
-- How a store of simple types grows while they are processed: types get values and keep them.
use strong_soap.Common.{
  ℕ, zero, suc, ◌+◌, ◌≤◌, ◌≡◌, refl, ◌∙◌, Option, none, some, [], ◌∷◌, get_elem?, length, arith,
  ◌≢◌,
}
use strong_soap.SimpleTypes.{TypeValue, Entry, Store, set_type, type_at}

-- A value that is there stays.
abbrev pub Stays : Option TypeValue → Option TypeValue → Type 0
Stays none u = Unit
Stays (some t) u = u ≡ some t

-- The same types, with more values.
abbrev pub Grows : Store → Store → Type 0
Grows [] [] = Unit
Grows [] (e ∷ s) = ⊥
Grows (e ∷ s) [] = ⊥
Grows (e ∷ s) (e' ∷ s') = (e'.node ≡ e.node) × Stays e.type e'.type × Grows s s'

Stays-refl : (t : Option TypeValue) → Stays t t
Stays-refl none = tt
Stays-refl (some t) = refl

Stays-trans : (t u v : Option TypeValue) → Stays t u → Stays u v → Stays t v
Stays-trans none u v h k = tt
Stays-trans (some t) none v h k = absurd (cc h)
Stays-trans (some t) (some u) v h k = cc

Stays-set : (t u : Option TypeValue) → Stays t u → t ≢ none → u ≢ none
Stays-set none u h k = absurd (k refl)
Stays-set (some t) u h k = λ c. cc (h, c)

pub Grows-refl : (s : Store) → Grows s s
Grows-refl [] = tt
Grows-refl (e ∷ s) = (refl, Stays-refl e.type, Grows-refl s)

pub Grows-trans : (s t u : Store) → Grows s t → Grows t u → Grows s u
Grows-trans [] [] [] h k = tt
Grows-trans [] [] (e ∷ u) h k = absurd k
Grows-trans [] (e ∷ t) u h k = absurd h
Grows-trans (e ∷ s) [] u h k = absurd h
Grows-trans (e ∷ s) (f ∷ t) [] h k = absurd k
Grows-trans (e ∷ s) (f ∷ t) (g ∷ u) (n, a, h) (m, b, k) =
    (m ∙ n, Stays-trans e.type f.type g.type a b, Grows-trans s t u h k)

-- The type at a number that is there and has no value.
abbrev pub IsOpen : Option Entry → Type 0
IsOpen none = ⊥
IsOpen (some e) = e.type ≡ none

abbrev pub HasValue : Option Entry → Type 0
HasValue none = ⊥
HasValue (some e) = e.type ≢ none

-- How many types have no value.
abbrev pub open_one : Option TypeValue → ℕ
open_one none = 1
open_one (some t) = 0

abbrev pub open_count : Store → ℕ
open_count [] = 0
open_count (e ∷ s) = open_one e.type + open_count s

open_one-le : (t u : Option TypeValue) → Stays t u → open_one u ≤ open_one t
open_one-le none none h = omega arith
open_one-le none (some u) h = omega arith
open_one-le (some t) none h = absurd (cc h)
open_one-le (some t) (some u) h = omega arith

pub open_count-Grows : (s t : Store) → Grows s t → open_count t ≤ open_count s
open_count-Grows [] [] h = omega arith
open_count-Grows [] (e ∷ t) h = absurd h
open_count-Grows (e ∷ s) [] h = absurd h
open_count-Grows (e ∷ s) (f ∷ t) (n, a, h) =
    omega (arith, open_one-le e.type f.type a, open_count-Grows s t h)

pub length-Grows : (s t : Store) → Grows s t → length t ≡ length s
length-Grows [] [] h = refl
length-Grows [] (e ∷ t) h = absurd h
length-Grows (e ∷ s) [] h = absurd h
length-Grows (e ∷ s) (f ∷ t) (n, a, h) = omega (arith, length-Grows s t h)

pub open_count-set_type :
    (i : ℕ) (v : TypeValue) (s : Store)
    → IsOpen (get_elem? s i)
    → suc (open_count (set_type i v s)) ≡ open_count s
unfolding set_type
open_count-set_type i v [] h = absurd h
open_count-set_type zero v (e ∷ s) h = rw h (omega arith)
open_count-set_type (suc i) v (e ∷ s) h = omega (arith, open_count-set_type i v s h)

-- A type that was open may get its value twice, as far as the caller can see.
pub Grows-set_type :
    (i : ℕ) (v w : TypeValue) (s t : Store)
    → IsOpen (get_elem? s i)
    → Grows (set_type i v s) t
    → Grows s (set_type i w t)
unfolding set_type
Grows-set_type i v w [] t o h = absurd o
Grows-set_type zero v w (e ∷ s) [] o h = absurd h
Grows-set_type zero v w (e ∷ s) (f ∷ t) o (n, a, h) = (n, rw o tt, h)
Grows-set_type (suc i) v w (e ∷ s) [] o h = absurd h
Grows-set_type (suc i) v w (e ∷ s) (f ∷ t) o (n, a, h) = (n, a, Grows-set_type i v w s t o h)

pub Grows-set_type_open :
    (i : ℕ) (v : TypeValue) (s : Store) → IsOpen (get_elem? s i) → Grows s (set_type i v s)
unfolding set_type
Grows-set_type_open i v [] o = absurd o
Grows-set_type_open zero v (e ∷ s) o = (refl, rw o tt, Grows-refl s)
Grows-set_type_open (suc i) v (e ∷ s) o = (refl, Stays-refl e.type, Grows-set_type_open i v s o)

abbrev pub IsThere : Option Entry → Type 0
IsThere none = ⊥
IsThere (some e) = Unit

pub HasValue-Grows :
    (i : ℕ) (s t : Store) → Grows s t → HasValue (get_elem? s i) → HasValue (get_elem? t i)
HasValue-Grows i [] t h k = absurd k
HasValue-Grows i (e ∷ s) [] h k = absurd h
HasValue-Grows zero (e ∷ s) (f ∷ t) (n, a, h) k = Stays-set e.type f.type a k
HasValue-Grows (suc i) (e ∷ s) (f ∷ t) (n, a, h) k = HasValue-Grows i s t h k

pub type_at-set_type :
    (i : ℕ) (v : TypeValue) (s : Store)
    → IsThere (get_elem? s i)
    → HasValue (get_elem? (set_type i v s) i) × (type_at i (set_type i v s) ≡ v)
unfolding set_type
type_at-set_type i v [] h = absurd h
type_at-set_type zero v (e ∷ s) h = ((λ c. cc c), refl)
type_at-set_type (suc i) v (e ∷ s) h = type_at-set_type i v s h
