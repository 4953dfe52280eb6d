-- ===== src/Common/Result.antt =====
-- What a call of the program ends in: a value, a thrown error, or no end within the fuel.
use Prim.Native.String.{String}
use mathlib.Core.Path.{◌≡◌, refl}

pub data Error : Type 0 where
  -- A property of null or undefined is read or written, or what is no function is called.
  type_error : Error
  -- `throw new Error(message)`, without the text that globalize makes of the message.
  error : String → Error
  -- A failed `assert`.
  assertion : Error

pub data Result {ℓ} (A : Type ℓ) : Type ℓ where
  ok : A → Result A
  throw : Error → Result A
  diverge : Result A

infixl 5 ◌>>=◌
abbrev pub ◌>>=◌ {ℓ κ} : {A : Type ℓ} {B : Type κ} → Result A → (A → Result B) → Result B
ok a >>= f = f a
throw e >>= f = throw e
diverge >>= f = diverge

pub >>=-assoc {ℓ κ μ} :
    {A : Type ℓ} {B : Type κ} {C : Type μ} (m : Result A) (f : A → Result B) (g : B → Result C)
    → ((m >>= f) >>= g) ≡ (m >>= λ a. f a >>= g)
>>=-assoc (ok a) f g = refl
>>=-assoc (throw e) f g = refl
>>=-assoc diverge f g = refl

-- How a chain of two calls came to a value.
pub record Chain {ℓ κ} {A : Type ℓ} {B : Type κ} (first : Result A) (next : A → Result B) (out : B)
    : Type (ℓ ⊔ κ) where
  pub middle : A
  pub reached : first ≡ ok middle
  pub left : next middle ≡ ok out

pub value-Chain {ℓ κ} :
    {A : Type ℓ} {B : Type κ} {first : Result A} (next : A → Result B) {out : B}
    → (first >>= next) ≡ ok out
    → Chain first next out
value-Chain {first = diverge} next e = absurd (cc e)
value-Chain {first = throw x} next e = absurd (cc e)
value-Chain {first = ok v} next e = record { middle = v; reached = refl; left = e }
