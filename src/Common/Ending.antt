-- ===== src/Common/Ending.antt =====
-- Calls of the program that come to an end, and how chains and branches of them do.
use mathlib.Core.Bool.{Bool, true, false}
use strong_soap.Common.Tests.{if◌then◌else◌}
use strong_soap.Common.Result.{Result, ok, throw, diverge, ◌>>=◌}

-- The call returns or throws.
abbrev pub Ended {ℓ} : {A : Type ℓ} → Result A → Type 0
Ended diverge = ⊥
Ended r = Unit

pub chain-Ended {ℓ κ} :
    {A : Type ℓ} {B : Type κ} (m : Result A) (f : A → Result B)
    → Ended m
    → ((a : A) → Ended (f a))
    → Ended (m >>= f)
chain-Ended (ok a) f h k = k a
chain-Ended (throw x) f h k = tt
chain-Ended diverge f h k = absurd h

pub if-Ended {ℓ} :
    {A : Type ℓ} (b : Bool) (r s : Result A) → Ended r → Ended s → Ended (if b then r else s)
if-Ended true r s h k = h
if-Ended false r s h k = k
