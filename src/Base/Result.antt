-- ===== src/Base/Result.antt =====
-- `throw` and `return`: a computation gives a value or throws an error with a message.
use Prim.Native.String.{String}
use mathlib.Core.Path.{◌≡◌, refl}
use mathlib.Core.Bool.{Bool, true, false}
use ses.Base.Tests.{if◌then◌else◌}

pub data Result {ℓ} (A : Type ℓ) : Type ℓ where
  ok : A → Result A
  throw : String → Result A

-- A guarded result that is there passed its guard.
pub if_ok {ℓ} :
    {A : Type ℓ} (b : Bool) (a a' : A) (message : String)
    → (if b then ok a else throw message) ≡ ok a'
    → (b ≡ true) × (a ≡ a')
if_ok true a a' message e = (refl, cc e)
if_ok false a a' message e = absurd (cc e)
