-- ===== src/Base/Attempts.antt =====
-- Blocks of calls that may fail with a text: an exception that a caller catches, as a value.
use Prim.Native.String.{String}
use mathlib.Core.Bool.{Bool, true, false}
use mathlib.Core.Path.{◌≡◌, refl}
use pyfix_agent.Base.Outcome.{Attempted, done, failed}

infixl 5 ◌>>=◌ ◌>>◌
abbrev pub ◌>>=◌ : {A B : Type 0} → Attempted A → (A → Attempted B) → Attempted B
done a >>= k = k a
failed m >>= k = failed m

abbrev pub ◌>>◌ : {B : Type 0} → Attempted (Unit {0}) → Attempted B → Attempted B
a >> b = a >>= λ _. b

-- `if not test: raise …`
abbrev pub require : Bool → String → Attempted (Unit {0})
require true m = done tt
require false m = failed m

-- Taking a block that succeeded apart.
pub done-bind :
    {A B : Type 0} (a : Attempted A) (k : A → Attempted B) (b : B)
    → a >>= k ≡ done b
    → (x : A) × (a ≡ done x) × (k x ≡ done b)
done-bind (done x) k b h = (x, refl, h)
done-bind (failed m) k b h = absurd (cc)

pub done-require :
    {B : Type 0} (test : Bool) (m : String) (k : Attempted B) (b : B)
    → require test m >> k ≡ done b
    → (test ≡ true) × (k ≡ done b)
done-require true m k b h = (refl, h)
done-require false m k b h = absurd (cc)

pub done_injective : {A : Type 0} (x y : A) → done x ≡ done y → x ≡ y
done_injective x y h = cc
