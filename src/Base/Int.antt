-- ===== src/Base/Int.antt =====
-- Python's integers, where the source lets them be negative.
use Prim.Native.Nat.{ℕ, suc, max}
use Prim.Native.String.{String, ◌++◌ as ◌<>◌}
use mathlib.Core.Bool.{Bool, true, false}
use mathlib.Core.Option.{Option, none, some}
use pyfix_agent.Base.Tests.{ltb, ◌==◌, nat_eq, if◌then◌else◌}
use pyfix_agent.Base.Text.{show}

-- `negsuc n` is -(n + 1).
pub data ℤ : Type 0 where
  pos : ℕ → ℤ
  negsuc : ℕ → ℤ

-- `max(k, n)` for a natural `k`
abbrev pub at_least : ℕ → ℤ → ℕ
at_least k (pos n) = max k n
at_least k (negsuc n) = k

-- `n == k` for a natural `k`
abbrev pub is_code : ℕ → ℤ → Bool
is_code k (pos n) = n == k
is_code k (negsuc n) = false

-- `n > k` for a natural `n`
abbrev pub exceeds : ℕ → ℤ → Bool
exceeds n (pos k) = ltb k n
exceeds n (negsuc k) = true

-- `str(n)`
abbrev pub show_int : ℤ → String
show_int (pos n) = show n
show_int (negsuc n) = "-" <> show (suc n)

-- `n` where `n >= 1`
abbrev pub positive_line : Option ℤ → Option ℕ
positive_line none = none
positive_line (some (pos n)) = if n == 0 then none else some n
positive_line (some (negsuc n)) = none
