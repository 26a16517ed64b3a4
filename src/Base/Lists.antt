-- ===== src/Base/Lists.antt =====
-- Lists measured by native numbers, membership, filtering by a Boolean test, and Python's truth
-- value of a sequence.
use Prim.Native.Nat.{ℕ, zero, suc, ◌+◌}
use mathlib.Core.Path.{◌≡◌, refl}
use mathlib.Core.Bool.{Bool, true, false, ◌||◌}
use mathlib.Core.List.{List, [], ◌∷◌, ◌++◌}
use native.Mathlib.Omega.{arith}
use pyfix_agent.Base.Tests.{Equality, ◌==◌, if◌then◌else◌}

module _ {ℓ} {A : Type ℓ} where
  abbrev pub length : List A → ℕ
  length [] = 0
  length (x ∷ xs) = suc (length xs)

  -- `bool(xs)`
  abbrev pub nonempty : List A → Bool
  nonempty [] = false
  nonempty (x ∷ xs) = true

  -- `[x for x in xs if p(x)]`
  abbrev pub keep : (A → Bool) → List A → List A
  keep p [] = []
  keep p (x ∷ xs) = let rest = keep p xs in if p x then x ∷ rest else rest

  -- `any(p(x) for x in xs)`
  abbrev pub any : (A → Bool) → List A → Bool
  any p [] = false
  any p (x ∷ xs) = p x || any p xs

  -- `xs[:n]`
  unfoldable pub take_list : ℕ → List A → List A
  take_list zero xs = []
  take_list (suc n) [] = []
  take_list (suc n) (x ∷ xs) = x ∷ take_list n xs

  pub length-append : (xs ys : List A) → length (xs ++ ys) ≡ length xs + length ys
  length-append [] ys = omega arith
  length-append (x ∷ xs) ys = omega (arith, length-append xs ys)

  pub nonempty-append_singleton : (xs : List A) (x : A) → nonempty (xs ++ x ∷ []) ≡ true
  nonempty-append_singleton [] x = refl
  nonempty-append_singleton (y ∷ xs) x = refl

module _ {ℓ} {A : Type ℓ} ⦃e : Equality A⦄ where
  -- `a in xs`
  abbrev pub contains : A → List A → Bool
  contains a [] = false
  contains a (x ∷ xs) = x == a || contains a xs

  -- `_dedupe` of trace.py and patch_eval/validator.py: the loop, on the result so far.
  pub dedupe_from : List A → List A → List A
  dedupe_from result [] = result
  dedupe_from result (x ∷ xs) =
      dedupe_from (if contains x result then result else result ++ x ∷ []) xs

  unfoldable pub dedupe : List A → List A
  unfolding dedupe_from
  dedupe xs = dedupe_from [] xs
