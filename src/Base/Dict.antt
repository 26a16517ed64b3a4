-- ===== src/Base/Dict.antt =====
-- A Python `dict` as its entries in order: an assignment to a key that is there keeps its place.
use mathlib.Core.Path.{◌≡◌, refl}
use mathlib.Core.Logic.{◌↔◌}
use mathlib.Core.Bool.{Bool, true, false, ◌&&◌}
use mathlib.Core.List.{List, [], ◌∷◌}
use mathlib.Core.Option.{Option, none, some}
use native.Mathlib.Omega.{arith}
use pyfix_agent.Base.Tests.{Equality, ◌==◌, if◌then◌else◌}

module _ {K V : Type 0} ⦃e : Equality K⦄ where
  -- `d.get(k)`
  unfoldable pub find_key : K → List (K × V) → Option V
  find_key k [] = none
  find_key k ((j, v) ∷ d) = let rest = find_key k d in if j == k then some v else rest

  -- `d[k] = v`
  unfoldable pub put : K → V → List (K × V) → List (K × V)
  put k v [] = (k, v) ∷ []
  put k v ((j, w) ∷ d) = let rest = put k v d in if j == k then (j, v) ∷ d else (j, w) ∷ rest

  pub find_key-put :
      (k j : K) (v : V) (d : List (K × V))
      → find_key j (put k v d) ≡ (if k == j then some v else find_key j d)
  unfolding find_key put
  find_key-put k j v [] = refl
  find_key-put k j v ((i, w) ∷ d) =
      ground (arith, e.equals_iff k j, e.equals_iff i k, e.equals_iff i j, find_key-put k j v d)

  -- `d.get(k, v)`
  abbrev pub find_or : K → V → List (K × V) → V
  find_or k v d = elim (find_key k d) [ none ↦ v | some w ↦ w ]

-- Equality of lists, as for the parts of two paths.
module _ {A : Type 0} ⦃e : Equality A⦄ where
  unfoldable pub list_equal : List A → List A → Bool
  list_equal [] [] = true
  list_equal (x ∷ xs) (y ∷ ys) = x == y && list_equal xs ys
  list_equal [] (y ∷ ys) = false
  list_equal (x ∷ xs) [] = false

  pub list_equal_lem : (xs ys : List A) → (list_equal xs ys ≡ true) ↔ (xs ≡ ys)
  unfolding list_equal
  list_equal_lem [] [] = ground arith
  list_equal_lem [] (y ∷ ys) = ground arith
  list_equal_lem (x ∷ xs) [] = ground arith
  list_equal_lem (x ∷ xs) (y ∷ ys) = ground (arith, e.equals_iff x y, list_equal_lem xs ys)

  instance abbrev pub list_eq : Equality (List A)
  list_eq = record { equals = list_equal; equals_iff = list_equal_lem }
