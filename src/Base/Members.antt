-- ===== src/Base/Members.antt =====
-- Membership tests over `++`, `map` and a filter, as equations between Booleans.
use mathlib.Core.Path.{◌≡◌, refl}
use mathlib.Core.Bool.{Bool, true, ◌||◌, ◌&&◌}
use mathlib.Core.List.{List, [], ◌∷◌, ◌++◌, map}
use mathlib.Core.Bool.{false≢true}
use mathlib.Core.Logic.{inl, inr}
use native.Mathlib.Omega.{arith}
use pyfix_agent.Base.Tests.{Equality, Bool-cases}
use pyfix_agent.Base.Lists.{contains, keep, nonempty, any}

module _ {A : Type 0} ⦃e : Equality A⦄ where
  pub contains-append :
      (a : A) (xs ys : List A) → contains a (xs ++ ys) ≡ (contains a xs || contains a ys)
  contains-append a [] ys = refl
  contains-append a (x ∷ xs) ys = ground (arith, contains-append a xs ys)

  -- Filtering by what the key decides: a key is kept if it was there and passes.
  pub contains-keys_keep :
      {B : Type 0} (key : B → A) (p : A → Bool) (q : B → Bool)
      → ((b : B) → q b ≡ p (key b))
      → (a : A) (xs : List B) → contains a (map key (keep q xs)) ≡ (contains a (map key xs) && p a)
  contains-keys_keep key p q same a [] = refl
  contains-keys_keep key p q same a (x ∷ xs) =
      ground (arith, same x, contains-keys_keep key p q same a xs, e.equals_iff (key x) a)

  -- What a filter keeps of the keys was there.
  pub contains-keys_keep_sub :
      {B : Type 0} (key : B → A) (q : B → Bool) (a : A) (xs : List B)
      → contains a (map key (keep q xs)) ≡ true
      → contains a (map key xs) ≡ true
  contains-keys_keep_sub key q a [] h = h
  contains-keys_keep_sub key q a (x ∷ xs) h = ground (arith, contains-keys_keep_sub key q a xs)

pub nonempty-keep {ℓ} : {A : Type ℓ} (p : A → Bool) (xs : List A) → nonempty (keep p xs) ≡ any p xs
nonempty-keep p [] = refl
nonempty-keep p (x ∷ xs) = ground (arith, nonempty-keep p xs)

module _ {A : Type 0} ⦃e : Equality A⦄ where
  -- A test that some member passes, read and proved by members.
  pub any-witness :
      (p : A → Bool) (xs : List A)
      → any p xs ≡ true
      → (a : A) × (contains a xs ≡ true) × (p a ≡ true)
  any-witness p [] h = absurd (false≢true h)
  any-witness p (x ∷ xs) h = elim (Bool-cases (p x)) [
    | inl yes_ ↦ (x, ground (arith, e.equals_iff x x), yes_)
    | inr no_ ↦
        let (a, m, q) = any-witness p xs (ground arith) in (a, ground (arith, e.equals_iff x a), q)
  ]

  pub any-intro :
      (p : A → Bool) (xs : List A) (a : A) → contains a xs ≡ true → p a ≡ true → any p xs ≡ true
  any-intro p [] a m q = absurd (false≢true m)
  any-intro p (x ∷ xs) a m q = ground (arith, e.equals_iff x a, any-intro p xs a)
