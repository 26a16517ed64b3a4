-- ===== src/Base/Outcome.antt =====
-- What a call may do: return a value or raise an exception. An action on a state gives the state
-- back after a raise too, since what was written stays written.
use Prim.Native.String.{String}
use mathlib.Core.Bool.{Bool, true, false}
use mathlib.Core.Path.{◌≡◌, refl}
use pyfix_agent.Base.Tests.{if◌then◌else◌}

-- The exception classes that the program tells apart, each with `str(exc)`.
pub data Exception : Type 0 where
  os_error runtime_error value_error other_error : String → Exception

abbrev pub message : Exception → String
message (os_error m) = m
message (runtime_error m) = m
message (value_error m) = m
message (other_error m) = m

pub data Outcome {ℓ} (A : Type ℓ) : Type ℓ where
  returned : A → Outcome A
  raised : Exception → Outcome A

-- A call in a `try`: what it returned, or the text of an exception that the clause catches.
pub data Attempted (A : Type 0) : Type 0 where
  done : A → Attempted A
  failed : String → Attempted A

abbrev pub Action : Type 0 → Type 0 → Type 0
Action S A = S → Outcome A × S

module _ {S A : Type 0} where
  abbrev pub pure : A → Action S A
  pure a s = (returned a, s)

  abbrev pub raise : Exception → Action S A
  raise e s = (raised e, s)

  abbrev pub gets : (S → A) → Action S A
  gets f s = (returned (f s), s)

module _ {S A B : Type 0} where
  -- The rest of a block, after a call that has ended.
  abbrev pub resume : Outcome A × S → (A → Action S B) → Outcome B × S
  resume (returned a, s) f = f a s
  resume (raised e, s) f = (raised e, s)

infixl 5 ◌>>=◌ ◌>>◌
abbrev pub ◌>>=◌ : {S A B : Type 0} → Action S A → (A → Action S B) → Action S B
◌>>=◌ m f s = resume (m s) f

abbrev pub ◌>>◌ : {S B : Type 0} → Action S (Unit {0}) → Action S B → Action S B
m >> k = m >>= λ _. k

abbrev pub modify : {S : Type 0} → (S → S) → Action S (Unit {0})
modify f s = (returned tt, f s)

-- A branch of a method, at the state that it is reached in.
abbrev pub branch : {S A : Type 0} → Bool → Action S A → Action S A → Action S A
branch b m n s = if b then m s else n s

-- What holds after a call: `Q` if it returned, `E` if it raised.
abbrev pub Ensures : {S A : Type 0} → (A → S → Type 0) → (S → Type 0) → Outcome A × S → Type 0
Ensures Q E (returned a, s) = Q a s
Ensures Q E (raised e, s) = E s

-- The rule for a block: its first part ends in `R` or raises in `F`, and the rest goes on from there.
pub Ensures-seq :
    {S A B : Type 0} (R : A → S → Type 0) (F : S → Type 0) (Q : B → S → Type 0) (E : S → Type 0)
    (r : Outcome A × S) (f : A → Action S B)
    → Ensures R F r
    → ((s : S) → F s → E s)
    → ((a : A) (s : S) → R a s → Ensures Q E (f a s))
    → Ensures Q E (resume r f)
Ensures-seq R F Q E (returned a, s) f h w k = k a s h
Ensures-seq R F Q E (raised e, s) f h w k = w s h

pub Ensures-mono :
    {S A : Type 0} (R : A → S → Type 0) (F : S → Type 0) (Q : A → S → Type 0) (E : S → Type 0)
    (r : Outcome A × S)
    → Ensures R F r
    → ((a : A) (s : S) → R a s → Q a s)
    → ((s : S) → F s → E s)
    → Ensures Q E r
Ensures-mono R F Q E (returned a, s) h q w = q a s h
Ensures-mono R F Q E (raised e, s) h q w = w s h

pub Ensures-branch :
    {S A : Type 0} (Q : A → S → Type 0) (E : S → Type 0) (b : Bool) (m n : Action S A) (s : S)
    → (b ≡ true → Ensures Q E (m s))
    → (b ≡ false → Ensures Q E (n s))
    → Ensures Q E (branch b m n s)
Ensures-branch Q E true m n s h k = h refl
Ensures-branch Q E false m n s h k = k refl

pub Ensures-any : {S A : Type 0} (r : Outcome A × S) → Ensures (λ _ _. Unit {0}) (λ _. Unit {0}) r
Ensures-any (returned a, s) = tt
Ensures-any (raised e, s) = tt
