-- ===== src/Execution/TestPolicy/Pytest.antt =====
-- execution/test_policy.py: the commands that are accepted.
use pyfix_agent.Base.{
  ◌≡◌, ◌≢◌, refl, ◌↔◌, ◌⊎◌, inl, inr, arith, String, Bool, true, false, not, truthy, ◌||◌, List, [],
  ◌∷◌, any, contains, strip, lower, in_text, string_eq, Bool-cases, any-intro, any-witness,
}
use pyfix_agent.Base.Paths.{path_parts, path_name}
use pyfix_agent.Base.Outcome.{done}
use pyfix_agent.Execution.TestPolicy.{
  shell_tokens, is_blank, is_shell_part, runs_pytest, invokes_pytest, validate,
}

-- The name of the program that a command starts with, in small letters.
abbrev pub program : String → String
program first = lower (path_name (path_parts first))

-- A call of pytest: no part is blank, is a shell's token or has a line break in it, and the executable
-- is pytest, or python with `-m pytest` first.
pub record IsPytest (command : List String) : Type 0 where
  pub first : String
  pub rest : List String
  pub whole : command ≡ first ∷ rest
  pub no_blank : (part : String) → contains part command ≡ true → strip part ≢ ""
  pub no_shell :
      (part : String)
      → contains part command ≡ true
      → (contains part ("&&" ∷ "||" ∷ "|" ∷ ";" ∷ ">" ∷ ">>" ∷ "<" ∷ "<<" ∷ []) ≡ false)
        × (in_text "\n" part ≡ false)
        × (in_text "\r" part ≡ false)
  pub pytest :
      (contains (program first) ("pytest" ∷ "pytest.exe" ∷ []) ≡ true)
      ⊎ ((contains (program first) ("python" ∷ "python.exe" ∷ "python3" ∷ "python3.exe" ∷ [])
            ≡ true)
          × ((more : List String) × (rest ≡ "-m" ∷ "pytest" ∷ more)))

not_any :
    (p : String → Bool) (parts : List String) (part : String)
    → any p parts ≡ false
    → contains part parts ≡ true
    → p part ≡ false
not_any p parts part n m = elim (Bool-cases (p part)) [
  | inl q ↦ absurd (ground (arith, n, any-intro p parts part m q))
  | inr q ↦ q
]

none_of :
    (p : String → Bool) (parts : List String)
    → ((part : String) → contains part parts ≡ true → p part ≡ false)
    → any p parts ≡ false
none_of p parts f = elim (Bool-cases (any p parts)) [
  | inl q ↦ let (part, m, y) = any-witness p parts q in absurd (ground (arith, f part m, y))
  | inr q ↦ q
]

runs_pytest-module :
    (rest : List String)
    → runs_pytest rest ≡ true
    → (more : List String) × (rest ≡ "-m" ∷ "pytest" ∷ more)
runs_pytest-module [] h = absurd (ground arith)
runs_pytest-module (m ∷ []) h = absurd (ground arith)
runs_pytest-module (m ∷ (p ∷ more)) h =
    let flag : m ≡ "-m" = ground (arith, h, string_eq.equals_iff m "-m") in
    let name : p ≡ "pytest" = ground (arith, h, string_eq.equals_iff p "pytest") in
    (more, rw (flag, name) refl)

pytest_call :
    (first : String) (rest : List String)
    → invokes_pytest (first ∷ rest) ≡ true
    → (contains (program first) ("pytest" ∷ "pytest.exe" ∷ []) ≡ true)
      ⊎ ((contains (program first) ("python" ∷ "python.exe" ∷ "python3" ∷ "python3.exe" ∷ [])
            ≡ true)
          × ((more : List String) × (rest ≡ "-m" ∷ "pytest" ∷ more)))
pytest_call first rest h =
    elim (Bool-cases (contains (program first) ("pytest" ∷ "pytest.exe" ∷ []))) [
      | inl p ↦ inl p
      | inr p ↦ inr (ground (arith, h, p), runs_pytest-module rest (ground (arith, h, p)))
    ]

invokes_pytest-IsPytest : (command : List String) → IsPytest command → invokes_pytest command ≡ true
invokes_pytest-IsPytest command p = elim p.pytest [
  | inl q ↦ rw p.whole (ground (arith, q))
  | inr (q, m) ↦ rw (p.whole, m.1) (ground (arith, q))
]

blank_meaning : (part : String) → (is_blank part ≡ false) ↔ (strip part ≢ "")
blank_meaning part = empty (strip part)
  where
    empty : (s : String) → (not (truthy s) ≡ false) ↔ (s ≢ "")
    empty String.[] = (λ h. absurd (ground (arith, h)), λ h. absurd (h refl))
    empty (String.◌∷◌ c s) = (λ h e. absurd (cc), λ h. refl)

or_meaning : (a b c : Bool) → ((a || b || c) ≡ false) ↔ ((a ≡ false) × (b ≡ false) × (c ≡ false))
or_meaning a b c = (λ h. (ground arith, ground arith, ground arith), λ h. ground (arith, h))

shell_meaning :
    (part : String)
    → (is_shell_part part ≡ false) ↔ (
        (contains part ("&&" ∷ "||" ∷ "|" ∷ ";" ∷ ">" ∷ ">>" ∷ "<" ∷ "<<" ∷ []) ≡ false)
        × (in_text "\n" part ≡ false)
        × (in_text "\r" part ≡ false))
shell_meaning part = or_meaning (contains part shell_tokens) (in_text "\n" part) (in_text "\r" part)

validate-guards :
    (command out : List String)
    → (validate command ≡ done out) ↔ (
        (command ≡ out)
        × (any is_blank command ≡ false)
        × (any is_shell_part command ≡ false)
        × (invokes_pytest command ≡ true))
unfolding validate
validate-guards command out = (
  λ h. (ground (arith, h), ground (arith, h), ground (arith, h), ground (arith, h)),
  λ p. given command p.0 p.1 p.2 p.3,
)
  where
    given :
        (c : List String)
        → c ≡ out
        → any is_blank c ≡ false
        → any is_shell_part c ≡ false
        → invokes_pytest c ≡ true
        → validate c ≡ done out
    given [] e b s p = absurd (ground (arith, p))
    given (part ∷ parts) e b s p = ground (arith, e, b, s, p)

guards-IsPytest :
    (command : List String)
    → any is_blank command ≡ false
    → any is_shell_part command ≡ false
    → invokes_pytest command ≡ true
    → IsPytest command
guards-IsPytest [] b s p = absurd (ground (arith, p))
guards-IsPytest (first ∷ rest) b s p = record {
  first = first;
  rest = rest;
  whole = refl;
  no_blank = λ part m. (blank_meaning part).0 (not_any is_blank (first ∷ rest) part b m);
  no_shell = λ part m. (shell_meaning part).0 (not_any is_shell_part (first ∷ rest) part s m);
  pytest = pytest_call first rest p;
}

-- A command is accepted, and then as it is, exactly if it is a call of pytest.
pub validate-IsPytest :
    (command out : List String)
    → (validate command ≡ done out) ↔ ((command ≡ out) × IsPytest command)
validate-IsPytest command out = (
  λ h. let g = (validate-guards command out).0 h in (g.0, guards-IsPytest command g.1 g.2 g.3),
  λ (e, p). (validate-guards command out).1 (
    e,
    none_of is_blank command (λ part m. (blank_meaning part).1 (p.no_blank part m)),
    none_of is_shell_part command (λ part m. (shell_meaning part).1 (p.no_shell part m)),
    invokes_pytest-IsPytest command p,
  ),
)
