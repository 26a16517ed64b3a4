-- ===== src/Sandbox/CommandPolicy/Allowed.antt =====
-- sandbox/policy.py: the commands that are allowed.
use pyfix_agent.Base.{
  ◌≡◌, ◌↔◌, arith, String, true, false, none, List, [], ◌∷◌, map, any, contains, join, lower,
  in_text, string_eq,
}
use pyfix_agent.Sandbox.CommandPolicy.{
  is_dangerous, executable_name, first_dangerous, tokens_of, executable_error, is_command_allowed,
}

-- A command without a dangerous token whose executable is pytest or python.
pub record IsAllowed (first : String) (rest : List String) : Type 0 where
  pub no_removal : in_text "rm -rf" (join " " (map lower (first ∷ rest))) ≡ false
  pub no_danger : any is_dangerous (tokens_of (first ∷ rest)) ≡ false
  pub executable : contains (executable_name first) ("pytest" ∷ "python" ∷ "python3" ∷ []) ≡ true

first_dangerous_lem :
    (tokens : List String) → (first_dangerous tokens ≡ none) ↔ (any is_dangerous tokens ≡ false)
unfolding first_dangerous
first_dangerous_lem [] = ground arith
first_dangerous_lem (token ∷ tokens) = ground (arith, first_dangerous_lem tokens)

executable_error_lem :
    (first : String) (rest : List String)
    → (executable_error first rest ≡ none)
      ↔ (contains (executable_name first) ("pytest" ∷ "python" ∷ "python3" ∷ []) ≡ true)
executable_error_lem first rest = ground arith

-- A command is allowed exactly if it has no dangerous token and its executable is pytest or python:
-- what follows `python` makes no difference.
pub is_command_allowed-IsAllowed :
    (first : String) (rest : List String)
    → (is_command_allowed (first ∷ rest) ≡ none) ↔ IsAllowed first rest
unfolding is_command_allowed
is_command_allowed-IsAllowed first rest = (
  λ h. record {
    no_removal = ground (arith, h);
    no_danger = ground (arith, h, first_dangerous_lem (tokens_of (first ∷ rest)));
    executable = ground (arith, h, executable_error_lem first rest);
  },
  λ a. ground (
    arith,
    a.no_removal,
    a.no_danger,
    a.executable,
    first_dangerous_lem (tokens_of (first ∷ rest)),
    executable_error_lem first rest,
  ),
)
