-- ===== src/Execution/TestPolicy.antt =====
-- execution/test_policy.py: which commands the test runner may be given.
pub mod Pytest
use pyfix_agent.Base.{
  String, ◌<>◌, Bool, true, false, ◌&&◌, ◌||◌, not, Option, none, some, List, [], ◌∷◌, any,
  contains, nonempty, truthy, strip, lower, in_text, ◌==◌, string_eq, if◌then◌else◌,
}
use pyfix_agent.Base.Outcome.{Attempted, done, failed}
use pyfix_agent.Base.Attempts.{◌>>=◌}
use pyfix_agent.Base.Json.{Json, null, boolean, integer, float, text, array, object, elements}
use pyfix_agent.Base.Paths.{path_parts, path_name}

abbrev pub default_test_command : List String
default_test_command = "python" ∷ "-m" ∷ "pytest" ∷ "-p" ∷ "no:cacheprovider" ∷ []

abbrev pub shell_tokens : List String
shell_tokens = "&&" ∷ "||" ∷ "|" ∷ ";" ∷ ">" ∷ ">>" ∷ "<" ∷ "<<" ∷ []

abbrev pub is_shell_part : String → Bool
is_shell_part part = contains part shell_tokens || in_text "\n" part || in_text "\r" part

abbrev pub is_blank : String → Bool
is_blank part = not (truthy (strip part))

-- `Path(part).name.lower()`
abbrev pub executable_of : String → String
executable_of part = lower (path_name (path_parts part))

abbrev pub runs_pytest : List String → Bool
runs_pytest (m ∷ (p ∷ rest)) = m == "-m" && p == "pytest"
runs_pytest other = false

abbrev pub invokes_pytest : List String → Bool
invokes_pytest [] = false
invokes_pytest (first ∷ rest) =
    contains (executable_of first) ("pytest" ∷ "pytest.exe" ∷ [])
    || (contains (executable_of first) ("python" ∷ "python.exe" ∷ "python3" ∷ "python3.exe" ∷ [])
        && runs_pytest rest)

-- `TestCommandPolicy.validate`, on parts that are texts
unfoldable pub validate : List String → Attempted (List String)
validate command =
    if not (nonempty command) || any is_blank command
    then failed "test command must be a non-empty argv list"
    else if any is_shell_part command
    then failed "test command must not contain shell operators"
    else if invokes_pytest command
    then done command
    else failed "test command must invoke pytest directly or through python -m pytest"

module _ (str_of : Json → String) where
  -- `str(part)`
  abbrev pub part_text : Json → String
  part_text (text s) = s
  part_text other = str_of other

  abbrev pub parts_of : List Json → List String
  parts_of [] = []
  parts_of (v ∷ vs) = part_text v ∷ parts_of vs

  unfoldable pub validate_all : List Json → Attempted (List (List String))
  validate_all [] = done []
  validate_all (array part ∷ raws) =
      let rest = validate_all raws in
      validate (parts_of (elements part)) >>= λ command.
      rest >>= λ commands. done (command ∷ commands)
  validate_all (raw ∷ raws) = failed "each test command must be an argv list, not a shell string"

  abbrev pub unless_empty : List Json → Attempted (List (List String))
  unless_empty [] = failed "test.commands must be a non-empty list of argv lists"
  unless_empty (raw ∷ raws) = validate_all (raw ∷ raws)

  unfoldable pub normalize_test_commands : Json → Attempted (List (List String))
  normalize_test_commands null = done (default_test_command ∷ [])
  normalize_test_commands (array raws) = unless_empty (elements raws)
  normalize_test_commands other = failed "test.commands must be a non-empty list of argv lists"
