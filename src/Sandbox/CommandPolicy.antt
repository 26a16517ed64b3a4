-- ===== src/Sandbox/CommandPolicy.antt =====
-- sandbox/policy.py: which commands a sandbox runs.
pub mod Allowed
use pyfix_agent.Base.{
  String, ◌<>◌, Bool, true, false, ◌&&◌, ◌||◌, not, Option, none, some, List, [], ◌∷◌, ◌++◌, map,
  any, nonempty, contains, join, lower, in_text, forward_slashes, ends_with, take_text, text_length,
  ◌-◌, ◌==◌, string_eq, if◌then◌else◌,
}
use pyfix_agent.Base.Paths.{split_slash}

abbrev pub dangerous_tokens : List String
dangerous_tokens =
    "rm" ∷ "sudo" ∷ "shutdown" ∷ "reboot" ∷ "curl" ∷ "wget" ∷ "powershell" ∷ "cmd" ∷ "del" ∷ "erase"
    ∷ "format" ∷ []

unfoldable pub is_dangerous : String → Bool
is_dangerous token = contains token dangerous_tokens

abbrev last_piece : List String → String
last_piece [] = ""
last_piece (piece ∷ []) = piece
last_piece (piece ∷ (next ∷ pieces)) = last_piece (next ∷ pieces)

-- `s.removesuffix(".exe")`
abbrev pub without_exe : String → String
without_exe s = if ends_with s ".exe" then take_text (text_length s - 4) s else s

-- `_executable_name`
unfoldable pub executable_name : String → String
executable_name value = without_exe (lower (last_piece (split_slash (forward_slashes value))))

-- The loop over the tokens: the first dangerous one.
unfoldable pub first_dangerous : List String → Option String
first_dangerous [] = none
first_dangerous (token ∷ tokens) =
    let rest = first_dangerous tokens in if is_dangerous token then some token else rest

abbrev pub tokens_of : List String → List String
tokens_of command = map lower command ++ map executable_name command

abbrev pub names_pytest : List String → Bool
names_pytest (m ∷ (p ∷ rest)) = m == "-m" && p == "pytest"
names_pytest other = false

-- The tests on the executable.
abbrev pub executable_error : String → List String → Option String
executable_error first rest =
    if contains (executable_name first) ("pytest" ∷ [])
    then none
    else if contains (executable_name first) ("python" ∷ "python3" ∷ [])
    then (if not (nonempty rest)
        then none
        else if names_pytest (map lower rest)
        then none
        else none)
    else some ("command is not allowed: " <> first)

-- `is_command_allowed`: none for an allowed command, else the message
unfoldable pub is_command_allowed : List String → Option String
is_command_allowed [] = some "empty command is not allowed"
is_command_allowed (first ∷ rest) =
    if in_text "rm -rf" (join " " (map lower (first ∷ rest)))
    then some "dangerous command is not allowed: rm -rf"
    else elim (first_dangerous (tokens_of (first ∷ rest))) [
      | some token ↦ some ("dangerous command is not allowed: " <> token)
      | none ↦ executable_error first rest
    ]
