-- ===== src/Execution/TestRunner.antt =====
-- `TestRunner` of execution/test_runner.py, over a sandbox that is not fixed.
pub mod Running
use pyfix_agent.Base.{
  ℕ, suc, String, ◌<>◌, Bool, true, false, not, ◌||◌, Option, none, some, List, [], ◌∷◌, ◌++◌, map,
  any, join, starts_with, or_text?, ◌==◌, string_eq, if◌then◌else◌,
}
use pyfix_agent.Base.Int.{is_code, show_int}
use pyfix_agent.Base.Outcome.{
  Outcome, returned, raised, Action, pure, raise, branch, other_error, value_error, Attempted, done,
  failed, ◌>>=◌, ◌>>◌,
}
use pyfix_agent.Execution.Contracts.{CommandResult, TestExecution}
use pyfix_agent.Execution.TestPolicy.{default_test_command, validate}

-- The protocol `Sandbox` of sandbox/base.py, and the temporary directory of a run.
pub record SandboxHost : Type 1 where
  pub World : Type 0
  pub Sandbox : Type 0
  -- whether the resolved workspace is the sandbox's
  pub is_at : Sandbox → String → Action World Bool
  pub with_workspace : Sandbox → String → Action World Sandbox
  pub pytest_basetemp : Sandbox → String → ℕ → String
  pub run : Sandbox → List String → Action World CommandResult
  -- `tempfile.TemporaryDirectory(...)`, whose removal ignores errors
  pub make_temporary : String → Action World String
  pub remove_temporary : String → World → World

abbrev flag : Bool → String
flag true = "True"
flag false = "False"

abbrev pub format_output : CommandResult → String
format_output r = join "\n" (
    ("command: " <> join " " r.command)
    ∷ ("backend: " <> r.backend)
    ∷ ("exit_code: " <> show_int r.exit_code)
    ∷ ("duration: " <> (r.duration <> "s"))
    ∷ ("timeout: " <> flag r.timeout)
    ∷ ("infrastructure_error: " <> flag r.infrastructure_error)
    ∷ ("output_truncated: " <> flag r.output_truncated)
    ∷ ("policy_violation: " <> or_text? r.policy_violation "none")
    ∷ "stdout:"
    ∷ r.stdout
    ∷ "stderr:"
    ∷ r.stderr
    ∷ [])

abbrev pub is_basetemp : String → Bool
is_basetemp part = part == "--basetemp" || starts_with part "--basetemp="

-- `_with_isolated_basetemp`
unfoldable pub with_isolated_basetemp : List String → String → List String
with_isolated_basetemp command basetemp =
    if any is_basetemp command then command else command ++ ("--basetemp=" <> basetemp) ∷ []

abbrev pub validated : List (List String) → Attempted (List (List String))
validated [] = done []
validated (command ∷ commands) = elim (validate command) [
  | failed m ↦ failed m
  | done c ↦ elim (validated commands) [ failed m ↦ failed m | done cs ↦ done (c ∷ cs) ]
]

-- The commands of `__init__`: `commands or (default,)`, each validated.
unfoldable pub runner_commands : List (List String) → Attempted (List (List String))
runner_commands [] = validated (default_test_command ∷ [])
runner_commands (command ∷ commands) = validated (command ∷ commands)

abbrev pub last_result : CommandResult → List CommandResult → CommandResult
last_result r [] = r
last_result r (next ∷ rest) = last_result next rest

abbrev pub execution_of : CommandResult → List CommandResult → TestExecution
execution_of first rest =
    let result = last_result first rest in
    record {
      exit_code = result.exit_code;
      output = join "\n\n" (map format_output (first ∷ rest));
      command_result = result;
      command_results = first ∷ rest;
    }

module _ (H : SandboxHost) where
  -- The fields of a runner that `run` assigns, and the world.
  pub record Runner : Type 0 where
    pub sandbox : H.Sandbox
    pub last_sandbox : H.Sandbox
    pub world : H.World

  -- The loop over the commands, from command `index` on: it breaks at the first one that fails.
  unfoldable pub run_commands :
      H.Sandbox → String → ℕ → List (List String) → Action H.World (List CommandResult)
  run_commands sandbox root index [] = pure []
  run_commands sandbox root index (command ∷ commands) =
      H.run sandbox (with_isolated_basetemp command (H.pytest_basetemp sandbox root index))
      >>= λ result.
          branch (not (is_code 0 result.exit_code)) (pure (result ∷ []))
            (run_commands sandbox root (suc index) commands >>= λ rest. pure (result ∷ rest))

  -- The end of a `with` block, however it was left.
  abbrev pub cleaned : {A : Type 0} → String → Outcome A × H.World → Outcome A × H.World
  cleaned root (r, w) = (r, H.remove_temporary root w)

  abbrev pub in_temporary : {A : Type 0} → (String → Action H.World A) → String → Action H.World A
  in_temporary body root w = cleaned root (body root w)

  -- `results[-1]` and the execution of it
  abbrev pub executed : List CommandResult → Action H.World TestExecution
  executed [] = raise (other_error "list index out of range")
  executed (first ∷ rest) = pure (execution_of first rest)

  unfoldable pub run_in : List (List String) → H.Sandbox → Action H.World TestExecution
  run_in commands sandbox =
      H.make_temporary "pyfixagent-pytest-"
      >>= in_temporary (λ root. run_commands sandbox root 1 commands)
      >>= executed

  abbrev pub with_world : Runner → Outcome TestExecution × H.World → Outcome TestExecution × Runner
  with_world s (r, w) = (r, record s { world = w })

  -- The run in a sandbox, once it is chosen.
  abbrev pub run_chosen :
      List (List String) → Runner → Outcome H.Sandbox × H.World → Outcome TestExecution × Runner
  run_chosen commands s (raised e, w) = (raised e, record s { world = w })
  run_chosen commands s (returned sandbox, w) =
      with_world (record s { sandbox = sandbox; last_sandbox = sandbox })
        (run_in commands sandbox w)

  abbrev pub moved : H.Sandbox → String → Bool → Action H.World H.Sandbox
  moved sandbox workspace true = pure sandbox
  moved sandbox workspace false = H.with_workspace sandbox workspace

  -- The sandbox for the workspace.
  abbrev pub choose : H.Sandbox → Option String → Action H.World H.Sandbox
  choose sandbox none = pure sandbox
  choose sandbox (some workspace) = H.is_at sandbox workspace >>= moved sandbox workspace

  -- `TestRunner.run`
  unfoldable pub run : List (List String) → Option String → Action Runner TestExecution
  run commands workspace s = run_chosen commands s (choose s.sandbox workspace s.world)
