-- ===== src/Tests/Commands.antt =====
-- Test commands, and a run of two of them in a sandbox whose second command fails.
use pyfix_agent.Base.{
  ◌≡◌, ◌↔◌, String, Bool, true, false, none, some, List, [], ◌∷◌, ◌==◌, string_eq,
}
use pyfix_agent.Base.Int.{pos}
use pyfix_agent.Base.Outcome.{done, returned, Ensures}
use pyfix_agent.Execution.Contracts.{CommandResult}
use pyfix_agent.Execution.TestPolicy.{default_test_command, validate}
use pyfix_agent.Execution.TestPolicy.Pytest.{IsPytest, validate-IsPytest}
use pyfix_agent.Execution.TestRunner.{SandboxHost, Runner, run}
use pyfix_agent.Execution.TestRunner.Running.{IsExecution, run-IsExecution}
use pyfix_agent.Sandbox.CommandPolicy.{is_command_allowed}
use pyfix_agent.Sandbox.CommandPolicy.Allowed.{IsAllowed, is_command_allowed-IsAllowed}

validate-IsPytest_example :
    (validate default_test_command ≡ done default_test_command)
    ↔ ((default_test_command ≡ default_test_command) × IsPytest default_test_command)
validate-IsPytest_example = validate-IsPytest default_test_command default_test_command

is_command_allowed-IsAllowed_example :
    (is_command_allowed ("python" ∷ "-c" ∷ "pass" ∷ []) ≡ none)
    ↔ IsAllowed "python" ("-c" ∷ "pass" ∷ [])
is_command_allowed-IsAllowed_example = is_command_allowed-IsAllowed "python" ("-c" ∷ "pass" ∷ [])

abbrev result_of : List String → CommandResult
result_of command = record {
  command = command;
  exit_code = pos 1;
  stdout = "1 failed";
  stderr = "";
  duration = "0.10";
  timeout = false;
  backend = "local";
  runtime_command = command;
  infrastructure_error = false;
  output_truncated = false;
  policy_violation = none;
}

abbrev passing : List String → CommandResult
passing command = record (result_of command) { exit_code = pos 0; stdout = "1 passed" }

abbrev pick : Bool → List String → CommandResult
pick true command = result_of command
pick false command = passing command

-- The world counts nothing; the sandbox is the name of its workspace.
abbrev sandbox_host : SandboxHost
sandbox_host = record {
  World = List String;
  Sandbox = String;
  is_at = λ sandbox workspace w. (returned (sandbox == workspace), w);
  with_workspace = λ sandbox workspace w. (returned workspace, w);
  pytest_basetemp = λ sandbox root index. root;
  run = λ sandbox command w. (
    returned
        (elim command [ [] ↦ passing [] | part ∷ parts ↦ pick (part == "pytest") (part ∷ parts) ]),
    w,
  );
  make_temporary = λ prefix w. (returned "/tmp/t", w);
  remove_temporary = λ root w. root ∷ w;
}

abbrev commands_rest : List (List String)
commands_rest = ("pytest" ∷ []) ∷ ("pytest" ∷ "b.py" ∷ []) ∷ []

abbrev runner : Runner sandbox_host
runner = record { sandbox = "/w"; last_sandbox = "/w"; world = [] }

run-IsExecution_example :
    Ensures
      (λ t u. IsExecution sandbox_host (("python" ∷ []) ∷ commands_rest) (some "/v") runner t u)
      (λ _. Unit {0})
      (run sandbox_host (("python" ∷ []) ∷ commands_rest) (some "/v") runner)
run-IsExecution_example =
    run-IsExecution sandbox_host ("python" ∷ []) commands_rest (some "/v") runner
