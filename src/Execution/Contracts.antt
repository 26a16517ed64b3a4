-- ===== src/Execution/Contracts.antt =====
-- `CommandResult` of sandbox/base.py, `TestExecution` of execution/test_runner.py and
-- `PreparedWorkspace` of execution/workspace_session.py.
use pyfix_agent.Base.{String, Bool, ◌||◌, Option, List, any}
use pyfix_agent.Base.Int.{ℤ, is_code}
use pyfix_agent.Core.Contracts.{Metadata}

-- A duration is kept as the text that `format_output` prints for it.
pub record CommandResult : Type 0 where
  pub command : List String
  pub exit_code : ℤ
  pub stdout : String
  pub stderr : String
  pub duration : String
  pub timeout : Bool
  pub backend : String
  pub runtime_command : List String
  pub infrastructure_error : Bool
  pub output_truncated : Bool
  pub policy_violation : Option String

pub record TestExecution : Type 0 where
  pub exit_code : ℤ
  pub output : String
  pub command_result : CommandResult
  pub command_results : List CommandResult

-- the properties `success` and `infrastructure_error`
abbrev pub is_success : TestExecution → Bool
is_success t = is_code 0 t.exit_code

unfoldable pub is_infrastructure_error : TestExecution → Bool
is_infrastructure_error t =
    any (λ r. r.infrastructure_error) t.command_results || t.command_result.infrastructure_error

pub record PreparedWorkspace : Type 0 where
  pub workspace : String
  pub file_tree : String
  pub state : Metadata
  pub strategy : String
  pub error : Option String
