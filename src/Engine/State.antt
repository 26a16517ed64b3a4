-- ===== src/Engine/State.antt =====
-- The state of one call of `RepairEngine.run`: agent/state.py, `RepairRuntime`, the two policies
-- that the engine drives, and the world outside. `IterationPlan` is the engine's too.
use pyfix_agent.Base.{ℕ, String, Bool, false, Option, none, List, []}
use pyfix_agent.Core.Contracts.{RepairMode, RepairRequest, ContextBundle, EditProposal, Metadata}
use pyfix_agent.Core.Schemas.{PytestSummary, IterationRecord, AcceptanceStatus, FinalSummary}
use pyfix_agent.Context.Expansion.{ContextPlan, ContextExpansionPolicy}
use pyfix_agent.Repair.RetryPolicy.{RetryPolicy}
use pyfix_agent.Review.Contracts.{ReviewRecord}

pub record AgentState : Type 0 where
  pub task : String
  pub workspace : String
  pub original_workspace : String
  pub file_tree : String
  pub test_output_before : String
  pub test_output_after : String
  pub patch : String
  pub iterations : List IterationRecord
  pub success : Bool
  pub visible_success : Bool
  pub acceptance_status : AcceptanceStatus
  pub candidate_patch : String
  pub candidate_patch_path : String
  pub reviews : List ReviewRecord
  pub semantic_revisions_used : ℕ
  pub error : Option String
  pub workspace_state : Option Metadata
  pub workspace_strategy : String
  pub final_patch_path : String

pub record RepairRuntime : Type 0 where
  pub patch_applied : Bool
  pub feedback : String
  pub current_test_output : String
  pub active_review_feedback : String
  pub active_review_ids : List String
  pub trigger : String
  pub review_index : ℕ
  pub finished : Bool

pub record IterationPlan : Type 0 where
  pub iteration : ℕ
  pub started_at : ℕ
  pub patch_path : String
  pub mode : RepairMode
  pub context_plan : ContextPlan
  pub context : ContextBundle
  pub test_summary_before : PytestSummary
  pub proposal : EditProposal

pub record Engine (World : Type 0) : Type 0 where
  pub state : AgentState
  pub runtime : RepairRuntime
  pub retry_policy : RetryPolicy
  pub context_policy : ContextExpansionPolicy
  pub world : World

-- `AgentState(task, workspace, original_workspace)` and `RepairRuntime()`, as `run` makes them.
abbrev pub new_state : RepairRequest → AgentState
new_state request = record {
  task = request.task;
  workspace = request.workspace;
  original_workspace = request.workspace;
  file_tree = "";
  test_output_before = "";
  test_output_after = "";
  patch = "";
  iterations = [];
  success = false;
  visible_success = false;
  acceptance_status = AcceptanceStatus.not_run;
  candidate_patch = "";
  candidate_patch_path = "";
  reviews = [];
  semantic_revisions_used = 0;
  error = none;
  workspace_state = none;
  workspace_strategy = "in_place";
  final_patch_path = "";
}

abbrev pub new_runtime : RepairRuntime
new_runtime = record {
  patch_applied = false;
  feedback = "No previous attempt.";
  current_test_output = "";
  active_review_feedback = "";
  active_review_ids = [];
  trigger = "pytest_failure";
  review_index = 0;
  finished = false;
}

-- `AgentResult` of schemas.py, without the constant schema version.
pub record AgentResult : Type 0 where
  pub task : String
  pub workspace : String
  pub success : Bool
  pub patch_applied : Bool
  pub test_output_before : String
  pub test_output_after : String
  pub patch : String
  pub iterations : List IterationRecord
  pub workspace_strategy : String
  pub final_patch_command : String
  pub error : Option String
  pub environment : Metadata
  pub final_summary : FinalSummary
  pub workspace_state : Option Metadata
  pub final_patch_path : String
  pub visible_success : Bool
  pub acceptance_status : AcceptanceStatus
  pub candidate_patch : String
  pub candidate_patch_path : String
  pub reviews : List ReviewRecord
  pub semantic_revisions_used : ℕ
