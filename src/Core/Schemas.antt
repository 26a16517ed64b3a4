-- ===== src/Core/Schemas.antt =====
-- schemas.py, trace.py (the dictionaries of fixed shape that a record carries) and the summary of
-- context/pytest_summary.py.
use pyfix_agent.Base.{ℕ, String, Bool, Option, List}
use pyfix_agent.Base.Int.{ℤ}
use pyfix_agent.Core.Contracts.{RepairMode, Metadata, ReplacementEdit}

pub record PytestSummary : Type 0 where
  pub total : Option ℕ
  pub passed : ℕ
  pub failed : ℕ
  pub skipped : ℕ
  pub failed_tests : List String

-- `failure_delta`
pub record FailureDelta : Type 0 where
  pub fixed : List String
  pub remaining : List String
  pub new : List String

-- `iteration_result`: the classes that the retry policy and the metrics tell apart.
pub data FailureType : Type 0 where
  success invalid_model_output apply_failed timeout regression incomplete_fix no_progress unknown
        execution_error :
      FailureType

abbrev pub failure_type_text : FailureType → String
failure_type_text success = "success"
failure_type_text invalid_model_output = "invalid_model_output"
failure_type_text apply_failed = "apply_failed"
failure_type_text timeout = "timeout"
failure_type_text regression = "regression"
failure_type_text incomplete_fix = "incomplete_fix"
failure_type_text no_progress = "no_progress"
failure_type_text unknown = "unknown"
failure_type_text execution_error = "execution_error"

pub record IterationResult : Type 0 where
  pub status : String
  pub failure_type : FailureType
  pub reason : String

pub record ModelOutput : Type 0 where
  pub mode : RepairMode
  pub raw : String
  pub parsed_success : Bool
  pub parsed_edits : Option (List ReplacementEdit)
  pub parse_error : Option String
  pub parsed_patch : Option String

pub record ApplyInfo : Type 0 where
  pub method : RepairMode
  pub success : Bool
  pub error : Option String
  pub generated_diff : String
  pub check_success : Bool
  pub check_error : Option String
  pub command : String

pub record EditSummary : Type 0 where
  pub modified_files : List String
  pub edit_count : ℕ
  pub changed_lines_estimate : ℕ

pub record IterationRecord : Type 0 where
  pub iteration : ℕ
  pub prompt : String
  pub raw_model_output : String
  pub cleaned_patch : String
  pub patch_path : String
  pub apply_check_success : Bool
  pub apply_check_error : String
  pub apply_success : Bool
  pub apply_error : String
  pub pytest_exit_code : Option ℤ
  pub pytest_output : String
  pub success : Bool
  pub duration_seconds : ℕ
  pub mode : RepairMode
  pub model_output_type : RepairMode
  pub replacement_raw_output : Option String
  pub replacement_edits : Option (List ReplacementEdit)
  pub replacement_success : Option Bool
  pub replacement_error : Option String
  pub patch_command : String
  pub context : Metadata
  pub test_summary_before : Option PytestSummary
  pub test_summary_after : Option PytestSummary
  pub failure_delta : FailureDelta
  pub iteration_result : IterationResult
  pub generated_diff : String
  pub model_output : ModelOutput
  pub apply : ApplyInfo
  pub edit_summary : EditSummary
  pub model_call : Metadata
  pub workspace_action : Option String
  pub retry_reason : Option String
  pub context_expansion_level : ℕ
  pub trigger : String
  pub review_feedback_ids : List String
  pub candidate_checkpoint : Option String

-- The dictionary that `final_summary` builds.
pub data SummaryStatus : Type 0 where
  passed needs_review error failed : SummaryStatus

pub data AcceptanceStatus : Type 0 where
  not_run disabled accepted accepted_with_warnings revising review_error abstained rejected :
      AcceptanceStatus

pub record FinalSummary : Type 0 where
  pub status : SummaryStatus
  pub iterations_used : ℕ
  pub initial_total : Option ℕ
  pub initial_failed : ℕ
  pub final_total : Option ℕ
  pub final_failed : ℕ
  pub modified_files : List String
  pub final_test_result : String
  pub visible_success : Bool
  pub acceptance_status : AcceptanceStatus
  pub review_count : ℕ
  pub semantic_revisions_used : ℕ
