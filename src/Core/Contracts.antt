-- ===== src/Core/Contracts.antt =====
-- core/contracts.py and the edit of tools/replacement_tools.py. A metadata dictionary is a list of
-- its entries, each value as the text that stands for it in the trace.
use pyfix_agent.Base.{ℕ, String, Bool, true, false, Option, none, List}
use pyfix_agent.Base.{Equality, ◌≡◌, ◌↔◌, arith}

pub data RepairMode : Type 0 where
  patch replacement : RepairMode

abbrev mode_equal : RepairMode → RepairMode → Bool
mode_equal patch patch = true
mode_equal replacement replacement = true
mode_equal a b = false

pub mode_equal_lem : (a b : RepairMode) → (mode_equal a b ≡ true) ↔ (a ≡ b)
mode_equal_lem a b = ground arith

instance abbrev pub mode_eq : Equality RepairMode
mode_eq = record { equals = mode_equal; equals_iff = mode_equal_lem }

abbrev pub mode_text : RepairMode → String
mode_text patch = "patch"
mode_text replacement = "replacement"

abbrev pub Metadata : Type 0
Metadata = List (String × String)

pub record RepairRequest : Type 0 where
  pub task : String
  pub workspace : String
  pub max_iterations : ℕ

pub record ContextBundle : Type 0 where
  pub rendered : String
  pub metadata : Metadata

pub record EditProposal : Type 0 where
  pub mode : RepairMode
  pub prompt : String
  pub raw_output : String
  pub model_call : Metadata

pub record ReplacementEdit : Type 0 where
  pub path : String
  pub old : String
  pub new : String
  pub start_line : Option ℕ

-- The values that the backends write to `failure_stage`.
pub data FailureStage : Type 0 where
  parse check apply diff : FailureStage

abbrev pub stage_text : FailureStage → String
stage_text parse = "parse"
stage_text check = "check"
stage_text apply = "apply"
stage_text diff = "diff"

pub record ApplyResult : Type 0 where
  pub mode : RepairMode
  pub success : Bool
  pub raw_output : String
  pub cleaned_patch : String
  pub patch_path : String
  pub check_success : Bool
  pub check_error : String
  pub apply_success : Bool
  pub apply_error : String
  pub command : String
  pub error : Option String
  pub failure_stage : Option FailureStage
  pub applied_to_workspace : Bool
  pub replacement_edits : Option (List ReplacementEdit)
  pub replacement_success : Option Bool
  pub replacement_error : Option String

-- The values of the fields that a call of the constructor leaves out.
abbrev pub apply_defaults : RepairMode → Bool → String → ApplyResult
apply_defaults mode success raw_output = record {
  mode = mode;
  success = success;
  raw_output = raw_output;
  cleaned_patch = "";
  patch_path = "";
  check_success = false;
  check_error = "";
  apply_success = false;
  apply_error = "";
  command = "";
  error = none;
  failure_stage = none;
  applied_to_workspace = false;
  replacement_edits = none;
  replacement_success = none;
  replacement_error = none;
}

pub record RetryDecision : Type 0 where
  pub continue_repair : Bool
  pub next_mode : RepairMode
  pub reason : String
  pub rollback : Bool
  pub checkpoint : Bool
  pub expand_context : Bool

-- `RetryDecision(continue_repair, next_mode, reason)`
abbrev pub retry_decision : Bool → RepairMode → String → RetryDecision
retry_decision continue_repair next_mode reason = record {
  continue_repair = continue_repair;
  next_mode = next_mode;
  reason = reason;
  rollback = false;
  checkpoint = false;
  expand_context = false;
}
