-- ===== src/Review/Contracts.antt =====
-- review/contracts.py, with the entries of the dictionaries that review/parser.py builds. A
-- confidence is kept as the text of its number.
use pyfix_agent.Base.{ℕ, String, Bool, true, false, Option, List, keep}
use pyfix_agent.Core.Contracts.{Metadata}

pub data ReviewVerdict : Type 0 where
  accept revise abstain : ReviewVerdict

pub data ReviewAction : Type 0 where
  accept accept_with_warnings revise needs_review : ReviewAction

pub data Severity : Type 0 where
  blocking warning : Severity

pub record Evidence : Type 0 where
  pub path : String
  pub line : Option ℕ

pub record Counterexample : Type 0 where
  pub input_shape : String
  pub expected_property : String

pub record ReviewContract : Type 0 where
  pub id : String
  pub statement : String
  pub evidence : List Evidence
  pub confidence : Option String

pub record ReviewRisk : Type 0 where
  pub risk_id : String
  pub category : String
  pub severity : Severity
  pub reason : String
  pub contract_id : Option String
  pub evidence : List Evidence
  pub counterexamples : List Counterexample

pub record ReviewOutcome : Type 0 where
  pub verdict : ReviewVerdict
  pub summary : String
  pub contracts : List ReviewContract
  pub risks : List ReviewRisk
  pub repair_feedback : String

abbrev pub is_blocking : ReviewRisk → Bool
is_blocking r = elim r.severity [ blocking ↦ true | warning ↦ false ]

-- the property `blocking_risks`
abbrev pub blocking_risks : ReviewOutcome → List ReviewRisk
blocking_risks o = keep is_blocking o.risks

-- A structural risk cue, by the keys that the engine and the feedback read.
pub record StructuralCue : Type 0 where
  pub id : Option String
  pub category : Option String
  pub description : Option String

pub record ReviewContext : Type 0 where
  pub rendered : String
  pub metadata : Metadata
  pub structural_risk_cues : List StructuralCue

pub record ReviewRequest : Type 0 where
  pub task : String
  pub candidate_diff : String
  pub visible_test_output : String
  pub context : ReviewContext
  pub review_index : ℕ

pub record ReviewDecision : Type 0 where
  pub action : ReviewAction
  pub reason : String
  pub blocking_risk_ids : List String

pub record ReviewExecution : Type 0 where
  pub prompt : String
  pub raw_output : String
  pub outcome : Option ReviewOutcome
  pub parse_error : Option String
  pub model_error : Option String
  pub model_calls : List Metadata
  pub context : Metadata

-- `ReviewRecord` of schemas.py
pub record ReviewRecord : Type 0 where
  pub review_index : ℕ
  pub based_on_iteration : ℕ
  pub prompt : String
  pub raw_model_output : String
  pub parsed_outcome : Option ReviewOutcome
  pub parse_error : Option String
  pub model_error : Option String
  pub model_calls : List Metadata
  pub context : Metadata
  pub policy_action : ReviewAction
  pub policy_reason : String
  pub blocking_risk_ids : List String
  pub candidate_checkpoint : Option String
