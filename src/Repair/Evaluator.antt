-- ===== src/Repair/Evaluator.antt =====
-- repair/evaluator.py: `AttemptEvaluator`, which turns the facts of an attempt into a record. Times
-- are readings of the clock that `time.perf_counter` reads.
use pyfix_agent.Base.{
  ℕ, ◌-◌, String, Bool, true, false, ◌&&◌, not, Option, none, some, List, [], ◌==◌, string_eq,
  nonempty, truthy, or_text, or_text?, if◌then◌else◌,
}
use pyfix_agent.Base.Int.{ℤ}
use pyfix_agent.Core.Contracts.{
  RepairMode, replacement, mode_eq, Metadata, ReplacementEdit, EditProposal, ApplyResult,
}
use pyfix_agent.Core.Schemas.{PytestSummary, IterationRecord}
use pyfix_agent.Context.PytestSummary.{parse_pytest_summary}
use pyfix_agent.Trace.{
  failure_delta, iteration_result, build_model_output, build_apply, edit_summary, edits_of,
}

-- The arguments of `build_record`; `now` is the clock at the end.
pub record Facts : Type 0 where
  pub iteration : ℕ
  pub prompt : String
  pub raw_model_output : String
  pub cleaned_patch : String
  pub patch_path : String
  pub apply_check_success : Bool
  pub apply_check_error : String
  pub apply_success : Bool
  pub apply_error : String
  pub pytest_exit_code : Option ℤ
  pub pytest_output : String
  pub success : Bool
  pub started_at : ℕ
  pub mode : RepairMode
  pub replacement_raw_output : Option String
  pub replacement_edits : Option (List ReplacementEdit)
  pub replacement_success : Option Bool
  pub replacement_error : Option String
  pub patch_command : String
  pub context : Metadata
  pub test_summary_before : Option PytestSummary
  pub model_call : Metadata

abbrev is_refused : Option Bool → Bool
is_refused none = false
is_refused (some true) = false
is_refused (some false) = true

unfoldable pub parse_error_of : Facts → Option String
parse_error_of f =
    if (f.mode == replacement)
      && (is_refused f.replacement_success && not (nonempty (edits_of f.replacement_edits)))
    then f.replacement_error
    else none

abbrev apply_error_text : Facts → String
apply_error_text f = or_text f.apply_error (
    if is_refused f.replacement_success && nonempty (edits_of f.replacement_edits)
    then or_text? f.replacement_error ""
    else "")

abbrev pub summary_after : String → Option PytestSummary
summary_after output = if truthy output then some (parse_pytest_summary output) else none

abbrev generated_diff_of : Facts → String
generated_diff_of f =
    if f.apply_success && f.patch_command == "git diff --" then f.cleaned_patch else ""

unfoldable pub build_record : Facts → ℕ → IterationRecord
unfolding parse_error_of
build_record f now =
    let after = summary_after f.pytest_output in
    let delta = failure_delta f.test_summary_before after in
    record {
      iteration = f.iteration;
      prompt = f.prompt;
      raw_model_output = f.raw_model_output;
      cleaned_patch = f.cleaned_patch;
      patch_path = f.patch_path;
      apply_check_success = f.apply_check_success;
      apply_check_error = f.apply_check_error;
      apply_success = f.apply_success;
      apply_error = f.apply_error;
      pytest_exit_code = f.pytest_exit_code;
      pytest_output = f.pytest_output;
      success = f.success;
      duration_seconds = now - f.started_at;
      mode = f.mode;
      model_output_type = f.mode;
      replacement_raw_output = f.replacement_raw_output;
      replacement_edits = f.replacement_edits;
      replacement_success = f.replacement_success;
      replacement_error = f.replacement_error;
      patch_command = f.patch_command;
      context = f.context;
      test_summary_before = f.test_summary_before;
      test_summary_after = after;
      failure_delta = delta;
      iteration_result =
          iteration_result f.success f.mode f.raw_model_output (parse_error_of f) f.apply_success
            (apply_error_text f) f.apply_check_success f.apply_check_error f.pytest_exit_code delta;
      generated_diff = generated_diff_of f;
      model_output =
          build_model_output f.mode f.raw_model_output f.replacement_edits (parse_error_of f)
            f.cleaned_patch;
      apply =
          build_apply f.mode f.apply_success (apply_error_text f) (generated_diff_of f)
            f.apply_check_success f.apply_check_error f.patch_command;
      edit_summary =
          edit_summary f.mode f.replacement_edits (or_text (generated_diff_of f) f.cleaned_patch);
      model_call = f.model_call;
      workspace_action = none;
      retry_reason = none;
      context_expansion_level = 0;
      trigger = "pytest_failure";
      review_feedback_ids = [];
      candidate_checkpoint = none;
    }

abbrev for_mode : {A : Type 0} → RepairMode → A → A → A
for_mode mode on_replacement on_patch = if mode == replacement then on_replacement else on_patch

unfoldable pub model_error_record :
    ℕ
    → String
    → String
    → ℕ
    → RepairMode
    → String
    → Metadata
    → PytestSummary
    → Metadata
    → ℕ
    → IterationRecord
unfolding build_record
model_error_record iteration prompt patch_path started_at mode error context summary_before
      model_call now =
    build_record
      (record {
        iteration = iteration;
        prompt = prompt;
        raw_model_output = "";
        cleaned_patch = "";
        patch_path = for_mode mode "" patch_path;
        apply_check_success = false;
        apply_check_error = "";
        apply_success = false;
        apply_error = for_mode mode "" error;
        pytest_exit_code = none;
        pytest_output = "";
        success = false;
        started_at = started_at;
        mode = mode;
        replacement_raw_output = for_mode mode (some "") none;
        replacement_edits = none;
        replacement_success = for_mode mode (some false) none;
        replacement_error = for_mode mode (some error) none;
        patch_command = "";
        context = context;
        test_summary_before = some summary_before;
        model_call = model_call;
      })
      now

-- What `apply_record` is told of a test run: the exit code, the output and the verdict. The
-- defaults stand for an attempt that was not tested.
pub record TestFacts : Type 0 where
  pub exit_code : Option ℤ
  pub output : String
  pub success : Bool

abbrev pub untested : TestFacts
untested = record { exit_code = none; output = ""; success = false }

unfoldable pub apply_record :
    ℕ → EditProposal → ApplyResult → ℕ → Metadata → PytestSummary → TestFacts → ℕ → IterationRecord
unfolding build_record
apply_record iteration proposal result started_at context summary_before tested now =
    build_record
      (record {
        iteration = iteration;
        prompt = proposal.prompt;
        raw_model_output = proposal.raw_output;
        cleaned_patch = result.cleaned_patch;
        patch_path = result.patch_path;
        apply_check_success = result.check_success;
        apply_check_error = result.check_error;
        apply_success = result.apply_success;
        apply_error = result.apply_error;
        pytest_exit_code = tested.exit_code;
        pytest_output = tested.output;
        success = tested.success;
        started_at = started_at;
        mode = result.mode;
        replacement_raw_output = for_mode result.mode (some proposal.raw_output) none;
        replacement_edits = result.replacement_edits;
        replacement_success = result.replacement_success;
        replacement_error = result.replacement_error;
        patch_command = result.command;
        context = context;
        test_summary_before = some summary_before;
        model_call = proposal.model_call;
      })
      now
