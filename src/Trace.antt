-- ===== src/Trace.antt =====
-- trace.py: the facts about one attempt, and the summary of a run.
pub mod Delta
pub mod Classes
use pyfix_agent.Base.{
  ℕ, ◌+◌, max, String, Bool, true, false, ◌&&◌, ◌||◌, not, Option, none, some, List, [], ◌∷◌, map,
  keep, contains, dedupe, length, nonempty, truthy, truthy?, or_text, or_text?, starts_with,
  splitlines, after_prefix, after_first, forward_slashes, ◌==◌, string_eq, if◌then◌else◌,
}
use pyfix_agent.Base.Int.{ℤ, is_code}
use pyfix_agent.Core.Contracts.{RepairMode, patch, replacement, mode_eq, ReplacementEdit}
use pyfix_agent.Core.Schemas.{
  PytestSummary, FailureDelta, FailureType, IterationResult, ModelOutput, ApplyInfo, EditSummary,
}

abbrev pub failed_of : Option PytestSummary → List String
failed_of none = []
failed_of (some s) = s.failed_tests

unfoldable pub failure_delta : Option PytestSummary → Option PytestSummary → FailureDelta
failure_delta before after =
    let before_failed = failed_of before in
    let after_failed = failed_of after in
    record {
      fixed = keep (λ node. not (contains node after_failed)) before_failed;
      remaining = keep (λ node. contains node after_failed) before_failed;
      new = keep (λ node. not (contains node before_failed)) after_failed;
    }

abbrev result_of : String → FailureType → String → IterationResult
result_of status failure_type reason = record {
  status = status;
  failure_type = failure_type;
  reason = reason;
}

-- `delta.get("new")` and `delta.get("fixed")` decide the class of a failing run.
unfoldable pub class_of_failure : FailureDelta → FailureType
class_of_failure d =
    if nonempty d.new
    then FailureType.regression
    else if nonempty d.fixed
    then FailureType.incomplete_fix
    else FailureType.no_progress

-- The last tests of `iteration_result`, on the exit code of pytest.
by_exit_code : Option ℤ → FailureDelta → IterationResult
unfolding class_of_failure
by_exit_code none d =
    result_of "unknown_error" FailureType.unknown
      "Iteration failed before a structured reason could be determined."
by_exit_code (some code) d =
    if is_code 124 code
    then result_of "timeout" FailureType.timeout "Pytest timed out after applying the repair."
    else if is_code 0 code
    then result_of "unknown_error" FailureType.unknown
        "Iteration failed before a structured reason could be determined."
    else result_of "test_failed_after_apply" (class_of_failure d)
        "Repair was applied successfully, but pytest still failed."

unfoldable pub iteration_result :
    Bool
    → RepairMode
    → String
    → Option String
    → Bool
    → String
    → Bool
    → String
    → Option ℤ
    → FailureDelta
    → IterationResult
unfolding by_exit_code
iteration_result success mode raw parse_error apply_success apply_error check_success check_error
      exit_code delta =
    if success
    then result_of "test_passed" FailureType.success "Pytest passed after applying the repair."
    else if truthy? parse_error
    then result_of
        (if mode == replacement then "replacement_parse_failed" else "model_output_invalid")
        FailureType.invalid_model_output (or_text? parse_error "")
    else if raw == ""
    then result_of "model_output_invalid" FailureType.invalid_model_output
        "Model did not return usable output."
    else if (mode == patch) && not check_success
    then result_of "patch_check_failed" FailureType.invalid_model_output
        (or_text check_error "Patch failed git apply --check.")
    else if not apply_success
    then result_of
        (if mode == replacement then "replacement_apply_failed" else "patch_apply_failed")
        FailureType.apply_failed (or_text apply_error "Repair could not be applied.")
    else by_exit_code exit_code delta

abbrev pub edits_of : Option (List ReplacementEdit) → List ReplacementEdit
edits_of none = []
edits_of (some edits) = edits

unfoldable pub build_model_output :
    RepairMode → String → Option (List ReplacementEdit) → Option String → String → ModelOutput
build_model_output mode raw parsed_edits parse_error cleaned_patch = record {
  mode = mode;
  raw = raw;
  parsed_success = elim parse_error [
    | none ↦ if mode == replacement then nonempty (edits_of parsed_edits) else truthy cleaned_patch
    | some e ↦ false
  ];
  parsed_edits = if mode == replacement then parsed_edits else none;
  parse_error = parse_error;
  parsed_patch = if mode == patch then some cleaned_patch else none;
}

abbrev text_or_none : String → Option String
text_or_none s = if truthy s then some s else none

unfoldable pub build_apply :
    RepairMode → Bool → String → String → Bool → String → String → ApplyInfo
build_apply method success error generated_diff check_success check_error command = record {
  method = method;
  success = success;
  error = text_or_none error;
  generated_diff = generated_diff;
  check_success = check_success;
  check_error = text_or_none check_error;
  command = command;
}

-- `_replacement_changed_lines`, summed over the edits
abbrev changed_lines_of : ReplacementEdit → ℕ
changed_lines_of e = max (length (splitlines e.old)) (length (splitlines e.new))

changed_lines_sum : List ReplacementEdit → ℕ
changed_lines_sum [] = 0
changed_lines_sum (e ∷ edits) = changed_lines_of e + changed_lines_sum edits

-- `_diff_changed_lines`
abbrev is_changed_line : String → Bool
is_changed_line line =
    not (starts_with line "+++" || starts_with line "---")
    && (starts_with line "+" || starts_with line "-")

unfoldable pub diff_changed_lines : String → ℕ
diff_changed_lines diff_text = length (keep is_changed_line (splitlines diff_text))

-- `^diff --git a/(.*?) b/(.*?)$`, its second group
path_of_header : String → Option String
path_of_header line = elim (after_prefix "diff --git a/" line) [
  | none ↦ none
  | some rest ↦ after_first " b/" rest
]

paths_of_lines : List String → List String
paths_of_lines [] = []
paths_of_lines (line ∷ lines) =
    let rest = paths_of_lines lines in
    elim (path_of_header line) [ none ↦ rest | some path ↦ forward_slashes path ∷ rest ]

unfoldable pub paths_from_diff : String → List String
unfolding paths_of_lines path_of_header
paths_from_diff diff_text = dedupe (paths_of_lines (splitlines diff_text))

unfoldable pub edit_summary : RepairMode → Option (List ReplacementEdit) → String → EditSummary
unfolding changed_lines_sum
edit_summary replacement replacement_edits diff_text =
    let edits = edits_of replacement_edits in
    record {
      modified_files = dedupe (keep truthy (map (λ e. e.path) edits));
      edit_count = length edits;
      changed_lines_estimate = changed_lines_sum edits;
    }
edit_summary patch replacement_edits diff_text =
    let modified_files = paths_from_diff diff_text in
    record {
      modified_files = modified_files;
      edit_count = length modified_files;
      changed_lines_estimate = diff_changed_lines diff_text;
    }
