-- ===== src/Repair/RetryPolicy.antt =====
-- repair/retry_policy.py: the methods of `RetryPolicy`, which return the decision and the policy's
-- new state.
pub mod Switching
use pyfix_agent.Base.{ℕ, ◌+◌, ◌<>◌, String, Bool, true, false, ◌&&◌, ◌||◌, Option, none, some}
use pyfix_agent.Base.{leb, ◌==◌, if◌then◌else◌, in_text, lower, or_text?}
use pyfix_agent.Core.Contracts.{
  RepairMode, patch, replacement, mode_eq, FailureStage, check, apply, stage_text, ApplyResult,
  RetryDecision, retry_decision,
}
use pyfix_agent.Core.Schemas.{FailureType, regression, incomplete_fix, no_progress, timeout}

pub record RetryPolicy : Type 0 where
  pub mode : RepairMode
  pub consecutive_patch_check_failures : ℕ
  pub consecutive_replacement_apply_failures : ℕ

-- `__init__`, at a mode that passes its test.
abbrev pub initial : RepairMode → RetryPolicy
initial mode = record {
  mode = mode;
  consecutive_patch_check_failures = 0;
  consecutive_replacement_apply_failures = 0;
}

unfoldable pub after_model_error : RetryPolicy → RetryDecision
after_model_error p =
    retry_decision (p.mode == replacement) p.mode
      (if p.mode == replacement then "retry_replacement_model_error" else "stop_patch_model_error")

abbrev pub at_stage : FailureStage → Option FailureStage → Bool
at_stage check (some check) = true
at_stage apply (some apply) = true
at_stage a b = false

abbrev stage_or_apply : Option FailureStage → String
stage_or_apply none = "apply"
stage_or_apply (some s) = stage_text s

unfoldable pub lost_source_anchor : ApplyResult → Bool
lost_source_anchor r = in_text "old text was not found" (lower (or_text? r.error ""))

-- The second half of `after_apply`, on results of the replacement backend.
after_replacement_apply : RetryPolicy → ApplyResult → RetryDecision × RetryPolicy
after_replacement_apply p r =
    if (r.mode == replacement) && at_stage apply r.failure_stage
    then (let failures = p.consecutive_replacement_apply_failures + 1 in
        let lost = lost_source_anchor r in
        if lost || leb 2 failures
        then (
          retry_decision true patch (
              if lost
              then "switch_to_patch_after_lost_replacement_anchor"
              else "switch_to_patch_after_replacement_apply_failures"),
          record {
            mode = patch;
            consecutive_patch_check_failures = 0;
            consecutive_replacement_apply_failures = failures;
          },
        )
        else (
          retry_decision true p.mode ("retry_after_" <> stage_or_apply r.failure_stage),
          record p { consecutive_replacement_apply_failures = failures },
        ))
    else (
      retry_decision true p.mode ("retry_after_" <> stage_or_apply r.failure_stage),
      if (r.mode == replacement) && r.applied_to_workspace
          then record p { consecutive_replacement_apply_failures = 0 }
          else p,
    )

unfoldable pub after_apply : RetryPolicy → ApplyResult → RetryDecision × RetryPolicy
unfolding after_replacement_apply
after_apply p r =
    if (r.mode == patch) && at_stage check r.failure_stage
    then (let failures = p.consecutive_patch_check_failures + 1 in
        if leb 2 failures
        then (
          retry_decision true replacement "switch_to_replacement_after_patch_checks",
          record p { mode = replacement; consecutive_patch_check_failures = failures },
        )
        else after_replacement_apply (record p { consecutive_patch_check_failures = failures }) r)
    else after_replacement_apply
        (if (r.mode == patch) && r.applied_to_workspace
          then record p { consecutive_patch_check_failures = 0 }
          else p)
        r

-- `after_test_failure`, by the failure type of the iteration's result.
unfoldable pub after_test_failure : RetryPolicy → FailureType → RetryDecision
after_test_failure p regression =
    record (retry_decision true p.mode "rollback_regression_and_expand_context") {
      rollback = true;
      expand_context = true;
    }
after_test_failure p no_progress =
    record (retry_decision true p.mode "rollback_no_progress_and_expand_context") {
      rollback = true;
      expand_context = true;
    }
after_test_failure p timeout = record (retry_decision true p.mode "rollback_after_test_timeout") {
  rollback = true;
}
after_test_failure p incomplete_fix =
    record (retry_decision true p.mode "checkpoint_partial_progress") { checkpoint = true }
after_test_failure p other =
    record (retry_decision true p.mode "checkpoint_unclassified_test_failure") { checkpoint = true }
