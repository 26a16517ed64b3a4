-- ===== src/Engine/Verdict.antt =====
-- core/engine.py, the second half of an iteration: `_verify`, `_checkpoint_visible_candidate`,
-- `_handle_visible_success`, `_retry_after_test_failure` and `_accept_or_retry`.
pub mod Progress
pub mod Settling
use pyfix_agent.Base.{
  ℕ, ◌+◌, String, ◌<>◌, Bool, true, false, ◌&&◌, Option, none, some, List, [], ◌∷◌, ◌++◌, map, keep,
  leb, truthy, truthy?, if◌then◌else◌,
}
use mathlib.Core.List.{filter_map}
use pyfix_agent.Base.Outcome.{Action, pure, gets, modify, branch, ◌>>=◌, ◌>>◌}
use pyfix_agent.Core.Contracts.{RepairMode, mode_text, RepairRequest, ApplyResult}
use pyfix_agent.Core.Schemas.{
  IterationRecord, IterationResult, FailureType, failure_type_text, AcceptanceStatus,
}
use pyfix_agent.Context.Expansion.{expand}
use pyfix_agent.Execution.Contracts.{TestExecution, is_success, is_infrastructure_error}
use pyfix_agent.Repair.Evaluator.{apply_record}
use pyfix_agent.Repair.Prompting.{semantic_test_failure}
use pyfix_agent.Repair.RetryPolicy.{after_apply, after_test_failure}
use pyfix_agent.Review.Contracts.{
  ReviewAction, ReviewVerdict, ReviewOutcome, StructuralCue, ReviewDecision, ReviewExecution,
  ReviewRecord,
}
use pyfix_agent.Review.Policy.{decide}
use pyfix_agent.Review.Feedback.{shown, build_review_feedback}
use pyfix_agent.Engine.State.{AgentState, RepairRuntime, IterationPlan, Engine}
use pyfix_agent.Engine.Services.{Services}
use pyfix_agent.Engine.Attempt.{is_isolated, Run, call, set_state, set_runtime, append_record}
use pyfix_agent.Engine.SemanticReview.{run_semantic_review, record_review, apply_review_decision}

module _ (S : Services) where
  -- `_verify`, from the end of the test run on: the record with the test output, or none after an
  -- infrastructure error.
  unfoldable pub record_tests :
      IterationPlan → ApplyResult → TestExecution → Run S (Option (IterationRecord × TestExecution))
  record_tests p result after = do
    set_state S (λ s. record s {
      test_output_after = after.output;
      success = is_success after;
      error =
          if is_success after
          then none
          else some ("tests still failed after applying " <> mode_text p.mode);
    })
    now ← call S S.perf_counter
    let r =
        apply_record p.iteration p.proposal result p.started_at p.context.metadata
          p.test_summary_before
          (record {
            exit_code = some after.exit_code;
            output = after.output;
            success = is_success after;
          })
          now
    branch (is_infrastructure_error after)
        (do
          set_state S (λ s. record s {
            success = false;
            error = some "test execution infrastructure error after applying repair";
          })
          isolated ← gets (λ e. is_isolated e.state)
          action ←
              branch isolated (do call S S.rollback; pure (some "rolled_back_execution_error"))
                (pure (some "kept_in_place"))
          append_record S p (record r {
            iteration_result = record {
              status = "execution_error";
              failure_type = FailureType.execution_error;
              reason = "test execution infrastructure error after applying repair";
            };
            workspace_action = action;
          })
          set_runtime S (λ t. record t { finished = true })
          pure none)
        (pure (some (r, after)))

  unfoldable pub verify :
      IterationPlan → ApplyResult → Run S (Option (IterationRecord × TestExecution))
  verify p result = do
    modify (λ e. record e { retry_policy = (after_apply e.retry_policy result).1 })
    workspace ← gets (λ e. e.state.workspace)
    after ← call S (S.run_tests workspace)
    record_tests p result after

  unfoldable pub checkpoint_visible_candidate :
      IterationPlan → IterationRecord → Run S (Option String)
  checkpoint_visible_candidate p r = do
    set_state S (λ s. record s { visible_success = true })
    checkpoint ← call S (S.checkpoint p.iteration "visible_candidate")
    isolated ← gets (λ e. is_isolated e.state)
    append_record S p (record r {
      candidate_checkpoint = checkpoint;
      workspace_action = some (
          if isolated
          then (if S.semantic_review_enabled
              then "checkpointed_visible_candidate"
              else "checkpointed_success")
          else "kept_in_place");
    })
    pure checkpoint

  -- The verdict where reviews are off.
  abbrev pub disable_review : Run S Bool
  disable_review = do
    set_state S (λ s. record s { acceptance_status = AcceptanceStatus.disabled })
    pure true

  unfoldable pub handle_visible_success :
      RepairRequest → IterationPlan → IterationRecord → TestExecution → Run S Bool
  handle_visible_success request p r after = do
    checkpoint ← checkpoint_visible_candidate p r
    branch S.semantic_review_enabled
        (do
          reviewed ← run_semantic_review S request p after
          record_review S reviewed.0 reviewed.2 p checkpoint
          apply_review_decision S after reviewed.0 reviewed.1 reviewed.2)
        disable_review

  -- `_retry_after_test_failure`, in two parts: the workspace, and the texts for the next attempt.
  settle_workspace : IterationPlan → TestExecution → FailureType → Bool → Run S (Option String)
  settle_workspace p after failure_type rolled_back =
      branch rolled_back
        (do call S S.rollback; pure (some ("rolled_back_" <> failure_type_text failure_type)))
        (do
          checkpoint ← call S (S.checkpoint p.iteration "iteration")
          isolated ← gets (λ e. is_isolated e.state)
          set_runtime S (λ t. record t { current_test_output = after.output })
          pure (some (if isolated then "checkpointed_partial" else "kept_in_place")))

  unfoldable pub retry_after_test_failure :
      IterationPlan → IterationRecord → TestExecution → Run S (Unit {0})
  unfolding settle_workspace
  retry_after_test_failure p r after = do
    let failure_type = r.iteration_result.failure_type
    decision ← gets (λ e. after_test_failure e.retry_policy failure_type)
    rolled_back ← gets (λ e. decision.rollback && is_isolated e.state)
    action ← settle_workspace p after failure_type rolled_back
    modify (λ e. record e {
      context_policy =
          if decision.expand_context
          then expand e.context_policy decision.reason
          else e.context_policy;
    })
    append_record S p (record r { workspace_action = action; retry_reason = some decision.reason })
    level ← gets (λ e. e.context_policy.level)
    let test_feedback =
        semantic_test_failure p.mode failure_type r.failure_delta after.output rolled_back level
    set_runtime S (λ t. record t {
      feedback =
          if truthy t.active_review_feedback
          then t.active_review_feedback <> "\n\n" <> test_feedback
          else test_feedback;
    })

  unfoldable pub accept_or_retry :
      RepairRequest → IterationPlan → IterationRecord → TestExecution → Run S Bool
  accept_or_retry request p r after = do
    passed ← gets (λ e. e.state.success)
    branch passed (handle_visible_success request p r after)
        (do retry_after_test_failure p r after; pure false)
