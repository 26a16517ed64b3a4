-- ===== src/Engine/SemanticReview.antt =====
-- core/engine.py, the review of a candidate: `_run_semantic_review`, `_record_review` and
-- `_apply_review_decision`.
use pyfix_agent.Base.{
  ℕ, ◌+◌, String, Bool, true, false, Option, none, some, List, [], ◌∷◌, ◌++◌, map, keep, leb,
  truthy, truthy?, if◌then◌else◌,
}
use pyfix_agent.Base.Outcome.{pure, gets, modify, branch, ◌>>=◌, ◌>>◌}
use pyfix_agent.Core.Contracts.{RepairRequest}
use pyfix_agent.Core.Schemas.{AcceptanceStatus}
use pyfix_agent.Execution.Contracts.{TestExecution}
use pyfix_agent.Review.Contracts.{
  ReviewAction, ReviewVerdict, ReviewOutcome, StructuralCue, ReviewDecision, ReviewExecution,
}
use pyfix_agent.Review.Policy.{decide}
use pyfix_agent.Review.Feedback.{shown, build_review_feedback}
use pyfix_agent.Engine.State.{IterationPlan}
use pyfix_agent.Engine.Services.{Services}
use pyfix_agent.Engine.Attempt.{Run, call, set_state, set_runtime}

-- `a or b` on error texts that may be absent
abbrev or_error : Option String → Option String → Option String
or_error none b = b
or_error (some a) b = if truthy a then some a else b

-- `str(cue.get("category")) for cue in cues if cue.get("category")`
abbrev cue_categories : List StructuralCue → List String
cue_categories cues = map (λ c. shown c.category) (keep (λ c. truthy? c.category) cues)

-- The decision, when a revision would need an iteration that the request does not grant.
abbrev within_iterations : ReviewDecision → ℕ → ℕ → ReviewDecision
within_iterations d iteration max_iterations = elim d.action [
  | ReviewAction.revise ↦
      if leb max_iterations iteration
      then record {
        action = ReviewAction.needs_review;
        reason = "edit iteration budget exhausted";
        blocking_risk_ids = d.blocking_risk_ids;
      }
      else d
  | _ ↦ d
]

abbrev is_accepting : ReviewAction → Bool
is_accepting ReviewAction.accept = true
is_accepting ReviewAction.accept_with_warnings = true
is_accepting ReviewAction.revise = false
is_accepting ReviewAction.needs_review = false

abbrev is_abstaining : Option ReviewOutcome → Bool
is_abstaining none = false
is_abstaining (some o) = elim o.verdict [ ReviewVerdict.abstain ↦ true | _ ↦ false ]

-- The outcome to revise from, if the decision is to revise and there is one.
abbrev to_revise : ReviewAction → Option ReviewOutcome → Option ReviewOutcome
to_revise ReviewAction.revise outcome = outcome
to_revise other outcome = none

module _ (S : Services) where
  -- The execution of the review, its structural cues, and the decision.
  unfoldable pub run_semantic_review :
      RepairRequest
      → IterationPlan
      → TestExecution
      → Run S (ReviewExecution × List StructuralCue × ReviewDecision)
  run_semantic_review request p after = do
    set_runtime S (λ t. record t { review_index = t.review_index + 1 })
    candidate_diff ← call S S.candidate_diff
    workspace ← gets (λ e. e.state.workspace)
    context ← call S (S.build_review_context workspace candidate_diff)
    index ← gets (λ e. e.runtime.review_index)
    execution ← call S (
        S.review
          (record {
            task = request.task;
            candidate_diff = candidate_diff;
            visible_test_output = after.output;
            context = context;
            review_index = index;
          })
          workspace)
    used ← gets (λ e. e.state.semantic_revisions_used)
    let cues = keep (λ (c : StructuralCue). truthy? c.id) context.structural_risk_cues
    let decision =
        decide S.review_policy execution.outcome used
          (or_error execution.model_error execution.parse_error) (cue_categories cues)
          (map (λ c. shown c.id) cues)
    pure (execution, cues, within_iterations decision p.iteration request.max_iterations)

  unfoldable pub record_review :
      ReviewExecution → ReviewDecision → IterationPlan → Option String → Run S (Unit {0})
  record_review execution decision p checkpoint = modify (λ e. record e {
    state = record (e.state) {
      reviews =
          e.state.reviews
          ++ (record {
            review_index = e.runtime.review_index;
            based_on_iteration = p.iteration;
            prompt = execution.prompt;
            raw_model_output = execution.raw_output;
            parsed_outcome = execution.outcome;
            parse_error = execution.parse_error;
            model_error = execution.model_error;
            model_calls = execution.model_calls;
            context = execution.context;
            policy_action = decision.action;
            policy_reason = decision.reason;
            blocking_risk_ids = decision.blocking_risk_ids;
            candidate_checkpoint = checkpoint;
          })
            ∷ [];
    };
  })

  -- The last part of `_apply_review_decision`.
  reject_candidate : ReviewExecution → Run S Bool
  reject_candidate execution = do
    set_state S (λ s. record s {
      success = false;
      acceptance_status =
          if truthy? (or_error execution.model_error execution.parse_error)
          then AcceptanceStatus.review_error
          else if is_abstaining execution.outcome
          then AcceptanceStatus.abstained
          else AcceptanceStatus.rejected;
      error = none;
    })
    pure true

  request_revision :
      TestExecution → List StructuralCue → ReviewDecision → ReviewOutcome → Run S Bool
  request_revision after cues decision outcome = do
    let feedback =
        build_review_feedback outcome S.review_max_feedback_chars decision.blocking_risk_ids cues
    set_runtime S (λ t. record t {
      active_review_feedback = feedback.0;
      active_review_ids = feedback.1;
      feedback = feedback.0;
      current_test_output = after.output;
      trigger = "semantic_revision";
    })
    set_state S (λ s. record s {
      semantic_revisions_used = s.semantic_revisions_used + 1;
      success = false;
      acceptance_status = AcceptanceStatus.revising;
    })
    pure false

  unfoldable pub apply_review_decision :
      TestExecution → ReviewExecution → List StructuralCue → ReviewDecision → Run S Bool
  unfolding reject_candidate request_revision
  apply_review_decision after execution cues decision =
      branch (is_accepting decision.action)
        (do
          set_state S (λ s. record s {
            acceptance_status = elim decision.action [
              | ReviewAction.accept_with_warnings ↦ AcceptanceStatus.accepted_with_warnings
              | _ ↦ AcceptanceStatus.accepted
            ];
            success = true;
            error = none;
          })
          pure true)
        (elim (to_revise decision.action execution.outcome) [
          | none ↦ reject_candidate execution
          | some outcome ↦ request_revision after cues decision outcome
        ])
