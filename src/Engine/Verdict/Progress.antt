-- ===== src/Engine/Verdict/Progress.antt =====
-- What the second half of an iteration of core/engine.py records, and when it ends the run.
use pyfix_agent.Base.{ℕ, sym, ◌∙◌, ◌<◌, ◌≡◌, true, false, Option, none, some, [], ◌∷◌, ◌++◌, arith}
use mathlib.Core.List.{map-append}
use pyfix_agent.Base.Outcome.{Ensures, Ensures-seq, Ensures-mono}
use pyfix_agent.Core.Contracts.{RepairRequest, ApplyResult}
use pyfix_agent.Core.Schemas.{IterationRecord}
use pyfix_agent.Execution.Contracts.{TestExecution, is_success, is_infrastructure_error}
use pyfix_agent.Repair.Evaluator.{apply_record}
use pyfix_agent.Repair.RetryPolicy.{after_apply}
use pyfix_agent.Engine.Attempt.{call}
use pyfix_agent.Review.Contracts.{ReviewAction}
use pyfix_agent.Review.Policy.Revision.{decide_revise_bounded}
use pyfix_agent.Engine.State.{AgentState, IterationPlan, Engine}
use pyfix_agent.Engine.Services.{Services}
use pyfix_agent.Engine.Invariant.{
  numbers, last?-append, passed_last, last_exit, last_output, WasRun, Passed,
}
use pyfix_agent.Engine.Attempt.Progress.{
  Agree, Recorded, Unrecorded, run_tests-WasRun, WasRun-Passed,
}
use pyfix_agent.Engine.SemanticReview.{run_semantic_review}
use pyfix_agent.Engine.Verdict.{
  record_tests, verify, checkpoint_visible_candidate, retry_after_test_failure,
}

-- What `_verify` returns: a record of this iteration, with the verdict of the tests, which is the
-- state's; or nothing, after it has recorded the iteration and withdrawn the success.
abbrev pub Verified :
    ℕ → AgentState → Option (IterationRecord × TestExecution) → AgentState → Type 0
Verified n s none t =
    (numbers t.iterations ≡ numbers s.iterations ++ n ∷ [])
    × (t.reviews ≡ s.reviews)
    × (t.semantic_revisions_used ≡ s.semantic_revisions_used)
    × (t.success ≡ false)
Verified n s (some (r, after)) t =
    (r.iteration ≡ n)
    × (r.success ≡ t.success)
    × (t.success ≡ true → t.error ≡ none)
    × (t.iterations ≡ s.iterations)
    × (t.reviews ≡ s.reviews)
    × (t.semantic_revisions_used ≡ s.semantic_revisions_used)

-- The record that `_verify` returns is that of this outcome of the tests, and the outcome is returned
-- with it.
abbrev Matches : TestExecution → Option (IterationRecord × TestExecution) → Type 0
Matches after none = Unit
Matches after (some (r, returned_)) =
    (returned_ ≡ after)
    × (r.success ≡ is_success after)
    × (is_infrastructure_error after ≡ false)
    × (r.pytest_exit_code ≡ some after.exit_code)
    × (r.pytest_output ≡ after.output)

-- What `_verify` returns stands for a run of the tests.
abbrev pub Tested : Services → Option (IterationRecord × TestExecution) → Type 0
Tested S none = Unit
Tested S (some (r, after)) =
    (r.success ≡ true → Passed S after)
    × (r.pytest_exit_code ≡ some after.exit_code)
    × (r.pytest_output ≡ after.output)

-- A candidate whose visible tests pass, recorded.
pub record Checkpointed (r : IterationRecord) (s t : AgentState) : Type 0 where
  pub numbered : numbers t.iterations ≡ numbers s.iterations ++ r.iteration ∷ []
  pub passed : passed_last t.iterations ≡ some r.success
  pub exit : last_exit t.iterations ≡ some r.pytest_exit_code
  pub output : last_output t.iterations ≡ some r.pytest_output
  pub visible : t.visible_success ≡ true
  pub reviews : t.reviews ≡ s.reviews
  pub revisions : t.semantic_revisions_used ≡ s.semantic_revisions_used
  pub success : t.success ≡ s.success
  pub error : t.error ≡ s.error

module _ (S : Services) where
  record_tests-Verified :
      (p : IterationPlan) (result : ApplyResult) (after : TestExecution) (e : Engine S.World)
      → Ensures
          (λ o e'. Verified p.iteration e.state o e'.state × Matches after o)
          (λ e'. Unrecorded e.state e'.state)
          (record_tests S p result after e)
  unfolding record_tests apply_record
  record_tests-Verified p result after e = grind (arith, map-append)

  Matches-Tested :
      (after : TestExecution) (o : Option (IterationRecord × TestExecution))
      → WasRun S after
      → Matches after o
      → Tested S o
  Matches-Tested after none w m = tt
  Matches-Tested after (some (r, returned_)) w (e, s, i, x, y) =
      (λ won. rw e (WasRun-Passed S after w (sym s ∙ won) i), rw e x, rw e y)

  pub verify-Verified :
      (p : IterationPlan) (result : ApplyResult) (e : Engine S.World)
      → Ensures
          (λ o e'. Verified p.iteration e.state o e'.state × Tested S o)
          (λ e'. Unrecorded e.state e'.state)
          (verify S p result e)
  unfolding verify
  verify-Verified p result e =
      let began : Engine S.World = record e {
        retry_policy = (after_apply e.retry_policy result).1;
      } in
      Ensures-seq (λ after t. WasRun S after × (t.state ≡ e.state)) (λ t. t.state ≡ e.state)
        (λ o t. Verified p.iteration e.state o t.state × Tested S o)
        (λ t. Unrecorded e.state t.state) (call S (S.run_tests e.state.workspace) began)
        (record_tests S p result) (run_tests-WasRun S e.state.workspace began) (λ t g. ground arith)
        (λ after t (w, g).
          Ensures-mono (λ o u. Verified p.iteration t.state o u.state × Matches after o)
            (λ u. Unrecorded t.state u.state)
            (λ o u. Verified p.iteration e.state o u.state × Tested S o)
            (λ u. Unrecorded e.state u.state) (record_tests S p result after t)
            (record_tests-Verified p result after t)
            (λ o u v. (rw⁻¹ g v.0, Matches-Tested after o w v.1)) (λ u v. rw⁻¹ g v))

  pub checkpoint_visible_candidate-Recorded :
      (p : IterationPlan) (r : IterationRecord) (e : Engine S.World)
      → Ensures
          (λ _ e'. Checkpointed r e.state e'.state)
          (λ e'. Unrecorded e.state e'.state)
          (checkpoint_visible_candidate S p r e)
  unfolding checkpoint_visible_candidate
  checkpoint_visible_candidate-Recorded p r e = grind (arith, map-append, last?-append)

  -- A review leaves the agent's state as it is, whether it returns or raises, and asks for a
  -- revision only while the policy's budget is not used up and a further iteration is granted.
  pub run_semantic_review-within :
      (request : RepairRequest) (p : IterationPlan) (after : TestExecution) (e : Engine S.World)
      → Ensures
          (λ reviewed e'.
            (e'.state ≡ e.state)
            × (reviewed.2.action ≡ ReviewAction.revise
                → (e.state.semantic_revisions_used < S.review_policy.max_semantic_revisions)
                  × (p.iteration < request.max_iterations)))
          (λ e'. e'.state ≡ e.state)
          (run_semantic_review S request p after e)
  unfolding run_semantic_review
  run_semantic_review-within request p after e = grind (arith, decide_revise_bounded)

  pub retry_after_test_failure-Recorded :
      (p : IterationPlan) (r : IterationRecord) (after : TestExecution) (e : Engine S.World)
      → Ensures
          (λ _ e'. Recorded r.iteration e.state e'.state)
          (λ e'. Agree e.state e'.state)
          (retry_after_test_failure S p r after e)
  unfolding retry_after_test_failure
  retry_after_test_failure-Recorded p r after e = grind (arith, map-append)
