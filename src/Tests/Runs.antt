-- ===== src/Tests/Runs.antt =====
-- A whole run of the engine in a scripted world, and the theorems on runs at it.
use pyfix_agent.Base.{◌≡◌, refl, Bool, true, false, [], ◌∷◌, arith}
use mathlib.Core.Bool.{false≢true}
use pyfix_agent.Base.{splitlines, after_prefix, lstrip, after_spaces, word_of, forward_slashes}
use pyfix_agent.Execution.Contracts.{is_infrastructure_error}
use pyfix_agent.Repair.Evaluator.{apply_record}
use pyfix_agent.Trace.{iteration_result, failure_delta}
use pyfix_agent.Context.PytestSummary.{parse_pytest_summary}
use pyfix_agent.Base.Int.{pos}
use pyfix_agent.Base.Outcome.{Outcome, returned, raised, runtime_error, Ensures}
use pyfix_agent.Core.Contracts.{patch}
use pyfix_agent.Repair.RetryPolicy.{initial}
use pyfix_agent.Context.Expansion.{initial as initial_context}
use pyfix_agent.Engine.State.{Engine, AgentResult}
use pyfix_agent.Engine.Run.{
  run, start, loop, goes_on, conclude, attempt, after_attempt, iterate, run_iteration,
  apply_and_verify, mark_iteration_limit, to_result, close_workspace, final_summary,
}
use pyfix_agent.Engine.Attempt.{prepare, plan_and_generate, apply_proposal}
use pyfix_agent.Engine.SemanticReview.{run_semantic_review, record_review, apply_review_decision}
use pyfix_agent.Engine.Verdict.{
  verify, accept_or_retry, handle_visible_success, checkpoint_visible_candidate,
  retry_after_test_failure,
}
use pyfix_agent.Review.Policy.{decide}
use pyfix_agent.Repair.RetryPolicy.{after_apply, after_test_failure}
use pyfix_agent.Engine.Run.Whole.{IsSound, run-IsSound}
use pyfix_agent.Engine.Run.Rounds.{loop_ends}
use pyfix_agent.Engine.Run.Closing.{WasClosed, conclude_closes, export_failure_leaves_open}
use pyfix_agent.Engine.Run.Soundness.{SettledAfter, run_iteration-Settled}
use pyfix_agent.Engine.Verdict.Progress.{run_semantic_review-within}
use pyfix_agent.Engine.State.{IterationPlan}
use pyfix_agent.Review.Contracts.{ReviewAction}
use pyfix_agent.Base.{◌<◌, none}
use pyfix_agent.Engine.Attempt.{prepare_tests, judge_tests}
use pyfix_agent.Engine.Verdict.{record_tests}
use pyfix_agent.Tests.Samples.{executed}
use pyfix_agent.Tests.Samples.{scripted, script, request}

abbrev began : Engine (scripted true).World
began = start (scripted true) request (initial patch) (initial_context (pos 2)) script

-- Whether an action returned, as a Boolean test, and what it returned.
abbrev has_returned {ℓ ℓ₁} : {A : Type ℓ} {W : Type ℓ₁} → Outcome A × W → Bool
has_returned (returned a, w) = true
has_returned (raised x, w) = false

abbrev result_of {ℓ ℓ₁} : {A : Type ℓ} {W : Type ℓ₁} (x : Outcome A × W) → has_returned x ≡ true → A
result_of (returned a, w) h = a
result_of (raised x, w) h = absurd (false≢true h)

result_of_lem {ℓ ℓ₁} :
    {A : Type ℓ} {W : Type ℓ₁} (x : Outcome A × W) (h : has_returned x ≡ true)
    → x ≡ (returned (result_of x h), x.1)
result_of_lem (returned a, w) h = refl
result_of_lem (raised x, w) h = absurd (false≢true h)

abbrev ended : Outcome AgentResult × Engine (scripted true).World
ended = run (scripted true) request began

ended_returned : has_returned ended ≡ true
unfolding run attempt after_attempt conclude loop iterate goes_on run_iteration apply_and_verify
    mark_iteration_limit to_result close_workspace prepare prepare_tests judge_tests
    plan_and_generate apply_proposal verify record_tests accept_or_retry handle_visible_success
    checkpoint_visible_candidate run_semantic_review record_review apply_review_decision
    retry_after_test_failure final_summary decide after_apply is_infrastructure_error
    after_test_failure apply_record iteration_result failure_delta parse_pytest_summary splitlines
    after_prefix lstrip after_spaces word_of forward_slashes
ended_returned = refl

run-IsSound_example : IsSound (scripted true) request (result_of ended ended_returned)
run-IsSound_example =
    run-IsSound (scripted true) request (initial patch) (initial_context (pos 2)) script
      (result_of ended ended_returned) ended.1 (result_of_lem ended ended_returned)

-- The state in which the loop of the scripted run begins.
abbrev looping : Engine (scripted true).World
looping = record began {
  state = record (began.state) { original_workspace = "/w"; workspace = "/tmp/w" };
  world = record script { exits = pos 1 ∷ pos 0 ∷ [] };
}

loop_ends_example :
    Ensures
      (λ _ t. goes_on (scripted true) request t ≡ false)
      (λ t. Unit {0})
      (loop (scripted true) 3 request looping)
loop_ends_example =
    loop_ends (scripted true) request 3 0 looping
      (
        (
          record {
            numbered = refl;
            reviews_bounded = omega arith;
            revisions_reviewed = omega arith;
            revisions_bounded = omega arith;
          },
          refl,
        ),
        omega arith,
      )
      (omega arith)

run_iteration-Settled_example :
    SettledAfter (scripted true) 0 (run_iteration (scripted true) request 1 looping)
run_iteration-Settled_example =
    run_iteration-Settled (scripted true) request 0 looping
      (record {
        numbered = refl;
        reviews_bounded = omega arith;
        revisions_reviewed = omega arith;
        revisions_bounded = omega arith;
      })
      refl

-- A plan whose edit has passed its tests.
abbrev passed_plan : IterationPlan
passed_plan = record {
  iteration = 1;
  started_at = 0;
  patch_path = "p.patch";
  mode = patch;
  context_plan = record {
    strategy = "traceback";
    line_window = pos 20;
    max_files = pos 3;
    level = 0;
  };
  context = record { rendered = ""; metadata = [] };
  test_summary_before = record {
    total = none;
    passed = 0;
    failed = 1;
    skipped = 0;
    failed_tests = "t.py::a" ∷ [];
  };
  proposal = record { mode = patch; raw_output = "[]"; prompt = "prompt"; model_call = [] };
}

run_semantic_review-within_example :
    Ensures
      (λ reviewed t.
        (t.state ≡ looping.state)
        × (reviewed.2.action ≡ ReviewAction.revise
            → (looping.state.semantic_revisions_used < 1) × (1 < 3)))
      (λ t. t.state ≡ looping.state)
      (run_semantic_review (scripted true) request passed_plan (executed (pos 0)) looping)
run_semantic_review-within_example =
    run_semantic_review-within (scripted true) request passed_plan (executed (pos 0)) looping

abbrev concluded : Outcome AgentResult × Engine (scripted true).World
concluded = conclude (scripted true) (returned tt) looping

concluded_returned : has_returned concluded ≡ true
unfolding conclude to_result close_workspace
concluded_returned = refl

conclude_closes_example : WasClosed (scripted true) concluded.1
conclude_closes_example =
    conclude_closes (scripted true) (returned tt) looping concluded.1
      (result_of concluded concluded_returned) (result_of_lem concluded concluded_returned)

export_failure_leaves_open_example :
    conclude
      (scripted false)
      (returned tt)
      (start (scripted false) request (initial patch) (initial_context (pos 2)) script)
    ≡ (
      raised (runtime_error "git diff failed"),
      start (scripted false) request (initial patch) (initial_context (pos 2)) script,
    )
export_failure_leaves_open_example =
    export_failure_leaves_open (scripted false) (returned tt)
      (start (scripted false) request (initial patch) (initial_context (pos 2)) script)
      (runtime_error "git diff failed") script refl refl
