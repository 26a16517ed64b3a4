-- ===== src/Tests/Policies.antt =====
-- The theorems on the policies, the feedback and the trace, at concrete inputs.
use pyfix_agent.Base.{
  ◌<◌, String, ◌≡◌, refl, ◌⊎◌, ◌↔◌, Bool, true, false, Option, none, some, List, [], ◌∷◌, arith,
  contains, nonempty, string_eq, truthy?, ◌==◌,
}
use pyfix_agent.Base.Int.{pos}
use pyfix_agent.Core.Contracts.{patch}
use pyfix_agent.Core.Schemas.{PytestSummary, FailureType, FailureDelta}
use pyfix_agent.Repair.RetryPolicy.{RetryPolicy, initial, after_apply}
use pyfix_agent.Repair.RetryPolicy.Switching.{
  run, IsSettled, run-IsSettled, IsCheckFailure, IsReplacementFailure, after_apply_decision,
  stale_replacement_count_switches,
}
use pyfix_agent.Context.Expansion.{ContextExpansionPolicy, plan, expand}
use pyfix_agent.Context.Expansion.{initial as initial_context}
use pyfix_agent.Context.Expansion.Growth.{expand_all, level-expand_all, Covers, plan-expand-Covers}
use pyfix_agent.Review.Policy.{ReviewPolicy, decide}
use pyfix_agent.Review.Policy.Acceptance.{Accepts, IsAcceptable, decide-Accepts}
use pyfix_agent.Review.Policy.Revision.{known, decide_revise}
use pyfix_agent.Review.Feedback.{build_review_feedback}
use pyfix_agent.Review.Feedback.Ids.{Says, feedback_ids-decide}
use pyfix_agent.Trace.{failed_of, failure_delta, class_of_failure, iteration_result}
use pyfix_agent.Trace.Delta.{Breaks, SameFailures, class_of_failure_meaning}
use pyfix_agent.Trace.Classes.{IsTested, Exited, iteration_result_class}
use pyfix_agent.Tests.Samples.{check_failure, replacement_failure, outcome, cue}

run-IsSettled_example : IsSettled (run (initial patch) (check_failure ∷ check_failure ∷ []))
unfolding after_apply
run-IsSettled_example = run-IsSettled patch (check_failure ∷ check_failure ∷ []) (refl, (refl, tt))

after_apply_decision_example :
    let (d, p') = after_apply (initial patch) check_failure in
    (d.next_mode ≡ p'.mode)
    × (d.continue_repair ≡ true)
    × (¬ (p'.mode ≡ patch) → IsCheckFailure check_failure ⊎ IsReplacementFailure check_failure)
after_apply_decision_example = after_apply_decision (initial patch) check_failure

-- One failed replacement has been counted before.
abbrev counted : RetryPolicy
counted = record (initial patch) { consecutive_replacement_apply_failures = 1 }

stale_replacement_count_switches_example :
    ((after_apply (run counted (check_failure ∷ check_failure ∷ [])) replacement_failure).1.mode
      ≡ patch)
    × ((after_apply
          (run counted (check_failure ∷ check_failure ∷ []))
          replacement_failure).1.consecutive_patch_check_failures
        ≡ 0)
stale_replacement_count_switches_example =
    stale_replacement_count_switches counted (check_failure ∷ check_failure ∷ [])
      replacement_failure (omega arith) (refl, (refl, tt)) (refl, refl)

level-expand_all_example : (expand_all (initial_context (pos 2)) ("a" ∷ "b" ∷ "c" ∷ [])).level ≡ 2
level-expand_all_example = level-expand_all (pos 2) ("a" ∷ "b" ∷ "c" ∷ [])

abbrev first_level : ContextExpansionPolicy
first_level = record { max_level = 2; level = 1; last_reason = none }

plan-expand-Covers_example :
    Covers
      (plan (expand first_level "r") "traceback" (pos 20) (pos 3) true)
      (plan first_level "traceback" (pos 20) (pos 3) true)
plan-expand-Covers_example =
    plan-expand-Covers first_level "r" "traceback" (pos 20) (pos 3) true (omega arith)

abbrev review_policy : ReviewPolicy
review_policy = record { max_semantic_revisions = 1 }

decide-Accepts_example :
    Accepts (decide review_policy (some outcome) 0 none [] []) ↔ IsAcceptable (some outcome) [] []
decide-Accepts_example = decide-Accepts review_policy (some outcome) 0 none [] []

decide_revise_example :
    let d = decide review_policy (some outcome) 0 none [] [] in
    (0 < 1)
    × (nonempty d.blocking_risk_ids ≡ true)
    × (contains "R1" d.blocking_risk_ids ≡ true → known outcome [] "R1" ≡ true)
unfolding decide
decide_revise_example = decide_revise review_policy outcome 0 none [] [] "R1" refl

feedback_ids-decide_example :
    let d = decide review_policy (some outcome) 0 none [] ("C1" ∷ []) in
    let feedback = build_review_feedback outcome (pos 3000) d.blocking_risk_ids (cue ∷ []) in
    ((i : String) → contains i feedback.1 ≡ contains i d.blocking_risk_ids)
    × Says feedback (pos 3000)
unfolding decide
feedback_ids-decide_example =
    feedback_ids-decide review_policy outcome 0 none [] (pos 3000) (cue ∷ []) refl

abbrev failing : List String → Option PytestSummary
failing tests =
    some (record { total = none; passed = 0; failed = 0; skipped = 0; failed_tests = tests })

class_of_failure_meaning_example :
    let before = failed_of (failing ("a" ∷ "b" ∷ [])) in
    let after = failed_of (failing ("b" ∷ [])) in
    let c = class_of_failure (failure_delta (failing ("a" ∷ "b" ∷ [])) (failing ("b" ∷ []))) in
    ((c ≡ FailureType.regression) ↔ Breaks before after)
    × ((c ≡ FailureType.incomplete_fix) ↔ (¬ (Breaks before after) × Breaks after before))
    × ((c ≡ FailureType.no_progress) ↔ SameFailures before after)
class_of_failure_meaning_example =
    class_of_failure_meaning (failing ("a" ∷ "b" ∷ [])) (failing ("b" ∷ []))

abbrev no_delta : FailureDelta
no_delta = record { fixed = []; remaining = []; new = [] }

iteration_result_class_example :
    let t =
      (iteration_result false patch "diff" none true "" true ""
        (some (pos 124))
        no_delta).failure_type in
    ((t ≡ FailureType.success) ↔ (◌≡◌ {A = Bool} false true))
    × (IsTested t
        → (◌≡◌ {A = Bool} true true)
          × (truthy? none ≡ false)
          × (◌==◌ {A = String} "diff" "" ≡ false)
          × (patch ≡ patch → ◌≡◌ {A = Bool} true true)
          × Exited t (some (pos 124)))
iteration_result_class_example =
    iteration_result_class false patch "diff" none true "" true "" (some (pos 124)) no_delta
