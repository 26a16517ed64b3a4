-- ===== src/Tests/Reviews.antt =====
-- A review whose model fails once, whose first answer is refused, and whose second one is read.
use pyfix_agent.Base.{◌≤◌, List, [], ◌∷◌, if◌then◌else◌, ◌==◌, string_eq}
use pyfix_agent.Base.Int.{pos}
use pyfix_agent.Base.Outcome.{Outcome, returned, Ensures}
use pyfix_agent.Repair.ModelClient.{Generation, generated, generation_error}
use pyfix_agent.Review.Contracts.{ReviewRequest}
use pyfix_agent.Review.Reviewer.{Reviewer, parsed, refused, review}
use pyfix_agent.Review.Reviewer.Ending.{IsConcluded, calls, review-IsConcluded}
use pyfix_agent.Tests.Samples.{outcome}

-- The answers that the model has left.
abbrev next_answer : List Generation → Outcome Generation × List Generation
next_answer [] = (returned (generation_error "no answer" []), [])
next_answer (g ∷ gs) = (returned g, gs)

abbrev reader : Reviewer
reader = record {
  World = List Generation;
  generate = λ prompt w. next_answer w;
  sleep = λ n w. (returned tt, w);
  parse = λ raw w. (returned (if raw == "{}" then refused "no verdict" else parsed outcome), w);
  validate_review_evidence = λ path o w. (returned [], w);
  build_review_prompt = λ request. request.task;
  build_parse_retry_prompt = λ base m. m;
  max_parse_retries = pos 1;
  max_model_retries = pos 2;
  model_retry_backoff = 1;
}

abbrev review_request : ReviewRequest
review_request = record {
  task = "repair";
  candidate_diff = "diff";
  visible_test_output = "1 passed";
  context = record { rendered = ""; metadata = []; structural_risk_cues = [] };
  review_index = 1;
}

abbrev answers : List Generation
answers = generation_error "busy" [] ∷ generated "{}" [] ∷ generated "{ }" [] ∷ []

review-IsConcluded_example :
    Ensures
      (λ x _. IsConcluded x × (1 ≤ calls x) × (calls x ≤ 6))
      (λ _. Unit {0})
      (review reader review_request "/w" answers)
review-IsConcluded_example = review-IsConcluded reader review_request "/w" answers
