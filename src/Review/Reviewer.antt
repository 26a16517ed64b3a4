-- ===== src/Review/Reviewer.antt =====
-- review/reviewer.py: `SemanticReviewer`, which calls the reviewer's model, with a retry of a failed
-- call, and asks again where an answer is refused. The execution that it fills in is passed along.
pub mod Ending
use pyfix_agent.Base.{
  ℕ, zero, suc, ◌*◌, ◌+◌, String, Bool, Option, none, some, List, [], ◌∷◌, ◌++◌, nonempty, join,
  leb,
}
use pyfix_agent.Base.Int.{ℤ, at_least}
use pyfix_agent.Base.Outcome.{Action, pure, branch, ◌>>=◌, ◌>>◌}
use pyfix_agent.Core.Contracts.{Metadata}
use pyfix_agent.Repair.ModelClient.{Generation, generated, generation_error}
use pyfix_agent.Review.Contracts.{ReviewOutcome, ReviewRequest, ReviewExecution}

-- What `ReviewParser.parse` does: it returns an outcome or raises `ReviewParseError`.
pub data Parsed : Type 0 where
  parsed : ReviewOutcome → Parsed
  refused : String → Parsed

-- The reviewer's collaborators and settings. The backoff is in the unit of `sleep`.
pub record Reviewer : Type 1 where
  pub World : Type 0
  pub generate : String → Action World Generation
  pub sleep : ℕ → Action World (Unit {0})
  pub parse : String → Action World Parsed
  pub validate_review_evidence : String → ReviewOutcome → Action World (List String)
  pub build_review_prompt : ReviewRequest → String
  pub build_parse_retry_prompt : String → String → String
  pub max_parse_retries : ℤ
  pub max_model_retries : ℤ
  pub model_retry_backoff : ℕ

-- `ReviewExecution(prompt=…, context=…)`
abbrev pub new_execution : String → Metadata → ReviewExecution
new_execution prompt context = record {
  prompt = prompt;
  raw_output = "";
  outcome = none;
  parse_error = none;
  model_error = none;
  model_calls = [];
  context = context;
}

abbrev pub log_call : Metadata → ReviewExecution → ReviewExecution
log_call metadata x = record x { model_calls = x.model_calls ++ metadata ∷ [] }

module _ (V : Reviewer) where
  -- The wait before the next call.
  abbrev pub back_off : ℕ → Action V.World (Unit {0})
  back_off attempt =
      branch (leb 1 V.model_retry_backoff) (V.sleep (V.model_retry_backoff * (attempt + 1)))
        (pure tt)

  -- What follows a call: its metadata is kept, and an error goes to `on_error`.
  abbrev pub after_call :
      (String → ReviewExecution → Action V.World (Option String × ReviewExecution))
      → ReviewExecution
      → Generation
      → Action V.World (Option String × ReviewExecution)
  after_call on_error x (generated raw metadata) = pure (some raw, log_call metadata x)
  after_call on_error x (generation_error m metadata) = on_error m (log_call metadata x)

  abbrev pub give_up : String → ReviewExecution → Action V.World (Option String × ReviewExecution)
  give_up m x = pure (none, record x { model_error = some m })

  -- `_generate_with_retry`, on the retries that are left.
  unfoldable pub generate_with_retry :
      ℕ → ℕ → String → ReviewExecution → Action V.World (Option String × ReviewExecution)
  generate_with_retry zero attempt prompt x = V.generate prompt >>= after_call give_up x
  generate_with_retry (suc left) attempt prompt x =
      let again = generate_with_retry left (suc attempt) prompt in
      V.generate prompt >>= after_call (λ m y. back_off attempt >> again y) x

  -- The body of the `try` in `review`: the outcome, or why the answer is refused.
  unfoldable pub read_answer : String → String → Action V.World Parsed
  read_answer workspace raw = V.parse raw >>= λ answer. elim answer [
    | refused m ↦ pure (refused m)
    | parsed outcome ↦ V.validate_review_evidence workspace outcome >>= λ errors.
        branch (nonempty errors) (pure (refused (join "; " errors))) (pure (parsed outcome))
  ]

  abbrev pub settle : ReviewExecution → ReviewOutcome → ReviewExecution
  settle x outcome = record x { outcome = some outcome; parse_error = none }

  -- What follows an answer that was read, if one came; `retry` is the next attempt.
  abbrev pub conclude_attempt :
      Parsed
      → ReviewExecution
      → (String → ReviewExecution → Action V.World ReviewExecution)
      → Action V.World ReviewExecution
  conclude_attempt (parsed outcome) x retry = pure (settle x outcome)
  conclude_attempt (refused m) x retry = retry m (record x { parse_error = some m })

  abbrev pub after_answer :
      String
      → (String → ReviewExecution → Action V.World ReviewExecution)
      → Option String × ReviewExecution
      → Action V.World ReviewExecution
  after_answer workspace retry (none, x) = pure x
  after_answer workspace retry (some raw, x) = read_answer workspace raw >>= λ answer.
      conclude_attempt answer (record x { raw_output = raw }) retry

  -- The loop of `review`, on the parse retries that are left.
  unfoldable pub attempts :
      ℕ → String → String → String → ReviewExecution → Action V.World ReviewExecution
  attempts zero workspace base_prompt prompt x =
      generate_with_retry (at_least 0 V.max_model_retries) 0 prompt x
      >>= after_answer workspace (λ m y. pure y)
  attempts (suc left) workspace base_prompt prompt x =
      let again = attempts left workspace base_prompt in
      generate_with_retry (at_least 0 V.max_model_retries) 0 prompt x
      >>= after_answer workspace (λ m y. again (V.build_parse_retry_prompt base_prompt m) y)

  unfoldable pub review : ReviewRequest → String → Action V.World ReviewExecution
  review request workspace =
      let base_prompt = V.build_review_prompt request in
      attempts (at_least 0 V.max_parse_retries) workspace base_prompt base_prompt
        (new_execution base_prompt request.context.metadata)
