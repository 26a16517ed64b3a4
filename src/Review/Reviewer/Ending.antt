-- ===== src/Review/Reviewer/Ending.antt =====
-- How a review of review/reviewer.py ends: what its execution says, and how often the model was
-- called.
use pyfix_agent.Base.{
  ℕ, zero, suc, ◌*◌, ◌+◌, ◌≤◌, String, ◌≡◌, ◌⊎◌, Bool, true, false, ◌||◌, not, Option, none, some,
  [], ◌∷◌, refl, arith, length, length-append,
}
use native.Mathlib.Nat.{suc-mul}
use pyfix_agent.Base.Int.{at_least}
use pyfix_agent.Base.Outcome.{
  Action, Outcome, returned, raised, Ensures, Ensures-seq, Ensures-any, Ensures-mono, pure, ◌>>=◌,
  ◌>>◌,
}
use pyfix_agent.Core.Contracts.{Metadata}
use pyfix_agent.Repair.ModelClient.{Generation, generated, generation_error}
use pyfix_agent.Review.Contracts.{ReviewRequest, ReviewExecution}
use pyfix_agent.Review.Reviewer.{
  Parsed, parsed, refused, Reviewer, new_execution, log_call, back_off, after_call, give_up,
  generate_with_retry, read_answer, conclude_attempt, after_answer, attempts, review,
}

abbrev given {ℓ} : {A : Type ℓ} → Option A → Bool
given none = false
given (some a) = true

abbrev pub calls : ReviewExecution → ℕ
calls x = length x.model_calls

-- Either there is an outcome and no error, or there is no outcome and there is an error.
abbrev pub IsConcluded : ReviewExecution → Type 0
IsConcluded x =
    ((given x.outcome ≡ true) × (given x.parse_error ≡ false) × (given x.model_error ≡ false))
    ⊎ ((given x.outcome ≡ false) × ((given x.parse_error || given x.model_error) ≡ true))

-- Before an attempt: there is no outcome, and the model has not failed for good.
abbrev IsOpen : ReviewExecution → Type 0
IsOpen x = (given x.outcome ≡ false) × (given x.model_error ≡ false)

-- After calls of the model, at most n: it answered, or it failed for good.
record Called (n : ℕ) (x : ReviewExecution) (o : Option String) (y : ReviewExecution) : Type 0 where
  outcome : y.outcome ≡ x.outcome
  failed : given y.model_error ≡ not (given o)
  some_ : suc (calls x) ≤ calls y
  bounded : calls y ≤ calls x + n

calls-log_call : (m : Metadata) (x : ReviewExecution) → calls (log_call m x) ≡ suc (calls x)
calls-log_call m x = omega (arith, length-append x.model_calls (m ∷ []))

module _ (V : Reviewer) where
  abbrev CalledWithin :
      ℕ → ReviewExecution → Outcome (Option String × ReviewExecution) × V.World → Type 0
  CalledWithin n x = Ensures (λ r _. Called n x r.0 r.1) (λ _. Unit {0})

  given_up :
      (x : ReviewExecution) (g : Generation) (w : V.World)
      → IsOpen x
      → CalledWithin 1 x (after_call V (give_up V) x g w)
  given_up x (generated raw m) w h = ground (arith, calls-log_call m x)
  given_up x (generation_error e m) w h = ground (arith, calls-log_call m x)

  Called-log_call :
      (n : ℕ) (m : Metadata) (x : ReviewExecution) (o : Option String) (y : ReviewExecution)
      → Called n (log_call m x) o y
      → Called (suc n) x o y
  Called-log_call n m x o y h = ground (arith, calls-log_call m x)

  generate_with_retry-Called :
      (left attempt : ℕ) (prompt : String) (x : ReviewExecution) (w : V.World)
      → IsOpen x
      → CalledWithin (suc left) x (generate_with_retry V left attempt prompt x w)
  unfolding generate_with_retry
  generate_with_retry-Called zero attempt prompt x w h =
      Ensures-seq (λ _ _. Unit {0}) (λ _. Unit {0}) (λ r _. Called 1 x r.0 r.1) (λ _. Unit {0})
        (V.generate prompt w) (after_call V (give_up V) x) (Ensures-any (V.generate prompt w))
        (λ _ u. tt) (λ g t u. given_up x g t h)
  generate_with_retry-Called (suc left) attempt prompt x w h =
      let next = generate_with_retry-Called left (suc attempt) prompt in
      Ensures-seq (λ _ _. Unit {0}) (λ _. Unit {0}) (λ r _. Called (suc (suc left)) x r.0 r.1)
        (λ _. Unit {0}) (V.generate prompt w) _ (Ensures-any (V.generate prompt w)) (λ _ u. tt)
        (λ g t u. retried g t next)
    where
      retried :
          (g : Generation) (t : V.World)
          → ((y : ReviewExecution) (v : V.World)
              → IsOpen y
              → CalledWithin (suc left) y (generate_with_retry V left (suc attempt) prompt y v))
          → CalledWithin (suc (suc left)) x (
              after_call V
                (λ m y. back_off V attempt >> generate_with_retry V left (suc attempt) prompt y)
                x
                g
                t)
      retried (generated raw m) t next = ground (arith, calls-log_call m x)
      retried (generation_error e m) t next =
          Ensures-seq (λ _ _. Unit {0}) (λ _. Unit {0}) (λ r _. Called (suc (suc left)) x r.0 r.1)
            (λ _. Unit {0}) (back_off V attempt t) _ (Ensures-any (back_off V attempt t))
            (λ _ u. tt)
            (λ _ v u.
              Ensures-mono (λ r _. Called (suc left) (log_call m x) r.0 r.1) (λ _. Unit {0})
                (λ r _. Called (suc (suc left)) x r.0 r.1) (λ _. Unit {0})
                (generate_with_retry V left (suc attempt) prompt (log_call m x) v)
                (next (log_call m x) v h) (λ r _ c. Called-log_call (suc left) m x r.0 r.1 c)
                (λ _ u. tt))

  -- A review that starts at x and may call the model n times.
  abbrev pub EndsWithin : ℕ → ReviewExecution → Outcome ReviewExecution × V.World → Type 0
  EndsWithin n x =
      Ensures (λ y _. IsConcluded y × (calls x ≤ calls y) × (calls y ≤ calls x + n)) (λ _. Unit {0})

  -- The next attempt after a refused answer, or the end if there is none.
  abbrev Continues : ℕ → (String → ReviewExecution → Action V.World ReviewExecution) → Type 0
  Continues n retry =
      (m : String) (y : ReviewExecution) (w : V.World)
      → IsOpen y
      → given y.parse_error ≡ true
      → EndsWithin n y (retry m y w)

  conclude_attempt-EndsWithin :
      (n : ℕ) (answer : Parsed) (x : ReviewExecution)
      (retry : String → ReviewExecution → Action V.World ReviewExecution) (w : V.World)
      → IsOpen x
      → Continues n retry
      → EndsWithin n x (conclude_attempt V answer x retry w)
  conclude_attempt-EndsWithin n (parsed o) x retry w h k = ground arith
  conclude_attempt-EndsWithin n (refused m) x retry w h k =
      k m (record x { parse_error = some m }) w h refl

  after_answer-EndsWithin :
      (n m : ℕ) (workspace : String) (x : ReviewExecution)
      (retry : String → ReviewExecution → Action V.World ReviewExecution) (o : Option String)
      (y : ReviewExecution) (w : V.World)
      → IsOpen x
      → Called m x o y
      → Continues n retry
      → Ensures
          (λ z _. IsConcluded z × (suc (calls x) ≤ calls z) × (calls z ≤ calls x + (m + n)))
          (λ _. Unit {0})
          (after_answer V workspace retry (o, y) w)
  after_answer-EndsWithin n m workspace x retry none y w h c k = ground arith
  after_answer-EndsWithin n m workspace x retry (some raw) y w h c k =
      let y' : ReviewExecution = record y { raw_output = raw } in
      Ensures-seq (λ _ _. Unit {0}) (λ _. Unit {0})
        (λ z _. IsConcluded z × (suc (calls x) ≤ calls z) × (calls z ≤ calls x + (m + n)))
        (λ _. Unit {0}) (read_answer V workspace raw w) _
        (Ensures-any (read_answer V workspace raw w)) (λ _ u. tt)
        (λ answer t u.
          Ensures-mono (λ z _. IsConcluded z × (calls y' ≤ calls z) × (calls z ≤ calls y' + n))
            (λ _. Unit {0})
            (λ z _. IsConcluded z × (suc (calls x) ≤ calls z) × (calls z ≤ calls x + (m + n)))
            (λ _. Unit {0}) (conclude_attempt V answer y' retry t)
            (conclude_attempt-EndsWithin n answer y' retry t (ground arith) k)
            (λ z _ e. (e.0, omega (arith, c.some_, e.1), omega (arith, c.bounded, e.2)))
            (λ _ u. tt))

  -- The calls that one attempt may make.
  abbrev pub per_attempt : ℕ
  per_attempt = suc (at_least 0 V.max_model_retries)

  -- One attempt, and what may follow it.
  attempt-EndsWithin :
      (n : ℕ) (workspace prompt : String)
      (retry : String → ReviewExecution → Action V.World ReviewExecution) (x : ReviewExecution)
      (w : V.World)
      → IsOpen x
      → Continues n retry
      → Ensures
          (λ z _.
            IsConcluded z × (suc (calls x) ≤ calls z) × (calls z ≤ calls x + (per_attempt + n)))
          (λ _. Unit {0})
          ((generate_with_retry V (at_least 0 V.max_model_retries) 0 prompt x
              >>= after_answer V workspace retry)
            w)
  attempt-EndsWithin n workspace prompt retry x w h k =
      Ensures-seq (λ r _. Called per_attempt x r.0 r.1) (λ _. Unit {0})
        (λ z _. IsConcluded z × (suc (calls x) ≤ calls z) × (calls z ≤ calls x + (per_attempt + n)))
        (λ _. Unit {0}) (generate_with_retry V (at_least 0 V.max_model_retries) 0 prompt x w)
        (after_answer V workspace retry)
        (generate_with_retry-Called (at_least 0 V.max_model_retries) 0 prompt x w h) (λ _ u. tt)
        (λ r t c. after_answer-EndsWithin n per_attempt workspace x retry r.0 r.1 t h c k)

  -- As `EndsWithin`, with one call at least.
  abbrev pub Asks : ℕ → ReviewExecution → Outcome ReviewExecution × V.World → Type 0
  Asks n x =
      Ensures (λ z _. IsConcluded z × (suc (calls x) ≤ calls z) × (calls z ≤ calls x + n))
        (λ _. Unit {0})

  Asks-weaken :
      (m n : ℕ) (x : ReviewExecution) (r : Outcome ReviewExecution × V.World)
      → m ≤ n
      → Asks m x r
      → Asks n x r
  Asks-weaken m n x (returned y, w) le h = (h.0, h.1, omega (arith, h.2))
  Asks-weaken m n x (raised e, w) le h = tt

  Asks-EndsWithin :
      (n : ℕ) (x : ReviewExecution) (r : Outcome ReviewExecution × V.World)
      → Asks n x r
      → EndsWithin n x r
  Asks-EndsWithin n x (returned y, w) h = (h.0, omega (arith, h.1), h.2)
  Asks-EndsWithin n x (raised e, w) h = tt

  attempts-Asks :
      (left : ℕ) (workspace base_prompt prompt : String) (x : ReviewExecution) (w : V.World)
      → IsOpen x
      → Asks (suc left * per_attempt) x (attempts V left workspace base_prompt prompt x w)
  unfolding attempts
  attempts-Asks zero workspace base_prompt prompt x w h =
      let retry : String → ReviewExecution → Action V.World ReviewExecution = λ m y. pure y in
      Asks-weaken (per_attempt + 0) (1 * per_attempt) x
        ((generate_with_retry V (at_least 0 V.max_model_retries) 0 prompt x
            >>= after_answer V workspace retry)
          w)
        (omega (arith, suc-mul 0 per_attempt))
        (attempt-EndsWithin 0 workspace prompt retry x w h (λ m y v o e. ground arith))
  attempts-Asks (suc left) workspace base_prompt prompt x w h =
      let next = attempts-Asks left workspace base_prompt in
      let retry : String → ReviewExecution → Action V.World ReviewExecution =
        λ m y. attempts V left workspace base_prompt (V.build_parse_retry_prompt base_prompt m) y in
      Asks-weaken (per_attempt + suc left * per_attempt) (suc (suc left) * per_attempt) x
        ((generate_with_retry V (at_least 0 V.max_model_retries) 0 prompt x
            >>= after_answer V workspace retry)
          w)
        (omega (arith, suc-mul (suc left) per_attempt))
        (attempt-EndsWithin (suc left * per_attempt) workspace prompt retry x w h (λ m y v o e.
          Asks-EndsWithin (suc left * per_attempt) y (retry m y v)
            (next (V.build_parse_retry_prompt base_prompt m) y v o)))

  Asks-new :
      (n : ℕ) (x : ReviewExecution) (r : Outcome ReviewExecution × V.World)
      → calls x ≡ 0
      → Asks n x r
      → Ensures (λ z _. IsConcluded z × (1 ≤ calls z) × (calls z ≤ n)) (λ _. Unit {0}) r
  Asks-new n x (returned y, w) o h = (h.0, omega (arith, h.1), omega (arith, h.2))
  Asks-new n x (raised e, w) o h = tt

  -- A review that does not raise fails closed: either it has an outcome and no error, or it has no
  -- outcome and an error of the parser or the model. It called the model at least once, and at most
  -- (max_parse_retries + 1) * (max_model_retries + 1) times, negative settings counting as 0.
  pub review-IsConcluded :
      (request : ReviewRequest) (workspace : String) (w : V.World)
      → Ensures
          (λ x _.
            IsConcluded x
            × (1 ≤ calls x)
            × (calls x
                ≤ suc (at_least 0 V.max_parse_retries) * suc (at_least 0 V.max_model_retries)))
          (λ _. Unit {0})
          (review V request workspace w)
  unfolding review
  review-IsConcluded request workspace w =
      let prompt = V.build_review_prompt request in
      let began = new_execution prompt request.context.metadata in
      let left = at_least 0 V.max_parse_retries in
      Asks-new (suc left * per_attempt) began (attempts V left workspace prompt prompt began w) refl
        (attempts-Asks left workspace prompt prompt began w (refl, refl))
