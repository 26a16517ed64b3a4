-- ===== src/Engine/Run/Whole.antt =====
-- A whole call of `run` in core/engine.py, as its result reports it.
use pyfix_agent.Base.{ℕ, ◌≤◌, ◌≡◌, refl, sym, ◌∙◌, true, none, arith}
use pyfix_agent.Base.Outcome.{Ensures, Ensures-seq, Ensures-any, Outcome, returned, raised}
use pyfix_agent.Core.Contracts.{RepairRequest}
use pyfix_agent.Context.Expansion.{ContextExpansionPolicy}
use pyfix_agent.Repair.RetryPolicy.{RetryPolicy}
use pyfix_agent.Engine.State.{AgentState, Engine, AgentResult, new_state}
use pyfix_agent.Engine.Services.{Services}
use pyfix_agent.Engine.Invariant.{Justified, Counts}
use pyfix_agent.Engine.Run.Final.{Final, IsNew, attempt-Final, after_attempt-Final}
use pyfix_agent.Engine.Run.{
  attempt, after_attempt, to_result, close_workspace, conclude, start, run,
}

module _ (S : Services) (request : RepairRequest) where
  -- What a result may claim: its iterations are numbered from 1 and no more than the request
  -- allows, its reviews and revisions are bounded, and a success is justified.
  pub record IsSound (r : AgentResult) : Type 0 where
    pub count : ℕ
    pub counted : Counts S count r.iterations r.reviews r.semantic_revisions_used
    pub bounded : count ≤ request.max_iterations
    pub justified :
        r.success ≡ true
        → (r.visible_success ≡ true)
          × (r.error ≡ none)
          × Justified S r.test_output_before r.iterations r.reviews r.acceptance_status

  -- The result is read from the state as it is.
  record Reports (s : AgentState) (r : AgentResult) : Type 0 where
    before : r.test_output_before ≡ s.test_output_before
    iterations : r.iterations ≡ s.iterations
    reviews : r.reviews ≡ s.reviews
    revisions : r.semantic_revisions_used ≡ s.semantic_revisions_used
    success : r.success ≡ s.success
    visible : r.visible_success ≡ s.visible_success
    error : r.error ≡ s.error
    status : r.acceptance_status ≡ s.acceptance_status

  to_result-Reports :
      (e : Engine S.World) → Ensures (λ r t. Reports e.state r) (λ t. Unit {0}) (to_result S e)
  unfolding to_result
  to_result-Reports e = ground arith

  reported-IsSound :
      (s : AgentState) (r : AgentResult) → Final S request s → Reports s r → IsSound r
  reported-IsSound s r f p = record {
    count = f.count;
    counted = ground arith;
    bounded = f.bounded;
    justified = λ won.
        let j = f.justified (sym p.success ∙ won) in
        (
          p.visible ∙ j.0,
          p.error ∙ j.1,
          rw p.before (rw p.iterations (rw p.reviews (rw p.status (j.2)))),
        );
  }

  conclude-IsSound :
      (pending : Outcome (Unit {0})) (e : Engine S.World)
      → Ensures (λ _ t. Final S request t.state) (λ t. Unit {0}) (pending, e)
      → Ensures (λ r t. IsSound r) (λ t. Unit {0}) (conclude S pending e)
  unfolding conclude
  conclude-IsSound (returned done) e f =
      Ensures-seq (λ r t. Reports e.state r) (λ t. Unit {0}) (λ r t. IsSound r) (λ t. Unit {0})
        (to_result S e) _ (to_result-Reports e) (λ t u. tt)
        (λ r t p.
          Ensures-seq (λ _ u. Unit {0}) (λ u. Unit {0}) (λ r t. IsSound r) (λ t. Unit {0})
            (close_workspace S t) _ (Ensures-any (close_workspace S t)) (λ u v. tt)
            (λ _ u v. reported-IsSound e.state r f p))
  conclude-IsSound (raised x) e f =
      Ensures-seq (λ r t. Unit {0}) (λ t. Unit {0}) (λ r t. IsSound r) (λ t. Unit {0})
        (to_result S e) _ (Ensures-any (to_result S e)) (λ t u. tt)
        (λ r t p.
          Ensures-seq (λ _ u. Unit {0}) (λ u. Unit {0}) (λ r t. IsSound r) (λ t. Unit {0})
            (close_workspace S t) _ (Ensures-any (close_workspace S t)) (λ u v. tt) (λ _ u v. tt))

  new_state-IsNew : IsNew S request (new_state request)
  new_state-IsNew = record {
    success = refl;
    error = refl;
    iterations = refl;
    reviews = refl;
    revisions = refl;
  }

  -- Whatever the collaborators do, a result that `run` returns is sound: its records are numbered
  -- 1, 2, … and no more than the request's iterations, no review or revision exceeds its bound, and
  -- a success has no error, passed its visible tests, and is justified by a run of the tests, in some
  -- workspace, that exited with 0 and had no failure of the infrastructure: it is the one before any
  -- edit, whose output the result has; or its exit code and output are those of the last iteration,
  -- which is a success, and, where reviews are on, the last review accepted.
  pub run-IsSound :
      (retry_policy : RetryPolicy) (context_policy : ContextExpansionPolicy) (w : S.World)
      (r : AgentResult) (e : Engine S.World)
      → run S request (start S request retry_policy context_policy w) ≡ (returned r, e)
      → IsSound r
  unfolding run
  run-IsSound retry_policy context_policy w r e h =
      let began = start S request retry_policy context_policy w in
      let tried = attempt S request began in
      let caught = after_attempt S tried.0 tried.1 in
      let sound : Ensures (λ r t. IsSound r) (λ t. Unit {0}) (run S request began) =
        conclude-IsSound caught.0 caught.1 (
          after_attempt-Final S request tried.0 tried.1
            (attempt-Final S request began new_state-IsNew)) in
      rw h at sound
