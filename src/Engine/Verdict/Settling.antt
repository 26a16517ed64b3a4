-- ===== src/Engine/Verdict/Settling.antt =====
-- How an iteration of core/engine.py ends: with a verdict that its records justify, or open for
-- another iteration.
use pyfix_agent.Base.{
  ℕ, suc, ◌+◌, ◌≤◌, ◌<◌, ◌≡◌, ◌⊎◌, Bool, true, false, String, Option, none, some, List, arith,
  length, length-append, ap, ◌∙◌, inl, inr, refl,
}
use pyfix_agent.Base.Outcome.{Ensures, Ensures-seq, Ensures-mono, Ensures-branch, pure, ◌>>=◌, ◌>>◌}
use pyfix_agent.Core.Contracts.{RepairRequest}
use pyfix_agent.Core.Schemas.{IterationRecord, AcceptanceStatus}
use pyfix_agent.Execution.Contracts.{TestExecution}
use pyfix_agent.Review.Contracts.{ReviewAction, ReviewDecision, ReviewExecution, StructuralCue}
use pyfix_agent.Engine.State.{AgentState, IterationPlan, Engine}
use pyfix_agent.Engine.Services.{Services}
use pyfix_agent.Engine.Invariant.{
  numbers, up_to, last?-append, passed_last, PassedLast, last_action, unreviewed, reviewed, warned,
  IsCounted, Settled,
}
use pyfix_agent.Engine.Attempt.Progress.{Agree, Recorded, Unrecorded}
use pyfix_agent.Engine.Verdict.Progress.{
  Checkpointed, Tested, checkpoint_visible_candidate-Recorded, run_semantic_review-within,
  retry_after_test_failure-Recorded,
}
use pyfix_agent.Engine.SemanticReview.{run_semantic_review, record_review, apply_review_decision}
use pyfix_agent.Engine.Verdict.{
  checkpoint_visible_candidate, disable_review, handle_visible_success, retry_after_test_failure,
  accept_or_retry,
}

module _ (S : Services) where
  -- A review that is recorded and acted on: the run ends, and a success is that of the recorded
  -- decision; or it goes on, and the decision was to revise.
  abbrev Acted : ReviewDecision → AgentState → Bool → AgentState → Type 0
  Acted d s true t =
      t.success ≡ true
      → (t.visible_success ≡ s.visible_success)
        × (t.error ≡ none)
        × (((last_action t.reviews ≡ some ReviewAction.accept)
              × (t.acceptance_status ≡ AcceptanceStatus.accepted))
            ⊎ ((last_action t.reviews ≡ some ReviewAction.accept_with_warnings)
                × (t.acceptance_status ≡ AcceptanceStatus.accepted_with_warnings)))
  Acted d s false t = (t.success ≡ false) × (d.action ≡ ReviewAction.revise)

  -- What `Acted` says, and how the counts move: one more review, and at most one revision more.
  abbrev ActedOn : ReviewDecision → AgentState → Bool → AgentState → Type 0
  ActedOn d s b t =
      Acted d s b t
      × (t.iterations ≡ s.iterations)
      × (length t.reviews ≡ length s.reviews + 1)
      × (t.semantic_revisions_used ≤ s.semantic_revisions_used + (elim b [ true ↦ 0 | false ↦ 1 ]))

  record_review-ActedOn :
      (v : ReviewExecution × List StructuralCue × ReviewDecision) (p : IterationPlan)
      (checkpoint : Option String) (after : TestExecution) (e : Engine S.World)
      → Ensures
          (λ b e'. ActedOn v.2 e.state b e'.state)
          (λ e'. ⊥)
          ((record_review S v.0 v.2 p checkpoint >> apply_review_decision S after v.0 v.1 v.2) e)
  unfolding record_review apply_review_decision
  record_review-ActedOn v p checkpoint after e = grind (arith, last?-append, length-append)

  -- After a raise, the iteration may have been recorded or not.
  abbrev pub Interrupted : ℕ → AgentState → Type 0
  Interrupted n s = IsCounted S n s ⊎ IsCounted S (suc n) s

  -- The state in which the review of iteration n begins.
  record IsCandidate (n : ℕ) (s : AgentState) : Type 0 where
    numbered : numbers s.iterations ≡ up_to (suc n)
    reviews_bounded : length s.reviews ≤ n
    revisions_reviewed : s.semantic_revisions_used ≤ length s.reviews
    revisions_bounded : s.semantic_revisions_used ≤ S.review_policy.max_semantic_revisions
    passed : passed_last s.iterations ≡ some true
    visible : s.visible_success ≡ true
    error : s.error ≡ none

  Candidate-IsCounted : (n : ℕ) (s : AgentState) → IsCandidate n s → IsCounted S (suc n) s
  Candidate-IsCounted n s h = ground arith

  acted-Settled :
      (d : ReviewDecision) (n : ℕ) (b : Bool) (s t : AgentState)
      → S.semantic_review_enabled ≡ true
      → IsCandidate n s
      → PassedLast S s.iterations
      → (d.action ≡ ReviewAction.revise
          → s.semantic_revisions_used < S.review_policy.max_semantic_revisions)
      → ActedOn d s b t
      → Settled S (suc n) b t
  acted-Settled d n true s t on c tested within a =
      let passed : PassedLast S t.iterations = rw a.1 tested in
      (
        ground arith,
        λ won.
            let verdict = a.0 won in
            (
              verdict.0 ∙ c.visible,
              verdict.1,
              elim verdict.2 [
                | inl accepted ↦ reviewed on passed accepted
                | inr accepted ↦ warned on passed accepted
              ],
            ),
      )
  acted-Settled d n false s t on c tested within a = ground arith

  record_review-Settled :
      (v : ReviewExecution × List StructuralCue × ReviewDecision) (p : IterationPlan)
      (checkpoint : Option String) (after : TestExecution) (n : ℕ) (e : Engine S.World)
      → S.semantic_review_enabled ≡ true
      → IsCandidate n e.state
      → PassedLast S e.state.iterations
      → (v.2.action ≡ ReviewAction.revise
          → e.state.semantic_revisions_used < S.review_policy.max_semantic_revisions)
      → Ensures
          (λ b e'. Settled S (suc n) b e'.state)
          (λ e'. Interrupted n e'.state)
          ((record_review S v.0 v.2 p checkpoint >> apply_review_decision S after v.0 v.1 v.2) e)
  record_review-Settled v p checkpoint after n e on c tested within =
      Ensures-mono (λ b e'. ActedOn v.2 e.state b e'.state) (λ e'. ⊥)
        (λ b e'. Settled S (suc n) b e'.state) (λ e'. Interrupted n e'.state) _
        (record_review-ActedOn v p checkpoint after e)
        (λ b e' a. acted-Settled v.2 n b e.state e'.state on c tested within a) (λ e' h. absurd h)

  -- From the checkpoint on: the review, its record and what the decision does.
  review_candidate-Settled :
      (request : RepairRequest) (p : IterationPlan) (after : TestExecution)
      (checkpoint : Option String) (n : ℕ) (e : Engine S.World)
      → S.semantic_review_enabled ≡ true
      → IsCandidate n e.state
      → PassedLast S e.state.iterations
      → Ensures
          (λ b e'. Settled S (suc n) b e'.state)
          (λ e'. Interrupted n e'.state)
          ((run_semantic_review S request p after >>= λ v.
              record_review S v.0 v.2 p checkpoint >> apply_review_decision S after v.0 v.1 v.2)
            e)
  review_candidate-Settled request p after checkpoint n e on c tested =
      Ensures-seq
        (λ v e'.
          (e'.state ≡ e.state)
          × (v.2.action ≡ ReviewAction.revise
              → (e.state.semantic_revisions_used < S.review_policy.max_semantic_revisions)
                × (p.iteration < request.max_iterations)))
        (λ e'. e'.state ≡ e.state) (λ b e'. Settled S (suc n) b e'.state)
        (λ e'. Interrupted n e'.state) (run_semantic_review S request p after e) _
        (run_semantic_review-within S request p after e)
        (λ e' same. inr (rw same (Candidate-IsCounted n e.state c)))
        λ v e' h.
          record_review-Settled v p checkpoint after n e' on (rw h.0 c) (rw h.0 tested)
            (λ r. rw h.0 ((h.1 r).0))

  -- The state after the checkpoint of a candidate of iteration n + 1.
  checkpoint-IsCandidate :
      (n : ℕ) (s t : AgentState) (r : IterationRecord)
      → IsCounted S n s
      → r.iteration ≡ suc n
      → r.success ≡ true
      → s.error ≡ none
      → Checkpointed r s t
      → IsCandidate n t
  checkpoint-IsCandidate n s t r c i w k h = ground arith

  checkpoint-PassedLast :
      (s t : AgentState) (r : IterationRecord) (after : TestExecution)
      → Checkpointed r s t
      → r.success ≡ true
      → Tested S (some (r, after))
      → PassedLast S t.iterations
  checkpoint-PassedLast s t r after h w tested = record {
    after = after;
    passed = tested.0 w;
    success = h.passed ∙ ap some w;
    exit = h.exit ∙ ap some tested.1;
    output = h.output ∙ ap some tested.2;
  }

  disabled-IsCounted :
      (n : ℕ) (s : AgentState)
      → IsCandidate n s
      → IsCounted S (suc n) (record s { acceptance_status = AcceptanceStatus.disabled })
  disabled-IsCounted n s d = ground arith

  handle_visible_success-Settled :
      (request : RepairRequest) (p : IterationPlan) (r : IterationRecord) (after : TestExecution)
      (n : ℕ) (e : Engine S.World)
      → IsCounted S n e.state
      → r.iteration ≡ suc n
      → r.success ≡ true
      → e.state.error ≡ none
      → Tested S (some (r, after))
      → Ensures
          (λ b e'. Settled S (suc n) b e'.state)
          (λ e'. Interrupted n e'.state)
          (handle_visible_success S request p r after e)
  unfolding handle_visible_success
  handle_visible_success-Settled request p r after n e c i w k tested =
      Ensures-seq (λ _ e'. Checkpointed r e.state e'.state) (λ e'. Unrecorded e.state e'.state)
        (λ b e'. Settled S (suc n) b e'.state) (λ e'. Interrupted n e'.state)
        (checkpoint_visible_candidate S p r e) _ (checkpoint_visible_candidate-Recorded S p r e)
        (λ e' h. inl (ground arith))
        λ checkpoint e' h.
          let d : IsCandidate n e'.state = checkpoint-IsCandidate n e.state e'.state r c i w k h in
          let passed = checkpoint-PassedLast e.state e'.state r after h w tested in
          Ensures-branch (λ b t. Settled S (suc n) b t.state) (λ t. Interrupted n t.state)
            S.semantic_review_enabled
            (run_semantic_review S request p after >>= λ v.
              record_review S v.0 v.2 p checkpoint >> apply_review_decision S after v.0 v.1 v.2)
            (disable_review S) e'
            (λ on. review_candidate-Settled request p after checkpoint n e' on d passed)
            (λ off. (
              disabled-IsCounted n e'.state d,
              λ _. (d.visible, d.error, unreviewed off passed refl),
            ))

  -- After a verified edit: a success is reviewed, and any other outcome leaves the run open.
  pub accept_or_retry-Settled :
      (request : RepairRequest) (p : IterationPlan) (r : IterationRecord) (after : TestExecution)
      (n : ℕ) (e : Engine S.World)
      → IsCounted S n e.state
      → r.iteration ≡ suc n
      → r.success ≡ e.state.success
      → (e.state.success ≡ true → e.state.error ≡ none)
      → Tested S (some (r, after))
      → Ensures
          (λ b e'. Settled S (suc n) b e'.state)
          (λ e'. Interrupted n e'.state)
          (accept_or_retry S request p r after e)
  unfolding accept_or_retry
  accept_or_retry-Settled request p r after n e c i v k tested =
      Ensures-branch (λ b t. Settled S (suc n) b t.state) (λ t. Interrupted n t.state)
        e.state.success (handle_visible_success S request p r after)
        (retry_after_test_failure S p r after >> pure false) e
        (λ won. handle_visible_success-Settled request p r after n e c i (v ∙ won) (k won) tested)
        (λ lost.
          Ensures-seq (λ _ t. Recorded r.iteration e.state t.state) (λ t. Agree e.state t.state)
            (λ b t. Settled S (suc n) b t.state) (λ t. Interrupted n t.state)
            (retry_after_test_failure S p r after e) (λ _. pure false)
            (retry_after_test_failure-Recorded S p r after e) (λ t h. inl (ground arith))
            (λ _ t h. ground arith))
