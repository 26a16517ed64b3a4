-- ===== src/Engine/Attempt/Progress.antt =====
-- What the first half of an iteration of core/engine.py leaves alone, and what it records.
use pyfix_agent.Base.{
  ℕ, ◌≡◌, refl, ap, sym, ◌∙◌, String, truthy?, Bool, true, false, Option, none, some, [], ◌∷◌, ◌++◌,
  arith,
}
use mathlib.Core.Bool.{false≢true}
use mathlib.Core.List.{map-append}
use pyfix_agent.Base.Int.{ℤ, pos, negsuc, is_code}
use pyfix_agent.Base.Outcome.{
  Action, Outcome, returned, raised, Ensures, Ensures-seq, Ensures-mono, Ensures-branch, pure, ◌>>◌,
}
use pyfix_agent.Execution.Contracts.{TestExecution, is_success, is_infrastructure_error}
use pyfix_agent.Core.Contracts.{RepairRequest, ApplyResult}
use pyfix_agent.Core.Schemas.{AcceptanceStatus}
use pyfix_agent.Repair.Evaluator.{model_error_record, apply_record}
use pyfix_agent.Engine.State.{AgentState, IterationPlan, Engine}
use pyfix_agent.Engine.Services.{Services}
use pyfix_agent.Engine.Invariant.{numbers, WasRun, Passed, PassedWith}
use pyfix_agent.Engine.Attempt.{
  call, set_state, judge_tests, prepare_tests, handle_apply_failure, apply_proposal,
  plan_and_generate, prepare,
}

-- Two states that agree on the records, the reviews and the verdict.
pub record Agree (s t : AgentState) : Type 0 where
  pub iterations : t.iterations ≡ s.iterations
  pub reviews : t.reviews ≡ s.reviews
  pub revisions : t.semantic_revisions_used ≡ s.semantic_revisions_used
  pub success : t.success ≡ s.success

-- As before, with one more record, for iteration n.
pub record Recorded (n : ℕ) (s t : AgentState) : Type 0 where
  pub numbered : numbers t.iterations ≡ numbers s.iterations ++ n ∷ []
  pub reviews : t.reviews ≡ s.reviews
  pub revisions : t.semantic_revisions_used ≡ s.semantic_revisions_used
  pub success : t.success ≡ s.success

-- What `_prepare` makes of the first outcome of the tests: if the run ends there, a success is that of
-- the tests.
abbrev Judged : TestExecution → Bool → AgentState → Type 0
Judged before true t =
    t.success ≡ true
    → (t.visible_success ≡ true)
      × (t.error ≡ none)
      × (t.acceptance_status ≡ AcceptanceStatus.not_run)
      × (t.test_output_before ≡ before.output)
      × (is_success before ≡ true)
      × (is_infrastructure_error before ≡ false)
Judged before false t = t.success ≡ false

-- What `_prepare` establishes in a new state: if the run ends there, a success means that the tests
-- passed, with the output that the state has.
abbrev pub Prepared : Services → Bool → AgentState → Type 0
Prepared S true t =
    t.success ≡ true
    → (t.visible_success ≡ true)
      × (t.error ≡ none)
      × (t.acceptance_status ≡ AcceptanceStatus.not_run)
      × PassedWith S t.test_output_before
Prepared S false t = t.success ≡ false

-- The counts of a state, after a call that raised.
abbrev pub Unrecorded : AgentState → AgentState → Type 0
Unrecorded s t =
    (t.iterations ≡ s.iterations)
    × (t.reviews ≡ s.reviews)
    × (t.semantic_revisions_used ≡ s.semantic_revisions_used)

-- `Prepared`, with the counts as they were.
abbrev pub PreparedFrom : Services → AgentState → Bool → AgentState → Type 0
PreparedFrom S s b t = Prepared S b t × Unrecorded s t

abbrev pub Planned : ℕ → AgentState → Option IterationPlan → AgentState → Type 0
Planned n s none t = Recorded n s t
Planned n s (some p) t = (p.iteration ≡ n) × Agree s t

exit_zero : (code : ℤ) → is_code 0 code ≡ true → code ≡ pos 0
exit_zero (pos n) h = ap pos (ground arith)
exit_zero (negsuc n) h = absurd (ground arith)

module _ (S : Services) where
  -- A call of a collaborator keeps the agent's state.
  pub call-state :
      {A : Type 0} (m : Action S.World A) (e : Engine S.World)
      → Ensures (λ _ t. t.state ≡ e.state) (λ t. t.state ≡ e.state) (call S m e)
  call-state {A = A} m e = kept (m e.world)
    where
      kept :
          (r : Outcome A × S.World)
          → Ensures
              (λ _ t. t.state ≡ e.state)
              (λ t. t.state ≡ e.state)
              (r.0, record e { world = r.1 })
      kept (returned a, w) = refl
      kept (raised x, w) = refl

  -- A call of the test runner.
  pub run_tests-WasRun :
      (workspace : String) (e : Engine S.World)
      → Ensures
          (λ after t. WasRun S after × (t.state ≡ e.state))
          (λ t. t.state ≡ e.state)
          (call S (S.run_tests workspace) e)
  run_tests-WasRun workspace e = ran (S.run_tests workspace e.world) refl
    where
      ran :
          (r : Outcome TestExecution × S.World)
          → S.run_tests workspace e.world ≡ r
          → Ensures
              (λ after t. WasRun S after × (t.state ≡ e.state))
              (λ t. t.state ≡ e.state)
              (r.0, record e { world = r.1 })
      ran (returned after, w) q =
          (record { workspace = workspace; began = e.world; ended = w; returns = q }, refl)
      ran (raised x, w) q = refl

  pub WasRun-Passed :
      (after : TestExecution)
      → WasRun S after
      → is_success after ≡ true
      → is_infrastructure_error after ≡ false
      → Passed S after
  unfolding is_infrastructure_error
  WasRun-Passed after r s i = record {
    was_run = r;
    exit_zero = exit_zero after.exit_code s;
    all_sound = ground (arith, i);
    last_sound = ground (arith, i);
  }

  judge_tests-Judged :
      (before : TestExecution) (e : Engine S.World)
      → e.state.success ≡ false
      → e.state.error ≡ none
      → Ensures
          (λ b t. Judged before b t.state × Unrecorded e.state t.state)
          (λ t. Unrecorded e.state t.state)
          (judge_tests S before e)
  unfolding judge_tests
  judge_tests-Judged before e h k = ground arith

  Judged-Prepared :
      (before : TestExecution) (b : Bool) (s t : AgentState)
      → WasRun S before
      → Judged before b t × Unrecorded s t
      → PreparedFrom S s b t
  Judged-Prepared before true s t r (j, u) =
      (λ won. let w = j won in (w.0, w.1, w.2, (before, WasRun-Passed before r w.4 w.5, w.3)), u)
  Judged-Prepared before false s t r (j, u) = (j, u)

  Unrecorded-trans : (s t u : AgentState) → Unrecorded s t → Unrecorded t u → Unrecorded s u
  Unrecorded-trans s t u g h = ground arith

  prepare_tests-Prepared :
      (s : AgentState) (e : Engine S.World)
      → Unrecorded s e.state
      → e.state.success ≡ false
      → e.state.error ≡ none
      → Ensures (λ b t. PreparedFrom S s b t.state) (λ t. Unrecorded s t.state) (prepare_tests S e)
  unfolding prepare_tests
  prepare_tests-Prepared s e n h k =
      Ensures-seq (λ before t. WasRun S before × (t.state ≡ e.state)) (λ t. t.state ≡ e.state)
        (λ b t. PreparedFrom S s b t.state) (λ t. Unrecorded s t.state)
        (call S (S.run_tests e.state.workspace) e) (judge_tests S)
        (run_tests-WasRun e.state.workspace e) (λ t g. rw g n)
        (λ before t (r, g).
          let m : Unrecorded s t.state = rw g n in
          Ensures-mono (λ b u. Judged before b u.state × Unrecorded t.state u.state)
            (λ u. Unrecorded t.state u.state) (λ b u. PreparedFrom S s b u.state)
            (λ u. Unrecorded s u.state) (judge_tests S before t)
            (judge_tests-Judged before t (ap (λ s. s.success) g ∙ h) (ap (λ s. s.error) g ∙ k))
            (λ b u j.
              Judged-Prepared before b s u.state r (j.0, Unrecorded-trans s t.state u.state m j.1))
            (λ u j. Unrecorded-trans s t.state u.state m j))

  pub prepare-Prepared :
      (e : Engine S.World)
      → e.state.success ≡ false
      → e.state.error ≡ none
      → Ensures
          (λ b e'. PreparedFrom S e.state b e'.state)
          (λ e'. Unrecorded e.state e'.state)
          (prepare S e)
  unfolding prepare
  prepare-Prepared e h k =
      Ensures-seq (λ _ t. t.state ≡ e.state) (λ t. t.state ≡ e.state)
        (λ b t. PreparedFrom S e.state b t.state) (λ t. Unrecorded e.state t.state)
        (call S S.prepare e) _ (call-state S.prepare e) (λ t g. ground arith)
        (λ prepared t g.
          let clean : t.state.success ≡ false = ap (λ s. s.success) g ∙ h in
          Ensures-branch (λ b u. PreparedFrom S e.state b u.state) (λ u. Unrecorded e.state u.state)
            (truthy? prepared.error)
            (set_state S (λ s. record s { error = prepared.error }) >> pure true)
            (set_state S
                (λ s. record s { workspace = prepared.workspace; file_tree = prepared.file_tree })
              >> prepare_tests S)
            (record t {
              state = record (t.state) {
                workspace_state = some prepared.state;
                workspace_strategy = prepared.strategy;
              };
            })
            (λ failed. (λ won. absurd (false≢true (sym clean ∙ won)), ground arith))
            (λ ready.
              prepare_tests-Prepared e.state _ (ground arith) clean (ap (λ s. s.error) g ∙ k)))

  pub plan_and_generate-Planned :
      (request : RepairRequest) (n : ℕ) (e : Engine S.World)
      → Ensures
          (λ o e'. Planned n e.state o e'.state)
          (λ e'. Agree e.state e'.state)
          (plan_and_generate S request n e)
  unfolding plan_and_generate model_error_record
  plan_and_generate-Planned request n e = grind (arith, map-append)

  pub apply_proposal-Agree :
      (p : IterationPlan) (e : Engine S.World)
      → Ensures
          (λ _ e'. Agree e.state e'.state)
          (λ e'. Agree e.state e'.state)
          (apply_proposal S p e)
  unfolding apply_proposal
  apply_proposal-Agree p e = ground arith

  pub handle_apply_failure-Recorded :
      (p : IterationPlan) (result : ApplyResult) (e : Engine S.World)
      → Ensures
          (λ _ e'. Recorded p.iteration e.state e'.state)
          (λ e'. Agree e.state e'.state)
          (handle_apply_failure S p result e)
  unfolding handle_apply_failure apply_record
  handle_apply_failure-Recorded p result e = grind (arith, map-append)
