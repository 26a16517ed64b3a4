-- ===== src/Engine/Attempt.antt =====
-- core/engine.py, the first half of an iteration: `_prepare`, `_plan_and_generate`,
-- `_handle_model_error`, `_apply` and `_handle_apply_failure`.
pub mod Progress
use pyfix_agent.Base.{
  ℕ, ◌+◌, String, Bool, true, false, ◌&&◌, ◌||◌, not, Option, none, some, List, [], ◌∷◌, ◌++◌, ◌==◌,
  string_eq, nat_eq, truthy?, or_text?, if◌then◌else◌,
}
use pyfix_agent.Base.Outcome.{Action, pure, gets, modify, branch, ◌>>=◌, ◌>>◌, returned, raised}
use pyfix_agent.Core.Contracts.{RepairMode, patch, mode_eq, RepairRequest, ApplyResult}
use pyfix_agent.Core.Schemas.{IterationRecord, AcceptanceStatus}
use pyfix_agent.Context.Expansion.{plan}
use pyfix_agent.Context.PytestSummary.{parse_pytest_summary}
use pyfix_agent.Execution.Contracts.{
  PreparedWorkspace, TestExecution, is_success, is_infrastructure_error,
}
use pyfix_agent.Repair.Evaluator.{model_error_record, apply_record, untested}
use pyfix_agent.Repair.Prompting.{replacement_failure, apply_failure, mode_switch_failure}
use pyfix_agent.Repair.RetryPolicy.{after_model_error, after_apply}
use pyfix_agent.Engine.State.{AgentState, RepairRuntime, IterationPlan, Engine}
use pyfix_agent.Engine.Services.{Services, PromptInput}
use pyfix_agent.Repair.ModelClient.{generated, generation_error}

abbrev pub is_isolated : AgentState → Bool
is_isolated s = s.workspace_strategy == "temporary_git_worktree"

module _ (S : Services) where
  abbrev pub Run : Type 0 → Type 0
  Run A = Action (Engine S.World) A

  -- A call of a collaborator.
  abbrev pub call : {A : Type 0} → Action S.World A → Run A
  call m e = let (o, w) = m e.world in (o, record e { world = w })

  abbrev pub set_state : (AgentState → AgentState) → Run (Unit {0})
  set_state f = modify (λ e. record e { state = f e.state })

  abbrev pub set_runtime : (RepairRuntime → RepairRuntime) → Run (Unit {0})
  set_runtime f = modify (λ e. record e { runtime = f e.runtime })

  -- The last lines of a record's life, the same in each method: the trigger, the ids of the active
  -- review feedback and the context level are set, and the record is appended.
  abbrev pub append_record : IterationPlan → IterationRecord → Run (Unit {0})
  append_record p r = modify (λ e. record e {
    state = record (e.state) {
      iterations =
          e.state.iterations
          ++ (record r {
            context_expansion_level = p.context_plan.level;
            trigger = e.runtime.trigger;
            review_feedback_ids = e.runtime.active_review_ids;
          })
            ∷ [];
    };
  })

  -- `_prepare`, from the end of the test run on.
  unfoldable pub judge_tests : TestExecution → Run Bool
  judge_tests before = do
    set_state (λ s. record s { test_output_before = before.output })
    set_runtime (λ r. record r { current_test_output = before.output })
    branch (is_infrastructure_error before)
        (do
          set_state (λ s. record s {
            error = some "test execution infrastructure error; model was not called";
          })
          pure true)
        (branch (is_success before)
          (do
            set_state (λ s. record s {
              success = true;
              visible_success = true;
              acceptance_status = AcceptanceStatus.not_run;
            })
            pure true)
          (pure false))

  -- `_prepare`, from the test run on.
  unfoldable pub prepare_tests : Run Bool
  prepare_tests = do
    workspace ← gets (λ e. e.state.workspace)
    before ← call (S.run_tests workspace)
    judge_tests before

  unfoldable pub prepare : Run Bool
  prepare = do
    prepared ← call S.prepare
    set_state (λ s. record s {
      workspace_state = some prepared.state;
      workspace_strategy = prepared.strategy;
    })
    branch (truthy? prepared.error)
        (do set_state (λ s. record s { error = prepared.error }); pure true)
        (do
          set_state
              (λ s. record s { workspace = prepared.workspace; file_tree = prepared.file_tree })
          prepare_tests)

  -- What `_plan_and_generate` has computed before it calls the model.
  plan_iteration : RepairRequest → ℕ → Run IterationPlan
  plan_iteration request iteration = do
    started_at ← call S.perf_counter
    patch_path ← call (S.patch_path iteration)
    mode ← gets (λ e. e.retry_policy.mode)
    context_plan ←
        gets (λ e. plan e.context_policy S.strategy S.line_window S.max_files S.fallback_to_full)
    workspace ← gets (λ e. e.state.workspace)
    current_test_output ← gets (λ e. e.runtime.current_test_output)
    context ← call (S.build_context workspace current_test_output context_plan)
    prompted ← gets (λ e. S.build_prompt (record {
      mode = mode;
      task = request.task;
      iteration = iteration;
      max_iterations = request.max_iterations;
      file_tree = e.state.file_tree;
      initial_test_output =
          if iteration == 1
          then e.state.test_output_before
          else "Omitted after iteration 1. Use Current pytest output as the source of truth.";
      current_test_output = current_test_output;
      feedback = e.runtime.feedback;
      context = context;
    }))
    pure (record {
      iteration = iteration;
      started_at = started_at;
      patch_path = patch_path;
      mode = mode;
      context_plan = context_plan;
      context = record { rendered = context.rendered; metadata = prompted.1 };
      test_summary_before = parse_pytest_summary current_test_output;
      proposal = record { mode = mode; prompt = prompted.0; raw_output = ""; model_call = [] };
    })

  unfoldable pub handle_model_error :
      IterationPlan → String → List (String × String) → Run (Unit {0})
  handle_model_error p error metadata = do
    set_state (λ s. record s { error = some error })
    now ← call S.perf_counter
    let r =
        model_error_record p.iteration p.proposal.prompt p.patch_path p.started_at p.mode error
          p.context.metadata p.test_summary_before metadata now
    decision ← gets (λ e. after_model_error e.retry_policy)
    append_record p (record r { retry_reason = some decision.reason })
    set_runtime (λ r. record r {
      finished = not decision.continue_repair;
      feedback = if decision.continue_repair then replacement_failure "" error else r.feedback;
    })

  unfoldable pub plan_and_generate : RepairRequest → ℕ → Run (Option IterationPlan)
  unfolding plan_iteration handle_model_error
  plan_and_generate request iteration = do
    p ← plan_iteration request iteration
    generation ← call (S.generate p.proposal.prompt)
    elim generation [
      | generated raw_output model_call ↦ pure (
          some (record p {
            proposal = record (p.proposal) { raw_output = raw_output; model_call = model_call };
          }))
      | generation_error error metadata ↦ (do handle_model_error p error metadata; pure none)
    ]

  unfoldable pub apply_proposal : IterationPlan → Run ApplyResult
  apply_proposal p = do
    workspace ← gets (λ e. e.state.workspace)
    result ← call (S.apply_edit p.mode workspace p.proposal.raw_output p.patch_path)
    set_runtime (λ r. record r { patch_applied = r.patch_applied || result.applied_to_workspace })
    set_state (λ s. record s {
      patch = if (p.mode == patch) || result.success then result.cleaned_patch else s.patch;
    })
    pure result

  unfoldable pub handle_apply_failure : IterationPlan → ApplyResult → Run (Unit {0})
  handle_apply_failure p result = do
    set_state (λ s. record s { error = result.error })
    now ← call S.perf_counter
    let r =
        apply_record p.iteration p.proposal result p.started_at p.context.metadata
          p.test_summary_before untested now
    isolated ← gets (λ e. is_isolated e.state)
    action ←
        branch (result.applied_to_workspace && isolated)
          (do call S.rollback; pure (some "rolled_back_after_apply_failure")) (pure none)
    decided ← gets (λ e. after_apply e.retry_policy result)
    modify (λ e. record e { retry_policy = decided.1 })
    append_record p (record r { workspace_action = action; retry_reason = some decided.0.reason })
    set_runtime (λ r. record r {
      feedback =
          if not (decided.0.next_mode == p.mode)
          then mode_switch_failure result decided.0.next_mode
          else apply_failure result;
    })
