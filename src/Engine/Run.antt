-- ===== src/Engine/Run.antt =====
-- core/engine.py, the run as a whole: `_run_iteration`, the loop of `run`, `_mark_iteration_limit`,
-- `_to_result`, `_final_patch_command`, `_close_workspace` and `run`; `final_summary` of trace.py.
pub mod Soundness
pub mod Rounds
pub mod Final
pub mod Whole
pub mod Closing
use pyfix_agent.Base.{
  ℕ, zero, suc, String, ◌<>◌, Bool, true, false, ◌&&◌, ◌||◌, not, Option, none, some, List, [], ◌∷◌,
  leb, length, dedupe, string_eq, truthy, truthy?, or_text, or_text?, show, if◌then◌else◌,
}
use mathlib.Core.List.{flat_map}
use pyfix_agent.Base.Outcome.{
  Exception, os_error, runtime_error, value_error, other_error, message, Outcome, returned, raised,
  Action, pure, gets, modify, branch, ◌>>=◌, ◌>>◌,
}
use pyfix_agent.Core.Contracts.{RepairRequest, ApplyResult}
use pyfix_agent.Core.Schemas.{
  IterationRecord, AcceptanceStatus, not_run, disabled, SummaryStatus, FinalSummary,
}
use pyfix_agent.Context.Expansion.{ContextExpansionPolicy}
use pyfix_agent.Context.PytestSummary.{parse_pytest_summary, short_test_result}
use pyfix_agent.Repair.RetryPolicy.{RetryPolicy}
use pyfix_agent.Review.Contracts.{ReviewRecord}
use pyfix_agent.Engine.State.{
  AgentState, RepairRuntime, IterationPlan, Engine, AgentResult, new_state, new_runtime,
}
use pyfix_agent.Engine.Services.{Services}
use pyfix_agent.Execution.Contracts.{TestExecution}
use pyfix_agent.Engine.Attempt.{
  is_isolated, Run, call, set_state, set_runtime, prepare, plan_and_generate, apply_proposal,
  handle_apply_failure,
}
use pyfix_agent.Engine.Verdict.{verify, accept_or_retry}

-- `final_summary`, of the fields of a result that it reads.
summary_status : AgentState → SummaryStatus
summary_status s =
    if s.success
    then SummaryStatus.passed
    else if s.visible_success
        && elim s.acceptance_status [ not_run ↦ false | disabled ↦ false | _ ↦ true ]
    then SummaryStatus.needs_review
    else if truthy? s.error
    then elim s.iterations [ [] ↦ SummaryStatus.error | r ∷ rs ↦ SummaryStatus.failed ]
    else SummaryStatus.failed

unfoldable pub final_summary : AgentState → FinalSummary
unfolding summary_status
final_summary s =
    let initial = parse_pytest_summary s.test_output_before in
    let final = parse_pytest_summary (or_text s.test_output_after s.test_output_before) in
    record {
      status = summary_status s;
      iterations_used = length s.iterations;
      initial_total = initial.total;
      initial_failed = initial.failed;
      final_total = final.total;
      final_failed = final.failed;
      modified_files = dedupe (flat_map (λ r. r.edit_summary.modified_files) s.iterations);
      final_test_result = short_test_result (some final);
      visible_success = s.visible_success;
      acceptance_status = s.acceptance_status;
      review_count = length s.reviews;
      semantic_revisions_used = s.semantic_revisions_used;
    }

final_patch_command : AgentState → Bool → String
final_patch_command s patch_applied =
    if is_isolated s && truthy s.final_patch_path
    then "pyfixagent-apply --workspace \"" <> s.original_workspace <> "\" --patch \""
      <> s.final_patch_path <> "\""
    else if patch_applied && truthy s.patch
    then "git diff --"
    else if truthy s.patch
    then "git apply --check -"
    else ""

-- The exceptions that `run` turns into an error of the result, and those that closing may raise.
abbrev is_expected : Exception → Bool
is_expected (os_error m) = true
is_expected (runtime_error m) = true
is_expected (value_error m) = true
is_expected (other_error m) = false

abbrev is_cleanup_failure : Exception → Bool
is_cleanup_failure (os_error m) = true
is_cleanup_failure (runtime_error m) = true
is_cleanup_failure (value_error m) = false
is_cleanup_failure (other_error m) = false

module _ (S : Services) where
  -- `_run_iteration`, from its last step to its first.
  abbrev pub verdict_of :
      RepairRequest → IterationPlan → Option (IterationRecord × TestExecution) → Run S Bool
  verdict_of request p none = pure true
  verdict_of request p (some (r, after)) = accept_or_retry S request p r after

  abbrev pub after_proposal : RepairRequest → IterationPlan → ApplyResult → Run S Bool
  after_proposal request p result =
      branch (not result.success) (do handle_apply_failure S p result; pure false)
        (verify S p result >>= verdict_of request p)

  unfoldable pub apply_and_verify : RepairRequest → IterationPlan → Run S Bool
  apply_and_verify request p = apply_proposal S p >>= after_proposal request p

  abbrev pub carry_out : RepairRequest → Option IterationPlan → Run S Bool
  carry_out request none = gets (λ e. e.runtime.finished)
  carry_out request (some p) = apply_and_verify request p

  unfoldable pub run_iteration : RepairRequest → ℕ → Run S Bool
  run_iteration request iteration = plan_and_generate S request iteration >>= carry_out request

  -- The test of the `while` loop.
  unfoldable pub goes_on : RepairRequest → Engine S.World → Bool
  goes_on request e =
      not e.runtime.finished && not (leb request.max_iterations (length e.state.iterations))

  unfoldable pub iterate : RepairRequest → Run S (Unit {0})
  iterate request = do
    iteration ← gets (λ e. suc (length e.state.iterations))
    finished ← run_iteration request iteration
    set_runtime S (λ t. record t { finished = finished })

  -- The loop, on the rounds that it may still make. `request.max_iterations` rounds are enough.
  unfoldable pub loop : ℕ → RepairRequest → Run S (Unit {0})
  loop zero request e = (returned tt, e)
  loop (suc rounds) request e =
      branch (goes_on request e) (iterate request >>= λ _. loop rounds request) (pure tt) e

  unfoldable pub mark_iteration_limit : RepairRequest → Run S (Unit {0})
  mark_iteration_limit request = set_state S (λ s.
      if s.visible_success && S.semantic_review_enabled
      then record s { success = false; acceptance_status = AcceptanceStatus.rejected; error = none }
      else record s {
        error = some (
            elim s.error [ none ↦ "agent did not produce a successful patch" | some m ↦ m ]
            <> "; reached max_iterations="
            <> show request.max_iterations);
      })

  -- The body of the `try` of `run`, from its last step to its first.
  abbrev pub finish : RepairRequest → Run S (Unit {0})
  finish request = do
    finished ← gets (λ e. e.runtime.finished)
    branch finished (pure tt) (mark_iteration_limit request)

  abbrev pub rounds : RepairRequest → Bool → Run S (Unit {0})
  rounds request finished = do
    set_runtime S (λ t. record t { finished = finished })
    loop request.max_iterations request
    finish request

  unfoldable pub attempt : RepairRequest → Run S (Unit {0})
  attempt request = prepare S >>= rounds request

  unfoldable pub to_result : Run S AgentResult
  unfolding final_patch_command
  to_result = do
    active ← gets (λ e. S.is_active e.world)
    branch active
        (do
          exported ← call S S.export_final_patch
          set_state S (λ s. record s {
            patch = if is_isolated s then exported.0 else s.patch;
            final_patch_path = elim exported.1 [ none ↦ s.final_patch_path | some path ↦ path ];
            candidate_patch = if s.visible_success then exported.0 else s.candidate_patch;
            candidate_patch_path =
                if s.visible_success
                then elim exported.1 [ none ↦ "" | some path ↦ path ]
                else s.candidate_patch_path;
          }))
        (pure tt)
    workspace ← gets (λ e. e.state.workspace)
    environment ← call S (S.environment workspace)
    gets (λ e.
        let s = e.state in
        record {
          task = s.task;
          workspace = or_text s.original_workspace s.workspace;
          success = s.success;
          patch_applied = e.runtime.patch_applied;
          test_output_before = s.test_output_before;
          test_output_after = s.test_output_after;
          patch = s.patch;
          iterations = s.iterations;
          workspace_strategy = s.workspace_strategy;
          final_patch_command = final_patch_command s e.runtime.patch_applied;
          error = s.error;
          environment = environment;
          final_summary = final_summary s;
          workspace_state = s.workspace_state;
          final_patch_path = s.final_patch_path;
          visible_success = s.visible_success;
          acceptance_status = s.acceptance_status;
          candidate_patch = s.candidate_patch;
          candidate_patch_path = s.candidate_patch_path;
          reviews = s.reviews;
          semantic_revisions_used = s.semantic_revisions_used;
        })

  unfoldable pub close_workspace : Run S (Unit {0})
  close_workspace e =
      let (o, e') = call S S.close e in
      elim o [
        | returned done ↦ (returned tt, e')
        | raised x ↦ if is_cleanup_failure x then (returned tt, e') else (raised x, e')
      ]

  -- The `except` clause: an expected exception becomes the error of the state.
  unfoldable pub after_attempt :
      Outcome (Unit {0}) → Engine S.World → Outcome (Unit {0}) × Engine S.World
  after_attempt (returned done) e = (returned tt, e)
  after_attempt (raised x) e =
      if is_expected x
      then (
        returned tt,
        record e { state = record (e.state) { error = some (message x); success = false } },
      )
      else (raised x, e)

  abbrev pub deliver : Outcome (Unit {0}) → AgentResult → Run S AgentResult
  deliver (returned done) result e = (returned result, e)
  deliver (raised x) result e = (raised x, e)

  -- The `finally` clause. An exception of `_to_result` leaves it at once.
  unfoldable pub conclude : Outcome (Unit {0}) → Run S AgentResult
  conclude pending = do result ← to_result; close_workspace; deliver pending result

  abbrev pub start : RepairRequest → RetryPolicy → ContextExpansionPolicy → S.World → Engine S.World
  start request retry_policy context_policy w = record {
    state = new_state request;
    runtime = new_runtime;
    retry_policy = retry_policy;
    context_policy = context_policy;
    world = w;
  }

  -- `run`
  unfoldable pub run : RepairRequest → Run S AgentResult
  unfolding after_attempt conclude
  run request e =
      let (o, e₁) = attempt request e in
      let (pending, e₂) = after_attempt o e₁ in conclude pending e₂
