-- ===== src/Engine/Services.antt =====
-- The collaborators of core/engine.py (`EngineServices`) that reach outside of the process, or that
-- are not modelled, as actions on a world: each returns or raises.
use pyfix_agent.Base.{ℕ, String, Bool, Option}
use pyfix_agent.Base.Int.{ℤ}
use pyfix_agent.Base.Outcome.{Action}
use pyfix_agent.Core.Contracts.{RepairMode, ContextBundle, Metadata, ApplyResult}
use pyfix_agent.Context.Expansion.{ContextPlan}
use pyfix_agent.Execution.Contracts.{TestExecution, PreparedWorkspace}
use pyfix_agent.Repair.ModelClient.{Generation}
use pyfix_agent.Review.Contracts.{ReviewContext, ReviewRequest, ReviewExecution}
use pyfix_agent.Review.Policy.{ReviewPolicy}

-- The arguments of `PromptBuilder.build`.
pub record PromptInput : Type 0 where
  pub mode : RepairMode
  pub task : String
  pub iteration : ℕ
  pub max_iterations : ℕ
  pub file_tree : String
  pub initial_test_output : String
  pub current_test_output : String
  pub feedback : String
  pub context : ContextBundle

pub record Services : Type 1 where
  pub World : Type 0
  pub perf_counter : Action World ℕ
  -- workspace_session
  pub prepare : Action World PreparedWorkspace
  pub patch_path : ℕ → Action World String
  pub checkpoint : ℕ → String → Action World (Option String)
  pub rollback : Action World (Unit {0})
  pub candidate_diff : Action World String
  pub is_active : World → Bool
  pub export_final_patch : Action World (String × Option String)
  pub close : Action World (Unit {0})
  -- test_runner
  pub run_tests : String → Action World TestExecution
  pub environment : String → Action World Metadata
  -- context_provider
  pub strategy : String
  pub line_window : ℤ
  pub max_files : ℤ
  pub fallback_to_full : Bool
  pub build_context : String → String → ContextPlan → Action World ContextBundle
  -- prompt_builder.build, with the metadata that it writes to the context
  pub build_prompt : PromptInput → String × Metadata
  -- model_client, with the system prompt
  pub generate : String → Action World Generation
  -- backends
  pub apply_edit : RepairMode → String → String → String → Action World ApplyResult
  -- review_context_provider and semantic_reviewer
  pub build_review_context : String → String → Action World ReviewContext
  pub review : ReviewRequest → String → Action World ReviewExecution
  pub semantic_review_enabled : Bool
  pub review_policy : ReviewPolicy
  pub review_max_feedback_chars : ℤ
