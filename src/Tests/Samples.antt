-- ===== src/Tests/Samples.antt =====
-- Concrete data for the tests: results of the backends, a review, and a scripted world.
use pyfix_agent.Base.{Bool, true, false, none, some, List, [], ◌∷◌, if◌then◌else◌}
use pyfix_agent.Base.Int.{ℤ, pos}
use pyfix_agent.Base.Outcome.{Outcome, returned, raised, runtime_error}
use pyfix_agent.Core.Contracts.{
  patch, replacement, check, apply, ApplyResult, apply_defaults, RepairRequest,
}
use pyfix_agent.Execution.Contracts.{TestExecution, CommandResult}
use pyfix_agent.Review.Contracts.{
  ReviewVerdict, ReviewRisk, ReviewOutcome, StructuralCue, blocking, warning,
}
use pyfix_agent.Engine.Services.{Services}
use pyfix_agent.Repair.ModelClient.{generated}

abbrev pub check_failure : ApplyResult
check_failure = record (apply_defaults patch false "") { failure_stage = some check }

abbrev pub replacement_failure : ApplyResult
replacement_failure = record (apply_defaults replacement false "") { failure_stage = some apply }

abbrev pub risk : ReviewRisk
risk = record {
  risk_id = "R1";
  category = "ordering";
  severity = blocking;
  reason = "order is lost";
  contract_id = none;
  evidence = record { path = "a.py"; line = none } ∷ [];
  counterexamples = record { input_shape = "two items"; expected_property = "in order" } ∷ [];
}

abbrev pub outcome : ReviewOutcome
outcome = record {
  verdict = ReviewVerdict.revise;
  summary = "";
  contracts = [];
  risks = risk ∷ record risk { risk_id = "R2"; severity = warning; evidence = [] } ∷ [];
  repair_feedback = "";
}

abbrev pub cue : StructuralCue
cue = record { id = some "C1"; category = some "ordering"; description = some "a sort" }

-- What is left of a script of exit codes, and whether the workspace is still open.
pub record Script : Type 0 where
  pub exits : List ℤ
  pub is_open : Bool

abbrev command_of : ℤ → CommandResult
command_of code = record {
  command = "pytest" ∷ [];
  exit_code = code;
  stdout = "";
  stderr = "";
  duration = "0.00";
  timeout = false;
  backend = "local";
  runtime_command = [];
  infrastructure_error = false;
  output_truncated = false;
  policy_violation = none;
}

abbrev pub executed : ℤ → TestExecution
executed code = record {
  exit_code = code;
  output = "FAILED t.py::a";
  command_result = command_of code;
  command_results = command_of code ∷ [];
}

abbrev next_test : List ℤ → Bool → Outcome TestExecution × Script
next_test [] o = (raised (runtime_error "no test"), record { exits = []; is_open = o })
next_test (code ∷ exits) o = (returned (executed code), record { exits = exits; is_open = o })

-- Collaborators that follow the script: every edit applies, and the model repeats itself.
abbrev pub scripted : Bool → Services
scripted exporting = record {
  World = Script;
  perf_counter = λ w. (returned 0, w);
  prepare = λ w. (
    returned (record {
      workspace = "/tmp/w";
      file_tree = "";
      state = [];
      strategy = "temporary_git_worktree";
      error = none;
    }),
    w,
  );
  patch_path = λ n w. (returned "p.patch", w);
  checkpoint = λ n kind w. (returned (some "abc"), w);
  rollback = λ w. (returned tt, w);
  candidate_diff = λ w. (returned "", w);
  is_active = λ w. w.is_open;
  export_final_patch =
      λ w. (if exporting then returned ("", none) else raised (runtime_error "git diff failed"), w);
  close = λ w. (returned tt, record w { is_open = false });
  run_tests = λ path w. next_test w.exits w.is_open;
  environment = λ path w. (returned [], w);
  strategy = "traceback";
  line_window = pos 20;
  max_files = pos 3;
  fallback_to_full = true;
  build_context = λ path output plan w. (returned (record { rendered = ""; metadata = [] }), w);
  build_prompt = λ input. ("prompt", []);
  generate = λ prompt w. (returned (generated "[]" []), w);
  apply_edit = λ mode path raw patch_path w. (
    returned (record (apply_defaults mode true raw) {
      apply_success = true;
      check_success = true;
      applied_to_workspace = true;
      command = "git diff --";
    }),
    w,
  );
  build_review_context = λ path diff w.
      (returned (record { rendered = ""; metadata = []; structural_risk_cues = [] }), w);
  review = λ request path w. (
    returned (record {
      prompt = "";
      raw_output = "";
      outcome = some (record outcome { verdict = ReviewVerdict.accept; risks = [] });
      parse_error = none;
      model_error = none;
      model_calls = [];
      context = [];
    }),
    w,
  );
  semantic_review_enabled = true;
  review_policy = record { max_semantic_revisions = 1 };
  review_max_feedback_chars = pos 3000;
}

-- Failing tests, a first edit that changes nothing, and a second one that repairs.
abbrev pub script : Script
script = record { exits = pos 1 ∷ pos 1 ∷ pos 0 ∷ []; is_open = true }

abbrev pub request : RepairRequest
request = record { task = "repair"; workspace = "/w"; max_iterations = 3 }
