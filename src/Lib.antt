-- ===== src/Lib.antt =====
-- pyfix-agent: a command line agent that repairs a Python workspace. It runs the tests, asks a
-- model for an edit, applies it, runs the tests again, and on success may ask for a semantic review;
-- it repeats this up to a number of iterations.
--
-- The parts, and the files that model them:
--   Base, Base/*        what Python's str, int, list and exceptions are here: texts are strings,
--                       numbers that may be negative are ℤ, an exception is a value of `Outcome`
--   Core/Contracts      pyfixagent/core/contracts.py, and the edit of tools/replacement_tools.py
--   Core/Schemas        pyfixagent/schemas.py, and the dictionaries of fixed shape of trace.py
--   Execution/Contracts the results of execution/test_runner.py, sandbox/base.py and
--                       execution/workspace_session.py
--   Execution/TestPolicy, Execution/TestRunner  execution/test_policy.py and test_runner.py; Pytest
--                       and Running have their theorems
--   Sandbox/CommandPolicy  pyfixagent/sandbox/policy.py; Allowed has its theorem
--   Execution/Workspace pyfixagent/workspace.py; Clean has its theorem
--   Execution/Transaction  execution/workspace_transaction.py over the calls of Execution/Host, with
--                       its other methods in Use and its theorems in Beginning, Lifecycle,
--                       Isolation and Interrupted
--   Execution/Session   execution/workspace_session.py; Preparing has its theorem
--   Repair/RetryPolicy  pyfixagent/repair/retry_policy.py; Repair/RetryPolicy/Switching has the
--                       theorems on its modes
--   Repair/Evaluator    pyfixagent/repair/evaluator.py
--   Repair/Prompting    the feedback texts of pyfixagent/repair/prompting.py
--   Context/Expansion   pyfixagent/context/policy.py, with its theorems in Growth
--   Context/Snippet     pyfixagent/context/snippet.py; Window has its theorem
--   Context/PytestSummary  pyfixagent/context/pytest_summary.py, with its failed tests in
--                       FailedTests
--   Review/*            pyfixagent/review/contracts.py, policy.py, feedback.py and reviewer.py
--   Edit/Policy         pyfixagent/tools/edit_policy.py; Paths and Sides have the theorems on it
--   Edit/Replacement    tools/replacement_tools.py, from the answer to edits; Edit/Splice is one edit
--                       on one text, Edit/Application `apply_replacements` over Edit/Files
--   Edit/Fences, Edit/PatchText, Edit/PatchCheck, Edit/GitApply  tools/patch_tools.py: the cleaning
--                       of a patch, its checks, and the calls of git
--   Edit/Backends/*     pyfixagent/repair/backends/patch.py and replacement.py
--   Review/Parser       pyfixagent/review/parser.py; Valid has its theorem
--   Repair/ModelClient  how a call of pyfixagent/repair/model_client.py ends
--   Trace               pyfixagent/trace.py, with its theorems in Delta and Classes
--   Engine/State        pyfixagent/agent/state.py and the dataclasses of core/engine.py
--   Engine/Services     `EngineServices`: the collaborators, as actions on an abstract world
--   Engine/Attempt      `_prepare`, `_plan_and_generate`, `_handle_model_error`, `_apply`,
--                       `_handle_apply_failure`
--   Engine/Verdict      `_verify`, `_checkpoint_visible_candidate`, `_handle_visible_success`,
--                       `_retry_after_test_failure`, `_accept_or_retry`
--   Engine/SemanticReview  `_run_semantic_review`, `_record_review`, `_apply_review_decision`
--   Engine/Run          `_run_iteration`, `run`, `_mark_iteration_limit`, `_to_result`,
--                       `_final_patch_command`, `_close_workspace`
--   Engine/Invariant    what holds between two iterations
--   Tests               a scripted world, a whole run in it, and the theorems at concrete inputs
--
-- The engine is explicit state passing: an action takes the state of one call of `run` (the agent's
-- state, the runtime, the two policies that it drives, and the world) and returns or raises, with
-- the state that it left, so a change made before an exception is kept. The workspace session, the
-- test runner, the context provider, the backends, the model client and the reviewer are fields of
-- `Services`, about which nothing is assumed. The calls of the model and of `perf_counter` are
-- actions too. The semantic reviewer is modelled on its own, in Review/Reviewer, over its parser,
-- its prompts and the validation of evidence; each of its two loops is recursion on the retries that
-- are left. An exception is one of OSError, RuntimeError, ValueError or another, with its text.
--
-- The `while` loop of `run` is `loop`, by recursion on the rounds that it may still make; `run`
-- gives it `max_iterations` rounds. They are enough, because every iteration that does not raise
-- appends exactly one record and the loop stops at `max_iterations` records. Python's integers are
-- unbounded, so there is no overflow.
--
-- The edit tools, the backends and the workspace transaction are actions too, over the records Files,
-- Git, Host and WorkspaceHost of the calls that reach outside; `json` is a record of its decoder. A path
-- is its text where the code passes a text and the list of its parts where it passes a `Path`.
-- `find_occurrences` searches on fuel, one round for each character of the text and one more: every
-- round but the last moves at least one character on.
--
-- A metadata dictionary is a list of entries with their texts, `asdict` and the dictionaries of
-- fixed shape are the records themselves, and logging is left out. `perf_counter` is read as a
-- number of ticks. The regular expressions of the pytest summary are matched on the digits and word
-- characters of ASCII.
--
-- Not modelled: the template of the prompt, the processes and containers of the sandbox, the models,
-- the risk scanner and the repository index (they walk Python's ast), the selection of context,
-- benchmarking, patch_eval, the trace viewer, the apply tool and the command line.
pub mod Base
pub mod Core
pub mod Execution
pub mod Repair
pub mod Context
pub mod Review
pub mod Trace
pub mod Engine
pub mod Edit
pub mod Sandbox
pub mod Tests
