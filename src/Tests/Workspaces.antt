-- ===== src/Tests/Workspaces.antt =====
-- A session on a host whose git answers every command with the same text, and its theorems.
use pyfix_agent.Base.{
  ◌≡◌, ◌↔◌, refl, ap, String, Bool, not, map, true, false, Option, none, some, List, [], ◌∷◌, any,
  string_eq,
}
use mathlib.Core.Path.{subst}
use pyfix_agent.Base.Int.{pos}
use pyfix_agent.Base.Outcome.{other_error, returned, raised, Ensures}
use pyfix_agent.Base.Paths.{path_parts, relative_to}
use pyfix_agent.Base.Dict.{list_equal}
use pyfix_agent.Execution.Host.{WorkspaceHost}
use pyfix_agent.Execution.Workspace.{WorkspaceState, clean_workspace_error}
use pyfix_agent.Execution.Workspace.Clean.{IsClean, clean_workspace_error-IsClean}
use pyfix_agent.Execution.Transaction.{
  ActiveWorkspace, Held, new_transaction, with_active, closed, begin,
}
use pyfix_agent.Execution.Transaction.Use.{rollback, checkpoint, close}
use pyfix_agent.Execution.Transaction.Lifecycle.{
  Call, begin_call, use_call, close_call, rollback_use, idle, phase, Fits, Steps, perform_all,
  outcomes, perform_all-Steps,
}
use pyfix_agent.Execution.Transaction.Isolation.{KeptInWorktree, rollback-kept}
use pyfix_agent.Execution.Transaction.Interrupted.{begin_interrupted}
use pyfix_agent.Execution.Session.{WorkspaceSession, prepare}
use pyfix_agent.Execution.Session.Preparing.{Prepares, prepare-Prepares}

-- The directories and the commands of the calls of git so far.
abbrev Log : Type 0
Log = List (List String × List String)

abbrev host : WorkspaceHost
host = record {
  World = Log;
  git = λ cwd args timeout w.
      (returned (record { returncode = pos 0; stdout = "/r"; stderr = "" }), (cwd, args) ∷ w);
  resolve = λ path w. (returned path, w);
  exists = λ path w. (returned true, w);
  is_dir = λ path w. (returned true, w);
  mkdtemp = λ prefix w. (returned ("/" ∷ "tmp" ∷ "x" ∷ []), w);
  gettempdir = λ w. (returned ("/" ∷ "tmp" ∷ []), w);
  rmtree = λ path w. (returned tt, w);
  list_files = λ path w. (returned "a.py", w);
  now = λ format w. (returned "20260101", w);
  mkdir = λ path w. (returned tt, w);
  write_text = λ path content w. (returned tt, w);
}

abbrev state : WorkspaceState
state = record {
  git_root = some "/r";
  revision = some "abc";
  dirty = false;
  changed_paths = [];
  error = none;
}

abbrev original : List String
original = "/" ∷ "r" ∷ "w" ∷ []

abbrev held : Held Log
held = record { transaction = new_transaction original true; world = [] }

abbrev calls : List Call
calls = begin_call state ∷ use_call rollback_use ∷ close_call ∷ []

perform_all-Steps_example :
    Steps true idle calls
      (outcomes host calls held)
      (phase (perform_all host calls held).transaction.active)
    × Fits
        (perform_all host calls held).transaction
        (perform_all host calls held).transaction.active
perform_all-Steps_example = perform_all-Steps host calls held refl

abbrev opened : ActiveWorkspace
opened = record {
  original_workspace = original;
  workspace = "/" ∷ "tmp" ∷ "x" ∷ "repo" ∷ "w" ∷ [];
  git_root = "/" ∷ "tmp" ∷ "x" ∷ "repo" ∷ [];
  revision = "abc";
  isolated = true;
}

begin_test :
    (begin host state held).1.transaction
    ≡ with_active (some ("/" ∷ "tmp" ∷ "x" ∷ [])) opened (new_transaction original true)
unfolding begin path_parts relative_to
begin_test = refl

abbrev active_held : Held Log
active_held = record {
  transaction = with_active (some ("/" ∷ "tmp" ∷ "x" ∷ [])) opened (new_transaction original true);
  world = [];
}

-- No command ran in the original workspace.
abbrev Untouched : Log → Type 0
Untouched w = any (λ c. list_equal c.0 original) w ≡ false

abbrev place : Option ActiveWorkspace → List String
place none = []
place (some a) = a.workspace

kept : KeptInWorktree host Untouched (some opened)
unfolding list_equal
kept a e i args w u = subst (λ cwd. Untouched (host.git cwd args 30 w).1) (ap place e) u

rollback-kept_example :
    Untouched (rollback host active_held).1.world
    × Untouched (checkpoint host 1 "iteration" active_held).1.world
rollback-kept_example = rollback-kept host Untouched active_held 1 "iteration" kept refl

-- A host whose git is always cut off. Its world says of each directory that was made whether it is
-- still there.
abbrev slow_host : WorkspaceHost
slow_host = record {
  World = List Bool;
  git = λ cwd args timeout w. (raised (other_error "timed out"), w);
  resolve = λ path w. (returned path, w);
  exists = λ path w. (returned true, w);
  is_dir = λ path w. (returned true, w);
  mkdtemp = λ prefix w. (returned ("/" ∷ "tmp" ∷ "x" ∷ []), true ∷ w);
  gettempdir = λ w. (returned ("/" ∷ "tmp" ∷ []), w);
  rmtree = λ path w. (returned tt, map (λ there. false) w);
  list_files = λ path w. (returned "a.py", w);
  now = λ format w. (returned "20260101", w);
  mkdir = λ path w. (returned tt, w);
  write_text = λ path content w. (returned tt, w);
}

abbrev slow_held : Held (List Bool)
slow_held = record { transaction = new_transaction original true; world = [] }

abbrev AllThere : List Bool → Type 0
AllThere w = any not w ≡ false

begin_leaves_test : (begin slow_host state slow_held).1 ≡ record slow_held { world = true ∷ [] }
unfolding begin path_parts relative_to
begin_leaves_test = refl

begin_interrupted_example :
    Ensures (λ _ _. ⊥) (λ u. AllThere u.world) (begin slow_host state slow_held)
    × Ensures
        (λ _ u. AllThere u.world × (u.transaction ≡ closed slow_held.transaction))
        (λ _. ⊥)
        (close slow_host (begin slow_host state slow_held).1)
begin_interrupted_example =
    begin_interrupted slow_host AllThere state slow_held (λ cwd args seconds w i. i) (λ path w i. i)
      (λ prefix w i. i) refl refl refl

abbrev session : WorkspaceSession
session = record { workspace = original; patch_output_dir = "out" ∷ []; require_clean = true }

prepare-Prepares_example :
    Prepares host session (new_transaction original true) (prepare host session held)
prepare-Prepares_example = prepare-Prepares host session held refl

clean_workspace_error-IsClean_example : (clean_workspace_error state ≡ none) ↔ IsClean state
clean_workspace_error-IsClean_example = clean_workspace_error-IsClean state
