-- ===== src/Execution/Workspace.antt =====
-- workspace.py: what git says of a workspace, and whether it may be repaired in place.
pub mod Clean
use pyfix_agent.Base.{
  take_list, String, ◌<>◌, Bool, true, false, not, Option, none, some, List, [], ◌∷◌, map, keep,
  leb, nonempty, join, length, truthy, or_text, strip, splitlines, forward_slashes, text_length,
  drop_text, if◌then◌else◌,
}
use pyfix_agent.Base.Int.{is_code}
use pyfix_agent.Base.Outcome.{Action, pure, branch, ◌>>=◌}
use pyfix_agent.Base.Paths.{path_parts, as_posix}
use pyfix_agent.Execution.Host.{Completed, WorkspaceHost}

pub record WorkspaceState : Type 0 where
  pub git_root : Option String
  pub revision : Option String
  pub dirty : Bool
  pub changed_paths : List String
  pub error : Option String

abbrev no_git : String → WorkspaceState
no_git m = record {
  git_root = none;
  revision = none;
  dirty = false;
  changed_paths = [];
  error = some m;
}

-- The lines of `git status --porcelain`, each without its status.
unfoldable pub changed_paths_of : String → List String
changed_paths_of stdout =
    map (λ line. forward_slashes (strip (drop_text 3 line)))
      (keep (λ line. leb 4 (text_length line)) (splitlines stdout))

abbrev pub revision_of : Completed → Option String
revision_of c = if is_code 0 c.returncode then some (strip c.stdout) else none

abbrev pub state_of : String → Option String → Completed → WorkspaceState
state_of git_root revision c =
    if is_code 0 c.returncode
    then record {
      git_root = some git_root;
      revision = revision;
      dirty = nonempty (changed_paths_of c.stdout);
      changed_paths = changed_paths_of c.stdout;
      error = none;
    }
    else record {
      git_root = some git_root;
      revision = revision;
      dirty = false;
      changed_paths = [];
      error = some (or_text (strip c.stderr) "git status failed");
    }

module _ (H : WorkspaceHost) where
  abbrev pub inspect_root : List String → Completed → Action H.World WorkspaceState
  inspect_root path root =
      branch (not (is_code 0 root.returncode))
        (pure (no_git "workspace is not inside a Git working tree"))
        (H.git path ("rev-parse" ∷ "HEAD" ∷ []) 15 >>= λ revision.
          H.git path ("status" ∷ "--porcelain" ∷ "--untracked-files=all" ∷ "--" ∷ "." ∷ []) 15
          >>= λ status. pure (state_of (strip root.stdout) (revision_of revision) status))

  abbrev pub inspect_existing : List String → Bool → Action H.World WorkspaceState
  inspect_existing path false = pure (no_git ("workspace does not exist: " <> as_posix path))
  inspect_existing path true =
      H.git path ("rev-parse" ∷ "--show-toplevel" ∷ []) 15 >>= inspect_root path

  unfoldable pub inspect_workspace : List String → Action H.World WorkspaceState
  inspect_workspace workspace =
      H.resolve workspace >>= λ path. H.exists path >>= inspect_existing path

abbrev pub dirty_error : List String → String
dirty_error paths =
    "workspace has uncommitted changes: "
    <> join ", " (take_list 5 paths)
    <> (if leb 6 (length paths) then "..." else "")

abbrev pub unrevised_error : WorkspaceState → Option String
unrevised_error state = elim state.revision [
  | none ↦ some "workspace Git repository has no HEAD commit"
  | some r ↦ if state.dirty then some (dirty_error state.changed_paths) else none
]

unfoldable pub clean_workspace_error : WorkspaceState → Option String
clean_workspace_error state = elim state.error [
  | none ↦ unrevised_error state
  | some m ↦ if truthy m then some m else unrevised_error state
]
