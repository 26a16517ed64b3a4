-- ===== src/Execution/Session.antt =====
-- execution/workspace_session.py: the workspace of one run, over its transaction.
pub mod Preparing
use pyfix_agent.Base.{
  ℕ, String, ◌<>◌, Bool, true, false, Option, none, some, List, [], ◌∷◌, ◌++◌, show, truthy, join,
  if◌then◌else◌,
}
use pyfix_agent.Base.Outcome.{
  Exception, os_error, runtime_error, value_error, other_error, Outcome, returned, raised, Action,
  pure, raise, branch, ◌>>=◌, ◌>>◌,
}
use pyfix_agent.Base.Paths.{as_posix}
use pyfix_agent.Core.Contracts.{Metadata}
use pyfix_agent.Execution.Contracts.{PreparedWorkspace}
use pyfix_agent.Execution.Host.{WorkspaceHost}
use pyfix_agent.Execution.Workspace.{WorkspaceState, inspect_workspace, clean_workspace_error}
use pyfix_agent.Execution.Transaction.{ActiveWorkspace, Held, with_world, on_world, begin}
use pyfix_agent.Execution.Transaction.Use.{final_diff}

-- The fields of `WorkspaceSession` that do not change; its transaction is in the state.
pub record WorkspaceSession : Type 0 where
  pub workspace : List String
  pub patch_output_dir : List String
  pub require_clean : Bool

abbrev text_of : Option String → String
text_of none = "None"
text_of (some s) = s

abbrev flag : Bool → String
flag true = "True"
flag false = "False"

-- `state.to_dict()`
abbrev pub to_dict : WorkspaceState → Metadata
to_dict s =
    ("git_root", text_of s.git_root)
    ∷ ("revision", text_of s.revision)
    ∷ ("dirty", flag s.dirty)
    ∷ ("changed_paths", join ", " s.changed_paths)
    ∷ ("error", text_of s.error)
    ∷ []

abbrev pub strategy_of : Bool → Bool → String
strategy_of isolate require_clean =
    if isolate
    then "temporary_git_worktree"
    else if require_clean
    then "in_place_clean_guard"
    else "incremental_repair"

abbrev pub not_prepared : WorkspaceSession → WorkspaceState → Bool → String → PreparedWorkspace
not_prepared s state isolate error = record {
  workspace = as_posix s.workspace;
  file_tree = "";
  state = to_dict state;
  strategy = strategy_of isolate s.require_clean;
  error = some error;
}

abbrev pub prepared :
    WorkspaceSession → WorkspaceState → Bool → ActiveWorkspace → String → PreparedWorkspace
prepared s state isolate a file_tree = record {
  workspace = as_posix a.workspace;
  file_tree = file_tree;
  state =
      to_dict state
      ++ ("active_workspace", as_posix a.workspace) ∷ ("isolated", flag a.isolated) ∷ [];
  strategy = strategy_of isolate s.require_clean;
  error = none;
}

module _ (H : WorkspaceHost) (s : WorkspaceSession) where
  -- The end of `prepare`, after the call of `begin` in its `try`.
  abbrev pub after_begin :
      WorkspaceState
      → Outcome ActiveWorkspace × Held H.World
      → Outcome PreparedWorkspace × Held H.World
  after_begin state (returned a, h) =
      (on_world (H.list_files a.workspace) >>= λ files.
      pure (prepared s state h.transaction.isolate a files))
        h
  after_begin state (raised (os_error m), h) =
      (returned (not_prepared s state h.transaction.isolate m), h)
  after_begin state (raised (runtime_error m), h) =
      (returned (not_prepared s state h.transaction.isolate m), h)
  after_begin state (raised (value_error m), h) = (raised (value_error m), h)
  after_begin state (raised (other_error m), h) = (raised (other_error m), h)

  abbrev pub begin_session : WorkspaceState → Action (Held H.World) PreparedWorkspace
  begin_session state h = after_begin state (begin H state h)

  -- `if error:`
  abbrev pub unless_error : WorkspaceState → Option String → Action (Held H.World) PreparedWorkspace
  unless_error state none h = begin_session state h
  unless_error state (some m) h =
      branch (truthy m) (pure (not_prepared s state h.transaction.isolate m)) (begin_session state)
        h

  abbrev pub cleanness : WorkspaceState → Option String
  cleanness state = if s.require_clean then clean_workspace_error state else none

  unfoldable pub prepare : Action (Held H.World) PreparedWorkspace
  prepare =
      on_world (inspect_workspace H s.workspace) >>= λ state. unless_error state (cleanness state)

  unfoldable pub patch_path : ℕ → Action H.World (List String)
  patch_path iteration = H.now "%Y%m%d_%H%M%S" >>= λ timestamp. pure (
      s.patch_output_dir
      ++ ("patch_" <> timestamp <> "_attempt_" <> show iteration <> ".patch") ∷ [])

  abbrev pub write_final : String → Action H.World (String × Option (List String))
  write_final patch =
      H.mkdir s.patch_output_dir
      >> (H.now "%Y%m%d_%H%M%S_%f" >>= λ timestamp.
          let path = s.patch_output_dir ++ ("final_" <> timestamp <> ".patch") ∷ [] in
          H.write_text path patch >> pure (patch, some path))

  abbrev pub export_patch : String → Action (Held H.World) (String × Option (List String))
  export_patch patch = branch (truthy patch) (on_world (write_final patch)) (pure ("", none))

  unfoldable pub export_final_patch : Action (Held H.World) (String × Option (List String))
  export_final_patch = final_diff H >>= export_patch
