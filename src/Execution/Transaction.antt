-- ===== src/Execution/Transaction.antt =====
-- execution/workspace_transaction.py: a temporary worktree from its creation to its removal.
pub mod Use
pub mod Beginning
pub mod Lifecycle
pub mod Isolation
pub mod Interrupted
use pyfix_agent.Base.{
  ℕ, String, ◌<>◌, Bool, true, false, not, Option, none, some, List, [], ◌∷◌, ◌++◌, show, truthy,
  or_text, or_text?, strip, if◌then◌else◌,
}
use pyfix_agent.Base.Int.{is_code}
use pyfix_agent.Base.Outcome.{
  Exception, runtime_error, Outcome, returned, raised, Action, pure, raise, branch, ◌>>=◌, ◌>>◌,
}
use pyfix_agent.Base.Paths.{path_parts, as_posix, relative_to}
use pyfix_agent.Execution.Host.{Completed, WorkspaceHost}
use pyfix_agent.Execution.Workspace.{WorkspaceState}

pub record ActiveWorkspace : Type 0 where
  pub original_workspace : List String
  pub workspace : List String
  pub git_root : List String
  pub revision : String
  pub isolated : Bool

pub record Transaction : Type 0 where
  pub original_workspace : List String
  pub isolate : Bool
  pub active : Option ActiveWorkspace
  pub temporary_root : Option (List String)

-- `WorkspaceTransaction(...)`, with its resolved workspace
abbrev pub new_transaction : List String → Bool → Transaction
new_transaction original_workspace isolate = record {
  original_workspace = original_workspace;
  isolate = isolate;
  active = none;
  temporary_root = none;
}

-- A transaction, and the world that its methods act on.
pub record Held (W : Type 0) : Type 0 where
  pub transaction : Transaction
  pub world : W

module _ {W A : Type 0} where
  abbrev pub with_world : Held W → Outcome A × W → Outcome A × Held W
  with_world h (r, w) = (r, record h { world = w })

  abbrev pub on_world : Action W A → Action (Held W) A
  on_world m h = with_world h (m h.world)

-- `completed.stderr.strip() or fallback`
abbrev pub git_error : Completed → String → Exception
git_error c fallback = runtime_error (or_text (strip c.stderr) fallback)

abbrev pub with_active : Option (List String) → ActiveWorkspace → Transaction → Transaction
with_active root a t = record t { active = some a; temporary_root = root }

abbrev pub closed : Transaction → Transaction
closed t = record t { active = none; temporary_root = none }

module _ (H : WorkspaceHost) where
  abbrev pub remove_inside : List String → Option (List String) → Action H.World (Unit {0})
  remove_inside resolved none =
      raise (
        runtime_error
          ("refusing to remove path outside temporary directory: " <> as_posix resolved))
  remove_inside resolved (some rest) =
      H.exists resolved >>= λ there. branch there (H.rmtree resolved) (pure tt)

  -- `_safe_remove`
  unfoldable pub safe_remove : List String → Action H.World (Unit {0})
  safe_remove path = H.resolve path >>= λ resolved. H.gettempdir >>= λ tempdir.
      H.resolve tempdir >>= λ temporary_root.
      remove_inside resolved (relative_to temporary_root resolved)

  abbrev pub removal_error : Completed → Bool → Option String
  removal_error c false = none
  removal_error c true = some (or_text (strip c.stderr) "failed to remove temporary worktree")

  -- `_remove_worktree`
  unfoldable pub remove_worktree : List String → List String → Action H.World (Option String)
  remove_worktree cwd worktree_root =
      H.git cwd ("rev-parse" ∷ "--show-toplevel" ∷ []) 30 >>= λ root.
      let git_root = if is_code 0 root.returncode then path_parts (strip root.stdout) else cwd in
      H.git git_root ("worktree" ∷ "remove" ∷ "--force" ∷ as_posix worktree_root ∷ []) 60
      >>= λ completed. H.git git_root ("worktree" ∷ "prune" ∷ []) 30 >>= λ pruned.
          branch (is_code 0 completed.returncode) (pure none)
            (H.exists worktree_root >>= λ there. pure (removal_error completed there))

  abbrev pub set_active :
      Option (List String) → ActiveWorkspace → Action (Held H.World) ActiveWorkspace
  set_active root a h = (returned a, record h { transaction = with_active root a h.transaction })

  -- The end of `begin`, once it is known whether the workspace is in the worktree.
  abbrev pub after_worktree :
      List String
      → List String
      → List String
      → String
      → List String
      → List String
      → Bool
      → Action (Held H.World) ActiveWorkspace
  after_worktree original git_root temporary_root revision relative workspace false =
      let worktree_root = temporary_root ++ "repo" ∷ [] in
      on_world (
        remove_worktree git_root worktree_root >>= λ error.
        safe_remove temporary_root
        >> raise (
            runtime_error
              ("workspace path is missing from temporary worktree: " <> as_posix relative)))
  after_worktree original git_root temporary_root revision relative workspace true =
      set_active (some temporary_root) (record {
        original_workspace = original;
        workspace = workspace;
        git_root = temporary_root ++ "repo" ∷ [];
        revision = revision;
        isolated = true;
      })

  abbrev pub give_up_adding : List String → Completed → Action (Held H.World) ActiveWorkspace
  give_up_adding temporary_root completed = on_world (
      safe_remove temporary_root
      >> raise (git_error completed (or_text (strip completed.stdout) "git worktree add failed")))

  abbrev pub find_directory :
      List String
      → List String
      → List String
      → String
      → List String
      → List String
      → Action (Held H.World) ActiveWorkspace
  find_directory original git_root temporary_root revision relative workspace =
      on_world (H.is_dir workspace)
      >>= after_worktree original git_root temporary_root revision relative workspace

  abbrev pub enter_worktree :
      List String
      → List String
      → List String
      → String
      → List String
      → Action (Held H.World) ActiveWorkspace
  enter_worktree original git_root temporary_root revision relative =
      on_world (H.resolve (temporary_root ++ "repo" ∷ relative))
      >>= find_directory original git_root temporary_root revision relative

  abbrev pub after_add :
      List String
      → List String
      → List String
      → String
      → List String
      → Completed
      → Action (Held H.World) ActiveWorkspace
  after_add original git_root temporary_root revision relative completed =
      branch (not (is_code 0 completed.returncode)) (give_up_adding temporary_root completed)
        (enter_worktree original git_root temporary_root revision relative)

  abbrev pub add_worktree :
      List String
      → List String
      → String
      → List String
      → List String
      → Action (Held H.World) ActiveWorkspace
  add_worktree original git_root revision relative temporary_root =
      on_world (
        H.git git_root
          ("worktree"
            ∷ "add"
            ∷ "--detach"
            ∷ as_posix (temporary_root ++ "repo" ∷ [])
            ∷ revision
            ∷ [])
          60)
      >>= after_add original git_root temporary_root revision relative

  abbrev pub begin_worktree :
      List String
      → List String
      → String
      → Option (List String)
      → Action (Held H.World) ActiveWorkspace
  begin_worktree original git_root revision none =
      raise (runtime_error "workspace is outside its reported Git root")
  begin_worktree original git_root revision (some relative) =
      on_world (H.mkdtemp "pyfixagent-worktree-" >>= H.resolve)
      >>= add_worktree original git_root revision relative

  abbrev pub begin_isolated :
      List String → List String → Option String → Action (Held H.World) ActiveWorkspace
  begin_isolated original git_root none =
      raise (runtime_error "workspace Git repository has no HEAD commit")
  begin_isolated original git_root (some revision) =
      begin_worktree original git_root revision (relative_to git_root original)

  abbrev pub begin_in_place :
      List String → List String → Option String → Action (Held H.World) ActiveWorkspace
  begin_in_place original git_root revision h =
      set_active h.transaction.temporary_root
        (record {
          original_workspace = original;
          workspace = original;
          git_root = git_root;
          revision = elim revision [ none ↦ "" | some r ↦ r ];
          isolated = false;
        })
        h

  abbrev pub begin_by :
      Transaction → Option String → List String → Action (Held H.World) ActiveWorkspace
  begin_by t revision git_root =
      branch t.isolate (begin_isolated t.original_workspace git_root revision)
        (begin_in_place t.original_workspace git_root revision)

  abbrev pub begin_at :
      Transaction → WorkspaceState → Option String → Action (Held H.World) ActiveWorkspace
  begin_at t state none =
      raise (runtime_error (or_text? state.error "workspace is not inside a Git working tree"))
  begin_at t state (some root) =
      on_world (H.resolve (path_parts root)) >>= begin_by t state.revision

  abbrev pub begin_unless :
      Option ActiveWorkspace → WorkspaceState → Action (Held H.World) ActiveWorkspace
  begin_unless (some a) state h =
      (raised (runtime_error "workspace transaction has already started"), h)
  begin_unless none state h = begin_at h.transaction state state.git_root h

  unfoldable pub begin : WorkspaceState → Action (Held H.World) ActiveWorkspace
  begin state h = begin_unless h.transaction.active state h
