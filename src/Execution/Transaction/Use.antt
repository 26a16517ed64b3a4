-- ===== src/Execution/Transaction/Use.antt =====
-- The other methods of execution/workspace_transaction.py: `close`, `checkpoint`, `rollback`,
-- `final_diff`.
use pyfix_agent.Base.{
  ℕ, String, ◌<>◌, not, Option, none, some, List, [], ◌∷◌, show, truthy, strip, if◌then◌else◌,
}
use pyfix_agent.Base.Int.{is_code}
use pyfix_agent.Base.Outcome.{runtime_error, Action, pure, raise, branch, ◌>>=◌, ◌>>◌}
use pyfix_agent.Execution.Host.{Completed, WorkspaceHost}
use pyfix_agent.Execution.Transaction.{
  ActiveWorkspace, Held, on_world, git_error, closed, safe_remove, remove_worktree,
}

module _ (H : WorkspaceHost) where
  abbrev pub removed : Option String → Action H.World (Unit {0})
  removed none = pure tt
  removed (some m) = branch (truthy m) (raise (runtime_error m)) (pure tt)

  abbrev pub after_removal : Option (List String) → Option String → Action H.World (Unit {0})
  after_removal none error = removed error
  after_removal (some root) error = safe_remove H root >> removed error

  abbrev pub close_active :
      Option ActiveWorkspace → Option (List String) → Action H.World (Unit {0})
  close_active none root = pure tt
  close_active (some a) root = branch (not a.isolated) (pure tt) (
      H.resolve a.original_workspace >>= λ cwd.
      remove_worktree H cwd a.git_root >>= after_removal root)

  unfoldable pub close : Action (Held H.World) (Unit {0})
  close h =
      on_world (close_active h.transaction.active h.transaction.temporary_root)
        (record h { transaction = closed h.transaction })

  -- `_require_active`, and what follows it
  abbrev pub active_or :
      {A : Type 0}
      → Option ActiveWorkspace
      → (ActiveWorkspace → Action H.World A)
      → Action H.World A
  active_or none k = raise (runtime_error "workspace transaction has not started")
  active_or (some a) k = k a

  abbrev pub require_active :
      {A : Type 0} → (ActiveWorkspace → Action H.World A) → Action (Held H.World) A
  require_active k h = on_world (active_or h.transaction.active k) h

  -- A command of git that has to end with 0.
  abbrev pub run_git : List String → List String → String → Action H.World (Unit {0})
  run_git cwd args fallback = H.git cwd args 30 >>= λ c.
      branch (not (is_code 0 c.returncode)) (raise (git_error c fallback)) (pure tt)

  -- `_head`
  unfoldable pub head : List String → Action H.World (Option String)
  head workspace = H.git workspace ("rev-parse" ∷ "HEAD" ∷ []) 30 >>= λ c.
      pure (if is_code 0 c.returncode then some (strip c.stdout) else none)

  abbrev pub commit_args : ℕ → String → List String
  commit_args iteration kind =
      "-c"
      ∷ "user.name=PyFixAgent"
      ∷ "-c"
      ∷ "user.email=pyfixagent@local.invalid"
      ∷ "commit"
      ∷ "--no-verify"
      ∷ "--no-gpg-sign"
      ∷ "-m"
      ∷ ("pyfixagent: checkpoint " <> kind <> " " <> show iteration)
      ∷ []

  abbrev pub after_staging : ℕ → String → List String → Completed → Action H.World (Option String)
  after_staging iteration kind workspace staged =
      branch (is_code 0 staged.returncode) (head workspace) (
        branch (not (is_code 1 staged.returncode))
          (raise (git_error staged "failed to inspect worktree checkpoint"))
          (run_git workspace (commit_args iteration kind) "failed to create worktree checkpoint"
            >> head workspace))

  abbrev pub checkpoint_active : ℕ → String → ActiveWorkspace → Action H.World (Option String)
  checkpoint_active iteration kind a = branch (not a.isolated) (pure none) (
      run_git a.workspace ("add" ∷ "-A" ∷ "--" ∷ "." ∷ []) "failed to stage worktree checkpoint"
      >> (H.git a.workspace ("diff" ∷ "--cached" ∷ "--quiet" ∷ "--" ∷ "." ∷ []) 30
          >>= after_staging iteration kind a.workspace))

  unfoldable pub checkpoint : ℕ → String → Action (Held H.World) (Option String)
  checkpoint iteration kind = require_active (checkpoint_active iteration kind)

  abbrev pub rollback_active : ActiveWorkspace → Action H.World (Unit {0})
  rollback_active a = branch (not a.isolated) (pure tt) (
      run_git a.workspace ("reset" ∷ "--hard" ∷ "HEAD" ∷ []) "failed to roll back worktree"
      >> run_git a.workspace ("clean" ∷ "-fd" ∷ "--" ∷ "." ∷ [])
          "failed to clean rolled-back worktree")

  unfoldable pub rollback : Action (Held H.World) (Unit {0})
  rollback = require_active rollback_active

  abbrev pub diff_of : Completed → Action H.World String
  diff_of c =
      branch (not (is_code 0 c.returncode)) (raise (git_error c "failed to export final patch"))
        (pure c.stdout)

  abbrev pub diff_active : ActiveWorkspace → Action H.World String
  diff_active a =
      branch a.isolated
        (H.git a.git_root ("diff" ∷ "--binary" ∷ a.revision ∷ "HEAD" ∷ "--" ∷ "." ∷ []) 30
          >>= diff_of)
        (H.git a.workspace ("diff" ∷ "--binary" ∷ "--" ∷ "." ∷ []) 30 >>= diff_of)

  unfoldable pub final_diff : Action (Held H.World) String
  final_diff = require_active diff_active
