-- ===== src/Execution/Transaction/Beginning.antt =====
-- `WorkspaceTransaction.begin`: what it makes of a transaction, however it ends.
use pyfix_agent.Base.{
  ◌≡◌, refl, or_text, strip, String, ◌<>◌, Bool, true, false, not, Option, none, some, List, [],
  ◌∷◌, ◌++◌,
}
use pyfix_agent.Base.Int.{is_code}
use pyfix_agent.Base.Outcome.{
  Exception, runtime_error, Outcome, returned, raised, Action, raise, Ensures, Ensures-branch,
  resume, ◌>>=◌, ◌>>◌,
}
use pyfix_agent.Base.Paths.{path_parts, relative_to, as_posix}
use pyfix_agent.Execution.Host.{Completed, WorkspaceHost}
use pyfix_agent.Execution.Workspace.{WorkspaceState}
use pyfix_agent.Execution.Transaction.{
  ActiveWorkspace, Transaction, Held, with_world, with_active, safe_remove, remove_worktree,
  after_worktree, after_add, give_up_adding, find_directory, enter_worktree, add_worktree, begin_by,
  git_error, begin_worktree, begin_isolated, begin_in_place, begin_at, begin_unless, begin,
}

-- The active workspace of a transaction, and where its worktree is: a transaction that does not
-- isolate works in the original workspace, one that does in a repository in a temporary root.
abbrev pub Opened : Transaction → Bool → ActiveWorkspace → Option (List String) → Type 0
Opened t false a root =
    (a.isolated ≡ false) × (a.workspace ≡ t.original_workspace) × (root ≡ t.temporary_root)
Opened t true a root =
    (a.isolated ≡ true)
    × ((temporary : List String) × (root ≡ some temporary)
        × (a.git_root ≡ temporary ++ "repo" ∷ []))

abbrev pub Began : {W : Type 0} → Transaction → ActiveWorkspace → Held W → Type 0
Began t a h =
    (root : Option (List String)) × (h.transaction ≡ with_active root a t)
    × Opened t t.isolate a root

abbrev pub Kept : {W : Type 0} → Transaction → Held W → Type 0
Kept t h = h.transaction ≡ t

module _ {W A B : Type 0} (Q : B → Held W → Type 0) (t : Transaction) where
  -- A call on the world keeps the transaction; what follows goes on with it.
  world-then :
      (r : Outcome A × W) (h : Held W) (k : A → Action (Held W) B)
      → h.transaction ≡ t
      → ((a : A) (w : W) → Ensures Q (Kept t) (k a (record h { world = w })))
      → Ensures Q (Kept t) (resume (with_world h r) k)
  world-then (returned a, w) h k e n = n a w
  world-then (raised x, w) h k e n = e

-- A call that ends in a raise, which is all that follows a call on the world.
raised_after :
    {W A : Type 0} (B : Type 0) (Q : B → Held W → Type 0) (t : Transaction) (r : Outcome A × W)
    (x : Exception) (h : Held W)
    → h.transaction ≡ t
    → Ensures Q (Kept t) (with_world h (resume r (λ _. raise {S = W} {A = B} x)))
raised_after B Q t (returned a, w) x h e = e
raised_after B Q t (raised y, w) x h e = e

module _ (H : WorkspaceHost) (t : Transaction) where
  abbrev Begins : Outcome ActiveWorkspace × Held H.World → Type 0
  Begins = Ensures (Began t) (Kept t)

  after_worktree-Begins :
      (git_root temporary_root : List String) (revision : String) (relative workspace : List String)
      (there : Bool) (h : Held H.World)
      → t.isolate ≡ true
      → h.transaction ≡ t
      → Begins (
          after_worktree H t.original_workspace git_root temporary_root revision relative workspace
            there h)
  after_worktree-Begins git_root temporary revision relative workspace false h i e =
      let removal = remove_worktree H git_root (temporary ++ "repo" ∷ []) h.world in missing removal
    where
      missing :
          (r : Outcome (Option String) × H.World)
          → Begins (
              with_world h (
                resume r (λ error.
                  safe_remove H temporary
                  >> raise (
                      runtime_error (
                        "workspace path is missing from temporary worktree: "
                        <> as_posix relative)))))
      missing (returned error, w) =
          raised_after ActiveWorkspace (Began t) t (safe_remove H temporary w) _ h e
      missing (raised x, w) = e
  after_worktree-Begins git_root temporary revision relative workspace true h i e =
      (some temporary, rw e refl, rw i (refl, (temporary, refl, refl)))

  find_directory-Begins :
      (git_root temporary_root : List String) (revision : String) (relative workspace : List String)
      (h : Held H.World)
      → t.isolate ≡ true
      → h.transaction ≡ t
      → Begins (
          find_directory H t.original_workspace git_root temporary_root revision relative workspace
            h)
  find_directory-Begins git_root temporary revision relative workspace h i e =
      world-then (Began t) t (H.is_dir workspace h.world) h
        (after_worktree H t.original_workspace git_root temporary revision relative workspace) e
        (λ there w.
          after_worktree-Begins git_root temporary revision relative workspace there
            (record h { world = w }) i e)

  after_add-Begins :
      (git_root temporary_root : List String) (revision : String) (relative : List String)
      (completed : Completed) (h : Held H.World)
      → t.isolate ≡ true
      → h.transaction ≡ t
      → Begins
          (after_add H t.original_workspace git_root temporary_root revision relative completed h)
  after_add-Begins git_root temporary revision relative completed h i e =
      Ensures-branch (Began t) (Kept t) (not (is_code 0 completed.returncode))
        (give_up_adding H temporary completed)
        (enter_worktree H t.original_workspace git_root temporary revision relative) h
        (λ f.
          raised_after ActiveWorkspace (Began t) t (safe_remove H temporary h.world)
            (git_error completed (or_text (strip completed.stdout) "git worktree add failed")) h e)
        (λ f.
          world-then (Began t) t (H.resolve (temporary ++ "repo" ∷ relative) h.world) h
            (find_directory H t.original_workspace git_root temporary revision relative) e
            (λ workspace w.
              find_directory-Begins git_root temporary revision relative workspace
                (record h { world = w }) i e))

  add_worktree-Begins :
      (git_root : List String) (revision : String) (relative temporary_root : List String)
      (h : Held H.World)
      → t.isolate ≡ true
      → h.transaction ≡ t
      → Begins (add_worktree H t.original_workspace git_root revision relative temporary_root h)
  add_worktree-Begins git_root revision relative temporary h i e =
      world-then (Began t) t (H.git git_root _ 60 h.world) h
        (after_add H t.original_workspace git_root temporary revision relative) e
        (λ completed w.
          after_add-Begins git_root temporary revision relative completed (record h { world = w }) i
            e)

  begin_worktree-Begins :
      (git_root : List String) (revision : String) (relative : Option (List String))
      (h : Held H.World)
      → t.isolate ≡ true
      → h.transaction ≡ t
      → Begins (begin_worktree H t.original_workspace git_root revision relative h)
  begin_worktree-Begins git_root revision none h i e = e
  begin_worktree-Begins git_root revision (some relative) h i e =
      world-then (Began t) t ((H.mkdtemp "pyfixagent-worktree-" >>= H.resolve) h.world) h
        (add_worktree H t.original_workspace git_root revision relative) e
        (λ temporary w.
          add_worktree-Begins git_root revision relative temporary (record h { world = w }) i e)

  begin_isolated-Begins :
      (git_root : List String) (revision : Option String) (h : Held H.World)
      → t.isolate ≡ true
      → h.transaction ≡ t
      → Begins (begin_isolated H t.original_workspace git_root revision h)
  begin_isolated-Begins git_root none h i e = e
  begin_isolated-Begins git_root (some revision) h i e =
      begin_worktree-Begins git_root revision (relative_to git_root t.original_workspace) h i e

  begin_in_place-Begins :
      (git_root : List String) (revision : Option String) (h : Held H.World)
      → t.isolate ≡ false
      → h.transaction ≡ t
      → Begins (begin_in_place H t.original_workspace git_root revision h)
  begin_in_place-Begins git_root revision h i e =
      (h.transaction.temporary_root, rw e refl, rw (i, e) (refl, refl, refl))

  begin_at-Begins :
      (state : WorkspaceState) (root : Option String) (h : Held H.World)
      → h.transaction ≡ t
      → Begins (begin_at H t state root h)
  begin_at-Begins state none h e = e
  begin_at-Begins state (some root) h e =
      world-then (Began t) t (H.resolve (path_parts root) h.world) h (begin_by H t state.revision) e
        (λ git_root w.
          Ensures-branch (Began t) (Kept t) t.isolate
            (begin_isolated H t.original_workspace git_root state.revision)
            (begin_in_place H t.original_workspace git_root state.revision) (record h { world = w })
            (λ i. begin_isolated-Begins git_root state.revision (record h { world = w }) i e)
            (λ i. begin_in_place-Begins git_root state.revision (record h { world = w }) i e))

-- However `begin` ends, on a transaction that is not active: it returned an active workspace, which is
-- now the transaction's, in place or in a worktree as the transaction says; or it raised, and the
-- transaction is as it was.
pub begin-Began :
    (H : WorkspaceHost) (state : WorkspaceState) (h : Held H.World)
    → h.transaction.active ≡ none
    → Ensures (Began h.transaction) (Kept h.transaction) (begin H state h)
unfolding begin
begin-Began H state h e = idle h.transaction.active e
  where
    idle :
        (a : Option ActiveWorkspace)
        → a ≡ none
        → Ensures (Began h.transaction) (Kept h.transaction) (begin_unless H a state h)
    idle (some a) q = absurd (cc)
    idle none q = begin_at-Begins H h.transaction state state.git_root h refl
