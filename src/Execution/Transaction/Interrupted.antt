-- ===== src/Execution/Transaction/Interrupted.antt =====
-- What a `begin` that git interrupts leaves behind.
use pyfix_agent.Base.{◌≡◌, refl, ℕ, String, true, Option, none, some, List}
use pyfix_agent.Base.Outcome.{
  Outcome, returned, raised, Action, Ensures, Ensures-branch, resume, ◌>>=◌,
}
use pyfix_agent.Base.Paths.{path_parts, relative_to}
use pyfix_agent.Execution.Host.{WorkspaceHost}
use pyfix_agent.Execution.Workspace.{WorkspaceState}
use pyfix_agent.Execution.Transaction.{
  ActiveWorkspace, Transaction, Held, with_world, on_world, closed, add_worktree, begin_worktree,
  begin_isolated, begin_in_place, begin_by, begin_at, begin_unless, begin,
}
use pyfix_agent.Execution.Transaction.Use.{close_active, close}
use pyfix_agent.Execution.Transaction.Isolation.{Keeps-then, kept_of}

module _ (H : WorkspaceHost) (I : H.World → Type 0) where
  -- Every command of git is cut off, as by its time limit, and keeps what is said of the world.
  abbrev pub IsCutOff : Type 0
  IsCutOff =
      (cwd args : List String) (seconds : ℕ) (w : H.World)
      → I w
      → Ensures (λ _ _. ⊥) I (H.git cwd args seconds w)

  abbrev pub KeptByResolve : Type 0
  KeptByResolve = (path : List String) (w : H.World) → I w → I (H.resolve path w).1

  abbrev pub KeptByMkdtemp : Type 0
  KeptByMkdtemp = (prefix : String) (w : H.World) → I w → I (H.mkdtemp prefix w).1

  -- The call raised, and left the transaction as it was.
  abbrev pub Raised : Transaction → {A : Type 0} → Outcome A × Held H.World → Type 0
  Raised t = Ensures (λ _ _. ⊥) (λ u. I u.world × (u.transaction ≡ t))

  module _ (t : Transaction) (cut_off : IsCutOff) (resolves : KeptByResolve)
      (makes : KeptByMkdtemp) where
    call-Raised :
        {A B : Type 0} (r : Outcome A × H.World) (h : Held H.World)
        (k : A → Action (Held H.World) B)
        → Ensures (λ _ v. I v) I r
        → h.transaction ≡ t
        → ((a : A) (w : H.World) → I w → Raised t (k a (record h { world = w })))
        → Raised t (resume (with_world h r) k)
    call-Raised (returned a, w) h k i e f = f a w i
    call-Raised (raised x, w) h k i e f = (i, e)

    cut-Raised :
        {A B : Type 0} (r : Outcome A × H.World) (h : Held H.World)
        (k : A → Action (Held H.World) B)
        → Ensures (λ _ _. ⊥) I r
        → h.transaction ≡ t
        → Raised t (resume (with_world h r) k)
    cut-Raised (returned a, w) h k i e = absurd i
    cut-Raised (raised x, w) h k i e = (i, e)

    worktree-Raised :
        (git_root : List String) (revision : String) (relative : Option (List String))
        (h : Held H.World)
        → I h.world
        → h.transaction ≡ t
        → Raised t (begin_worktree H t.original_workspace git_root revision relative h)
    worktree-Raised git_root revision none h i e = (i, e)
    worktree-Raised git_root revision (some relative) h i e =
        call-Raised ((H.mkdtemp "pyfixagent-worktree-" >>= H.resolve) h.world) h
          (add_worktree H t.original_workspace git_root revision relative)
          (Keeps-then H I (H.mkdtemp "pyfixagent-worktree-") H.resolve
            (λ w j. kept_of H I (H.mkdtemp "pyfixagent-worktree-" w) (makes _ w j))
            (λ path w j. kept_of H I (H.resolve path w) (resolves path w j)) h.world i)
          e
          (λ temporary w j.
            cut-Raised (H.git git_root _ 60 w) (record h { world = w }) _
              (cut_off git_root _ 60 w j) e)

    isolated-Raised :
        (git_root : List String) (revision : Option String) (h : Held H.World)
        → I h.world
        → h.transaction ≡ t
        → Raised t (begin_isolated H t.original_workspace git_root revision h)
    isolated-Raised git_root none h i e = (i, e)
    isolated-Raised git_root (some revision) h i e =
        worktree-Raised git_root revision (relative_to git_root t.original_workspace) h i e

    begin_at-Raised :
        (state : WorkspaceState) (root : Option String) (h : Held H.World)
        → I h.world
        → h.transaction ≡ t
        → t.isolate ≡ true
        → Raised t (begin_at H t state root h)
    begin_at-Raised state none h i e o = (i, e)
    begin_at-Raised state (some root) h i e o =
        call-Raised (H.resolve (path_parts root) h.world) h (begin_by H t state.revision)
          (kept_of H I (H.resolve (path_parts root) h.world) (resolves _ h.world i)) e
          (λ git_root w j.
            Ensures-branch (λ _ _. ⊥) (λ u. I u.world × (u.transaction ≡ t)) t.isolate
              (begin_isolated H t.original_workspace git_root state.revision)
              (begin_in_place H t.original_workspace git_root state.revision)
              (record h { world = w })
              (λ p. isolated-Raised git_root state.revision (record h { world = w }) j e)
              (λ p. absurd (cc)))

  begin_unless-Raised :
      (h : Held H.World) (active : Option ActiveWorkspace) (state : WorkspaceState)
      → IsCutOff
      → KeptByResolve
      → KeptByMkdtemp
      → I h.world
      → h.transaction.isolate ≡ true
      → active ≡ none
      → Raised h.transaction (begin_unless H active state h)
  begin_unless-Raised h none state cut_off resolves makes i o a =
      begin_at-Raised h.transaction cut_off resolves makes state state.git_root h i refl o
  begin_unless-Raised h (some active) state cut_off resolves makes i o a = absurd (cc)

  -- Where git is cut off every time, whatever is kept by making a temporary directory, by resolving a
  -- path and by git itself is kept by a `begin` of an isolating transaction and by a `close` after it,
  -- also if removing a directory would not keep it, as that every directory that was made is still
  -- there: the temporary directory is never removed. The `begin` raises, and the `close` returns and
  -- leaves the transaction without an active workspace and without a temporary root.
  pub begin_interrupted :
      (state : WorkspaceState) (h : Held H.World)
      → IsCutOff
      → KeptByResolve
      → KeptByMkdtemp
      → h.transaction.active ≡ none
      → h.transaction.isolate ≡ true
      → I h.world
      → let begun = begin H state h in
        Ensures (λ _ _. ⊥) (λ u. I u.world) begun
        × Ensures
            (λ _ u. I u.world × (u.transaction ≡ closed h.transaction))
            (λ _. ⊥)
            (close H begun.1)
  unfolding begin close
  begin_interrupted state h cut_off resolves makes idle isolate i =
      closed_after (begin_unless H h.transaction.active state h)
        (begin_unless-Raised h h.transaction.active state cut_off resolves makes i isolate idle)
        idle
    where
      closed_after :
          (r : Outcome ActiveWorkspace × Held H.World)
          → Raised h.transaction r
          → h.transaction.active ≡ none
          → Ensures (λ _ _. ⊥) (λ u. I u.world) r
            × Ensures
                (λ _ u. I u.world × (u.transaction ≡ closed h.transaction))
                (λ _. ⊥)
                (on_world
                  (close_active H r.1.transaction.active r.1.transaction.temporary_root)
                  (record r.1 { transaction = closed r.1.transaction }))
      closed_after (returned a, u) p e = absurd p
      closed_after (raised x, u) (j, f) e = (j, rw (f, e) (j, refl))
