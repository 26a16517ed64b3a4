-- ===== src/Execution/Transaction/Isolation.antt =====
-- Where the commands of a transaction run.
use pyfix_agent.Base.{
  ◌≡◌, arith, strip, if◌then◌else◌, refl, ℕ, String, Bool, true, not, Option, none, some, List, [],
  ◌∷◌,
}
use pyfix_agent.Base.Int.{is_code}
use pyfix_agent.Base.Outcome.{
  Outcome, returned, raised, Action, pure, raise, branch, Ensures, Ensures-seq, Ensures-branch,
  ◌>>=◌,
}
use pyfix_agent.Execution.Host.{Completed, WorkspaceHost}
use pyfix_agent.Execution.Transaction.{ActiveWorkspace, Held, with_world, git_error}
use pyfix_agent.Execution.Transaction.Use.{
  active_or, run_git, head, commit_args, after_staging, checkpoint_active, checkpoint,
  rollback_active, rollback,
}

module _ (H : WorkspaceHost) (I : H.World → Type 0) where
  abbrev pub Keeps : {A : Type 0} → Action H.World A → Type 0
  Keeps m = (w : H.World) → I w → Ensures (λ _ v. I v) I (m w)

  pub Keeps-then :
      {A B : Type 0} (m : Action H.World A) (k : A → Action H.World B)
      → Keeps m
      → ((a : A) → Keeps (k a))
      → Keeps (m >>= k)
  Keeps-then m k f g w i =
      Ensures-seq (λ _ v. I v) I (λ _ v. I v) I (m w) k (f w i) (λ v j. j) (λ a v j. g a v j)

  Keeps-branch :
      {A : Type 0} (b : Bool) (m n : Action H.World A) → Keeps m → Keeps n → Keeps (branch b m n)
  Keeps-branch b m n f g w i = Ensures-branch (λ _ v. I v) I b m n w (λ _. f w i) (λ _. g w i)

  world_kept :
      {A : Type 0} (r : Outcome A × H.World) (h : Held H.World)
      → Ensures (λ _ v. I v) I r
      → I (with_world h r).1.world
  world_kept (returned a, w) h i = i
  world_kept (raised x, w) h i = i

  pub kept_of : {A : Type 0} (r : Outcome A × H.World) → I r.1 → Ensures (λ _ v. I v) I r
  kept_of (returned a, w) i = i
  kept_of (raised x, w) i = i

  -- The commands of git in a directory keep what is said of the world.
  abbrev pub KeptIn : List String → Type 0
  KeptIn cwd = (args : List String) (w : H.World) → I w → I (H.git cwd args 30 w).1

  module _ (cwd : List String) (kept : KeptIn cwd) where
    git-Keeps : (args : List String) → Keeps (H.git cwd args 30)
    git-Keeps args w i = kept_of (H.git cwd args 30 w) (kept args w i)

    run_git-Keeps : (args : List String) (fallback : String) → Keeps (run_git H cwd args fallback)
    run_git-Keeps args fallback =
        Keeps-then (H.git cwd args 30)
          (λ c. branch (not (is_code 0 c.returncode)) (raise (git_error c fallback)) (pure tt))
          (git-Keeps args)
          (λ c.
            Keeps-branch (not (is_code 0 c.returncode)) (raise (git_error c fallback)) (pure tt)
              (λ w i. i) (λ w i. i))

    head-Keeps : Keeps (head H cwd)
    unfolding head
    head-Keeps =
        Keeps-then (H.git cwd ("rev-parse" ∷ "HEAD" ∷ []) 30)
          (λ c. pure (if is_code 0 c.returncode then some (strip c.stdout) else none))
          (git-Keeps ("rev-parse" ∷ "HEAD" ∷ [])) (λ c w i. i)

    after_staging-Keeps :
        (iteration : ℕ) (kind : String) (staged : Completed)
        → Keeps (after_staging H iteration kind cwd staged)
    after_staging-Keeps iteration kind staged =
        let commit =
          run_git H cwd (commit_args H iteration kind) "failed to create worktree checkpoint" in
        let failure = git_error staged "failed to inspect worktree checkpoint" in
        Keeps-branch (is_code 0 staged.returncode) (head H cwd)
          (branch (not (is_code 1 staged.returncode)) (raise failure) (commit >>= λ _. head H cwd))
          head-Keeps
          (Keeps-branch (not (is_code 1 staged.returncode)) (raise failure)
            (commit >>= λ _. head H cwd) (λ w i. i)
            (Keeps-then commit (λ _. head H cwd)
              (run_git-Keeps (commit_args H iteration kind) "failed to create worktree checkpoint")
              (λ _. head-Keeps)))

  -- What is known of the commands in the worktree of the active workspace, if it has one.
  abbrev pub KeptInWorktree : Option ActiveWorkspace → Type 0
  KeptInWorktree active =
      (a : ActiveWorkspace) → active ≡ some a → a.isolated ≡ true → KeptIn a.workspace

  active_or-Keeps :
      {A : Type 0} (active : Option ActiveWorkspace) (k : ActiveWorkspace → Action H.World A)
      → ((a : ActiveWorkspace) → active ≡ some a → Keeps (k a))
      → Keeps (active_or H active k)
  active_or-Keeps none k f = λ w i. i
  active_or-Keeps (some a) k f = f a refl

  rollback_active-Keeps :
      (a : ActiveWorkspace) → (a.isolated ≡ true → KeptIn a.workspace) → Keeps (rollback_active H a)
  rollback_active-Keeps a kept = λ w i.
      Ensures-branch (λ _ v. I v) I (not a.isolated) (pure tt)
        (run_git H a.workspace ("reset" ∷ "--hard" ∷ "HEAD" ∷ []) "failed to roll back worktree"
          >>= λ _.
              run_git H a.workspace ("clean" ∷ "-fd" ∷ "--" ∷ "." ∷ [])
                "failed to clean rolled-back worktree")
        w (λ _. i)
        (λ e.
          let inside = kept (ground (arith, e)) in
          Keeps-then
            (run_git H a.workspace ("reset" ∷ "--hard" ∷ "HEAD" ∷ [])
              "failed to roll back worktree")
            (λ _.
              run_git H a.workspace ("clean" ∷ "-fd" ∷ "--" ∷ "." ∷ [])
                "failed to clean rolled-back worktree")
            (run_git-Keeps a.workspace inside ("reset" ∷ "--hard" ∷ "HEAD" ∷ [])
              "failed to roll back worktree")
            (λ _.
              run_git-Keeps a.workspace inside ("clean" ∷ "-fd" ∷ "--" ∷ "." ∷ [])
                "failed to clean rolled-back worktree")
            w i)

  checkpoint_active-Keeps :
      (iteration : ℕ) (kind : String) (a : ActiveWorkspace)
      → (a.isolated ≡ true → KeptIn a.workspace)
      → Keeps (checkpoint_active H iteration kind a)
  checkpoint_active-Keeps iteration kind a kept = λ w i.
      let stage =
        run_git H a.workspace ("add" ∷ "-A" ∷ "--" ∷ "." ∷ [])
          "failed to stage worktree checkpoint" in
      let look = H.git a.workspace ("diff" ∷ "--cached" ∷ "--quiet" ∷ "--" ∷ "." ∷ []) 30 in
      Ensures-branch (λ _ v. I v) I (not a.isolated) (pure none)
        (stage >>= λ _. look >>= after_staging H iteration kind a.workspace) w (λ _. i)
        (λ e.
          let inside = kept (ground (arith, e)) in
          Keeps-then stage (λ _. look >>= after_staging H iteration kind a.workspace)
            (run_git-Keeps a.workspace inside ("add" ∷ "-A" ∷ "--" ∷ "." ∷ [])
              "failed to stage worktree checkpoint")
            (λ _.
              Keeps-then look (after_staging H iteration kind a.workspace)
                (git-Keeps a.workspace inside ("diff" ∷ "--cached" ∷ "--quiet" ∷ "--" ∷ "." ∷ []))
                (after_staging-Keeps a.workspace inside iteration kind))
            w i)

  -- Whatever is kept by the commands of git in the worktree of the active workspace is kept by a
  -- rollback and by a checkpoint: in a transaction that works in place, or is not active, they change
  -- nothing.
  pub rollback-kept :
      (h : Held H.World) (iteration : ℕ) (kind : String)
      → KeptInWorktree h.transaction.active
      → I h.world
      → I (rollback H h).1.world × I (checkpoint H iteration kind h).1.world
  unfolding rollback checkpoint
  rollback-kept h iteration kind kept i = (
    world_kept (active_or H h.transaction.active (rollback_active H) h.world) h (
        active_or-Keeps h.transaction.active (rollback_active H)
          (λ a e. rollback_active-Keeps a (kept a e)) h.world i),
    world_kept (active_or H h.transaction.active (checkpoint_active H iteration kind) h.world) h (
        active_or-Keeps h.transaction.active (checkpoint_active H iteration kind)
          (λ a e. checkpoint_active-Keeps iteration kind a (kept a e)) h.world i),
  )
