-- ===== src/Execution/Session/Preparing.antt =====
-- What `WorkspaceSession.prepare` makes of a session.
use pyfix_agent.Base.{◌≡◌, refl, ap, String, Bool, true, false, Option, none, some, if◌then◌else◌}
use pyfix_agent.Base.Outcome.{
  os_error, runtime_error, value_error, other_error, Outcome, returned, raised, Ensures, resume,
  pure,
}
use pyfix_agent.Base.Paths.{as_posix}
use pyfix_agent.Execution.Contracts.{PreparedWorkspace}
use pyfix_agent.Execution.Host.{WorkspaceHost}
use pyfix_agent.Execution.Workspace.{WorkspaceState, inspect_workspace, clean_workspace_error}
use pyfix_agent.Execution.Workspace.Clean.{
  IsClean, clean_workspace_error-truthy, clean_workspace_error-IsClean,
}
use pyfix_agent.Execution.Transaction.{ActiveWorkspace, Transaction, Held, with_world, begin}
use pyfix_agent.Execution.Transaction.Beginning.{Began, Kept, begin-Began}
use pyfix_agent.Execution.Session.{
  WorkspaceSession, prepared, after_begin, begin_session, unless_error, cleanness, prepare,
}

-- A prepared workspace, against the transaction before and after: it names the active workspace, or
-- it has an error and the transaction is as it was.
pub data Preparation (t : Transaction) (p : PreparedWorkspace) (u : Transaction) : Type 0 where
  ready :
      (a : ActiveWorkspace)
      → p.error ≡ none
      → u.active ≡ some a
      → p.workspace ≡ as_posix a.workspace
      → Preparation t p u
  refused : (m : String) → p.error ≡ some m → u ≡ t → Preparation t p u

module _ (H : WorkspaceHost) (s : WorkspaceSession) where
  -- What was inspected, where the session asks for a clean workspace.
  abbrev pub Guarded : PreparedWorkspace → Type 0
  Guarded p =
      p.error ≡ none
      → s.require_clean ≡ true
      → (state : WorkspaceState) × (v w : H.World) × (inspect_workspace H s.workspace v
          ≡ (returned state, w))
        × IsClean state

  abbrev pub Prepares : Transaction → Outcome PreparedWorkspace × Held H.World → Type 0
  Prepares t = Ensures (λ p h. Preparation t p h.transaction × Guarded p) (λ _. Unit {0})

  listed :
      (t : Transaction) (state : WorkspaceState) (i : Bool) (a : ActiveWorkspace) (h : Held H.World)
      (r : Outcome String × H.World)
      → h.transaction.active ≡ some a
      → Guarded (prepared s state i a "")
      → Prepares t (resume (with_world h r) (λ files. pure (prepared s state i a files)))
  listed t state i a h (returned files, w) e g = (ready a refl e refl, g)
  listed t state i a h (raised x, w) e g = tt

  after_begin-Prepares :
      (t : Transaction) (state : WorkspaceState) (r : Outcome ActiveWorkspace × Held H.World)
      → (s.require_clean ≡ true
          → (v w : H.World) × (inspect_workspace H s.workspace v ≡ (returned state, w))
            × IsClean state)
      → Ensures (Began t) (Kept t) r
      → Prepares t (after_begin H s state r)
  after_begin-Prepares t state (returned a, h) g (root, k, o) =
      listed t state h.transaction.isolate a h (H.list_files a.workspace h.world)
        (ap (λ u. u.active) k) (λ _ c. let (v, w, q, clean) = g c in (state, v, w, q, clean))
  after_begin-Prepares t state (raised (os_error m), h) g k = (refused m refl k, λ e. absurd (cc))
  after_begin-Prepares t state (raised (runtime_error m), h) g k =
      (refused m refl k, λ e. absurd (cc))
  after_begin-Prepares t state (raised (value_error m), h) g k = tt
  after_begin-Prepares t state (raised (other_error m), h) g k = tt

  inspected :
      (state : WorkspaceState) (h : Held H.World) (v w : H.World)
      → h.transaction.active ≡ none
      → inspect_workspace H s.workspace v ≡ (returned state, w)
      → Prepares h.transaction (unless_error H s state (cleanness H s state) h)
  inspected state h v w e q = guarded s.require_clean refl
    where
      begun :
          (s.require_clean ≡ true → IsClean state)
          → Prepares h.transaction (begin_session H s state h)
      begun g =
          after_begin-Prepares h.transaction state (begin H state h) (λ c. (v, w, q, g c))
            (begin-Began H state h e)

      checked :
          (o : Option String)
          → clean_workspace_error state ≡ o
          → Prepares h.transaction (unless_error H s state o h)
      checked none k = begun (λ _. (clean_workspace_error-IsClean state).0 k)
      checked (some m) k =
          rw (clean_workspace_error-truthy state m k) (refused m refl refl, λ e. absurd (cc))

      guarded :
          (b : Bool)
          → s.require_clean ≡ b
          → Prepares h.transaction
              (unless_error H s state (if b then clean_workspace_error state else none) h)
      guarded false c = begun (λ d. absurd (cc))
      guarded true c = checked (clean_workspace_error state) refl

  -- Preparing a session whose transaction is not active, if it does not raise, ends in one of two ways:
  -- without an error, with the active workspace of the transaction, and then, where the session asks
  -- for it, git said that the workspace is clean; or with an error, and the transaction is as it was.
  pub prepare-Prepares :
      (h : Held H.World) → h.transaction.active ≡ none → Prepares h.transaction (prepare H s h)
  unfolding prepare
  prepare-Prepares h e = seen (inspect_workspace H s.workspace h.world) refl
    where
      seen :
          (r : Outcome WorkspaceState × H.World)
          → inspect_workspace H s.workspace h.world ≡ r
          → Prepares h.transaction
              (resume (with_world h r) (λ state. unless_error H s state (cleanness H s state)))
      seen (returned state, w) q = inspected state (record h { world = w }) h.world w e q
      seen (raised x, w) q = tt
