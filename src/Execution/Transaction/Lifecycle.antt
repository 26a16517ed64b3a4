-- ===== src/Execution/Transaction/Lifecycle.antt =====
-- The phases of a transaction, and every method as a step between them.
use pyfix_agent.Base.{
  ◌≡◌, ◌∙◌, refl, ℕ, String, Bool, true, false, Option, not, none, some, List, [], ◌∷◌, ◌++◌,
}
use pyfix_agent.Base.Outcome.{Outcome, returned, raised, Action, pure, branch, ◌>>=◌, Ensures}
use pyfix_agent.Execution.Host.{WorkspaceHost}
use pyfix_agent.Execution.Workspace.{WorkspaceState}
use pyfix_agent.Execution.Transaction.{
  ActiveWorkspace, Transaction, Held, with_world, on_world, with_active, closed, begin,
  remove_worktree,
}
use pyfix_agent.Execution.Transaction.Use.{
  checkpoint, rollback, final_diff, close, after_removal, require_active, active_or, close_active,
  checkpoint_active, rollback_active, diff_active,
}
use pyfix_agent.Execution.Transaction.Beginning.{Opened, Began, Kept, begin-Began}

pub data Phase : Type 0 where
  idle in_place in_worktree : Phase

pub data Use : Type 0 where
  checkpoint_use : ℕ → String → Use
  rollback_use final_diff_use : Use

pub data Call : Type 0 where
  begin_call : WorkspaceState → Call
  use_call : Use → Call
  close_call : Call

abbrev pub opened : Bool → Phase
opened false = in_place
opened true = in_worktree

-- The specification: what a call does to the phase, and whether it may return.
pub data Step (isolate : Bool) : Phase → Call → Bool → Phase → Type 0 where
  begins : (s : WorkspaceState) → Step isolate idle (begin_call s) true (opened isolate)
  fails : (s : WorkspaceState) → Step isolate idle (begin_call s) false idle
  begun : (s : WorkspaceState) (b : Bool) → Step isolate (opened b) (begin_call s) false (opened b)
  uses : (u : Use) (b returns : Bool) → Step isolate (opened b) (use_call u) returns (opened b)
  unused : (u : Use) → Step isolate idle (use_call u) false idle
  closes_idle : Step isolate idle close_call true idle
  closes_in_place : Step isolate in_place close_call true idle
  closes_worktree : (returns : Bool) → Step isolate in_worktree close_call returns idle

-- The steps of calls in order, with whether each of them returned.
pub data Steps (isolate : Bool) : Phase → List Call → List Bool → Phase → Type 0 where
  ended : {p : Phase} → Steps isolate p [] [] p
  stepped :
      {p q r : Phase} (c : Call) (cs : List Call) (returns : Bool) (rest : List Bool)
      → Step isolate p c returns q
      → Steps isolate q cs rest r
      → Steps isolate p (c ∷ cs) (returns ∷ rest) r

abbrev pub phase : Option ActiveWorkspace → Phase
phase none = idle
phase (some a) = opened a.isolated

-- What a transaction knows of its active workspace.
abbrev pub Placed : Transaction → Bool → ActiveWorkspace → Type 0
Placed t false a =
    (a.isolated ≡ false) × (a.workspace ≡ t.original_workspace) × (t.temporary_root ≡ none)
Placed t true a =
    (a.isolated ≡ true)
    × ((root : List String) × (t.temporary_root ≡ some root) × (a.git_root ≡ root ++ "repo" ∷ []))

abbrev pub Fits : Transaction → Option ActiveWorkspace → Type 0
Fits t none = t.temporary_root ≡ none
Fits t (some a) = Placed t t.isolate a

-- Whether a call returned, and what it left.
abbrev pub ended_in : {A S : Type 0} → Outcome A × S → Bool × S
ended_in (returned a, s) = (true, s)
ended_in (raised x, s) = (false, s)

module _ (H : WorkspaceHost) where
  abbrev pub perform_use : Use → Held H.World → Bool × Held H.World
  perform_use (checkpoint_use iteration kind) h = ended_in (checkpoint H iteration kind h)
  perform_use rollback_use h = ended_in (rollback H h)
  perform_use final_diff_use h = ended_in (final_diff H h)

  abbrev pub perform : Call → Held H.World → Bool × Held H.World
  perform (begin_call state) h = ended_in (begin H state h)
  perform (use_call u) h = perform_use u h
  perform close_call h = ended_in (close H h)

  unfoldable pub perform_all : List Call → Held H.World → Held H.World
  perform_all [] h = h
  perform_all (c ∷ cs) h = perform_all cs (perform c h).1

  -- Whether each of the calls returned.
  unfoldable pub outcomes : List Call → Held H.World → List Bool
  outcomes [] h = []
  outcomes (c ∷ cs) h = (perform c h).0 ∷ outcomes cs (perform c h).1

-- A call took a step of the specification, and the transaction still fits its workspace.
pub record Stepped (t : Transaction) (c : Call) (returns : Bool) (u : Transaction) : Type 0 where
  pub step : Step t.isolate (phase t.active) c returns (phase u.active)
  pub fits : Fits u u.active
  pub isolate : u.isolate ≡ t.isolate

after_opening :
    (t : Transaction) (s : WorkspaceState) (i : Bool) (a : ActiveWorkspace)
    (root : Option (List String))
    → t.isolate ≡ i
    → t.active ≡ none
    → t.temporary_root ≡ none
    → Opened t i a root
    → Stepped t (begin_call s) true (with_active root a t)
after_opening t s false a root i e f o = record {
  step = rw (e, i, o.0) (begins s);
  fits = rw i (o.0, o.1, o.2 ∙ f);
  isolate = refl;
}
after_opening t s true a root i e f o = record {
  step = rw (e, i, o.0) (begins s);
  fits = rw i o;
  isolate = refl;
}

abbrev Went : {W : Type 0} → Transaction → Call → Bool × Held W → Type 0
Went t c (b, h) = Stepped t c b h.transaction

module _ {W : Type 0} (t : Transaction) (fits : Fits t t.active) where
  -- A call that keeps the transaction: it takes no step.
  stays :
      {A : Type 0} (c : Call) (r : Outcome A × W) (h : Held W)
      → h.transaction ≡ t
      → ((returns : Bool) → Step t.isolate (phase t.active) c returns (phase t.active))
      → Went t c (ended_in (with_world h r))
  stays c (returned a, w) h e s = rw e (record { step = s true; fits = fits; isolate = refl })
  stays c (raised x, w) h e s = rw e (record { step = s false; fits = fits; isolate = refl })

  after_beginning :
      (s : WorkspaceState) (r : Outcome ActiveWorkspace × Held W)
      → t.active ≡ none
      → Ensures (Began t) (Kept t) r
      → Went t (begin_call s) (ended_in r)
  after_beginning s (returned a, h) e (root, k, o) =
      rw k (after_opening t s t.isolate a root refl e (rw e at fits) o)
  after_beginning s (raised x, h) e k =
      rw k (record { step = rw e (fails s); fits = fits; isolate = refl })

module _ (H : WorkspaceHost) (h : Held H.World)
    (fits : Fits h.transaction h.transaction.active) where
  abbrev Goes : Call → Bool × Held H.World → Type 0
  Goes = Went h.transaction

  begin-Goes : (s : WorkspaceState) → Goes (begin_call s) (ended_in (begin H s h))
  unfolding begin
  begin-Goes s = at_phase h.transaction.active refl
    where
      at_phase :
          (a : Option ActiveWorkspace)
          → h.transaction.active ≡ a
          → Goes (begin_call s) (ended_in (begin H s h))
      at_phase none e = after_beginning h.transaction fits s (begin H s h) e (begin-Began H s h e)
      at_phase (some a) e =
          rw e (record { step = begun s a.isolated; fits = rw e at fits; isolate = refl })

  use-Goes :
      {A : Type 0} (u : Use) (k : ActiveWorkspace → Action H.World A)
      → Goes (use_call u) (ended_in (require_active H k h))
  use-Goes u k = at_phase h.transaction.active refl
    where
      at_phase :
          (a : Option ActiveWorkspace)
          → h.transaction.active ≡ a
          → Goes (use_call u) (ended_in (on_world (active_or H a k) h))
      at_phase none e = record { step = rw e (unused u); fits = fits; isolate = refl }
      at_phase (some a) e =
          stays h.transaction fits (use_call u) (k a h.world) h refl
            (λ returns. rw e (uses u a.isolated returns))

  left :
      {A : Type 0} (r : Outcome A × H.World)
      → ((returns : Bool)
          → Step h.transaction.isolate (phase h.transaction.active) close_call returns idle)
      → Goes close_call (ended_in (with_world (record h { transaction = closed h.transaction }) r))
  left (returned a, w) s = record { step = s true; fits = refl; isolate = refl }
  left (raised x, w) s = record { step = s false; fits = refl; isolate = refl }

  close-Goes : Goes close_call (ended_in (close H h))
  unfolding close
  close-Goes = at_phase h.transaction.active refl
    where
      isolated :
          (a : ActiveWorkspace) (i : Bool)
          → a.isolated ≡ i
          → h.transaction.active ≡ some a
          → Goes close_call (
              ended_in (
                on_world
                  (branch (not i) (pure tt) (
                    H.resolve a.original_workspace >>= λ cwd.
                    remove_worktree H cwd a.git_root
                    >>= after_removal H h.transaction.temporary_root))
                  (record h { transaction = closed h.transaction })))
      isolated a false i e = record {
        step = rw (e, i) closes_in_place;
        fits = refl;
        isolate = refl;
      }
      isolated a true i e = left _ (λ returns. rw (e, i) (closes_worktree returns))

      at_phase :
          (a : Option ActiveWorkspace)
          → h.transaction.active ≡ a
          → Goes close_call (
              ended_in (
                on_world
                  (close_active H a h.transaction.temporary_root)
                  (record h { transaction = closed h.transaction })))
      at_phase none e = record { step = rw e closes_idle; fits = refl; isolate = refl }
      at_phase (some a) e = isolated a a.isolated refl e

  perform-Goes : (c : Call) → Goes c (perform H c h)
  unfolding checkpoint rollback final_diff
  perform-Goes (begin_call state) = begin-Goes state
  perform-Goes (use_call (checkpoint_use iteration kind)) =
      use-Goes (checkpoint_use iteration kind) (checkpoint_active H iteration kind)
  perform-Goes (use_call rollback_use) = use-Goes rollback_use (rollback_active H)
  perform-Goes (use_call final_diff_use) = use-Goes final_diff_use (diff_active H)
  perform-Goes close_call = close-Goes

module _ (H : WorkspaceHost) where
  -- A transaction refines the machine of three phases: whatever git, the file system and the clock do
  -- or raise, any calls of its methods, from a transaction that fits its active workspace, are steps
  -- of the machine, each with the outcome, a return or a raise, that the call had, and the transaction
  -- fits its active workspace afterwards.
  pub perform_all-Steps :
      (cs : List Call) (h : Held H.World)
      → Fits h.transaction h.transaction.active
      → Steps h.transaction.isolate
          (phase h.transaction.active)
          cs
          (outcomes H cs h)
          (phase (perform_all H cs h).transaction.active)
        × Fits (perform_all H cs h).transaction (perform_all H cs h).transaction.active
  unfolding perform_all outcomes
  perform_all-Steps [] h fits = (ended, fits)
  perform_all-Steps (c ∷ cs) h fits =
      let went = perform-Goes H h fits c in
      let next = (perform H c h).1 in
      let rest = perform_all-Steps cs next went.fits in
      (
        stepped c cs (perform H c h).0 (outcomes H cs next) went.step (rw went.isolate at rest.0),
        rest.1,
      )
