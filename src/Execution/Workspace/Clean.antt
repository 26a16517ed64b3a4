-- ===== src/Execution/Workspace/Clean.antt =====
-- `clean_workspace_error` of workspace.py: which workspaces count as clean.
use Prim.Native.Char.{Char}
use text.Mathlib.TextLemmas.{cons-append}
use pyfix_agent.Base.{
  ◌≡◌, ◌↔◌, refl, sym, ◌∙◌, ap, arith, String, ◌<>◌, Bool, true, false, Option, none, some, List,
  truthy, if◌then◌else◌,
}
use pyfix_agent.Execution.Workspace.{
  WorkspaceState, dirty_error, unrevised_error, clean_workspace_error,
}

-- Git answered for the workspace, it has a commit, and nothing in it is changed.
pub record IsClean (state : WorkspaceState) : Type 0 where
  pub no_error : (m : String) → state.error ≡ some m → truthy m ≡ false
  pub revised : (r : String) × (state.revision ≡ some r)
  pub unchanged : state.dirty ≡ false

truthy-cons : (c : Char) (s u : String) → truthy (String.◌∷◌ c s <> u) ≡ true
truthy-cons c s u = ap truthy (cons-append c s u)

dirty_error-truthy : (paths : List String) → truthy (dirty_error paths) ≡ true
dirty_error-truthy paths = truthy-cons _ _ _

-- A text that is given has something in it.
abbrev says : Option String → Bool
says none = true
says (some m) = truthy m

says-unrevised_error : (state : WorkspaceState) → says (unrevised_error state) ≡ true
says-unrevised_error state = at_revision state.revision state.dirty refl refl
  where
    at_revision :
        (r : Option String) (b : Bool)
        → state.revision ≡ r
        → state.dirty ≡ b
        → says (unrevised_error state) ≡ true
    at_revision none b e f = rw e refl
    at_revision (some r) false e f = rw (e, f) refl
    at_revision (some r) true e f = rw (e, f) (dirty_error-truthy state.changed_paths)

says-clean_workspace_error : (state : WorkspaceState) → says (clean_workspace_error state) ≡ true
unfolding clean_workspace_error
says-clean_workspace_error state = at_error state.error refl
  where
    said :
        (m : String) (b : Bool)
        → truthy m ≡ b
        → says (if b then some m else unrevised_error state) ≡ true
    said m true e = e
    said m false e = says-unrevised_error state

    at_error : (o : Option String) → state.error ≡ o → says (clean_workspace_error state) ≡ true
    at_error none e = rw e (says-unrevised_error state)
    at_error (some m) e = rw e (said m (truthy m) refl)

-- What the check returns is a text with something in it.
pub clean_workspace_error-truthy :
    (state : WorkspaceState) (m : String) → clean_workspace_error state ≡ some m → truthy m ≡ true
clean_workspace_error-truthy state m h = sym (ap says h) ∙ says-clean_workspace_error state

unrevised_error-clean :
    (state : WorkspaceState)
    → unrevised_error state ≡ none
    → ((r : String) × (state.revision ≡ some r)) × (state.dirty ≡ false)
unrevised_error-clean state h = revised state.revision refl
  where
    revised :
        (o : Option String)
        → state.revision ≡ o
        → ((r : String) × (state.revision ≡ some r)) × (state.dirty ≡ false)
    revised none e = absurd (ground (arith, h, e))
    revised (some r) e = ((r, e), ground (arith, h, e))

-- No error is found exactly for a clean workspace: git answered without an error, there is a commit,
-- and nothing is changed.
pub clean_workspace_error-IsClean :
    (state : WorkspaceState) → (clean_workspace_error state ≡ none) ↔ IsClean state
unfolding clean_workspace_error
clean_workspace_error-IsClean state = (
  λ h.
      let rest = unrevised_error-clean state (ground (arith, h)) in
      record { no_error = λ m e. ground (arith, h, e); revised = rest.0; unchanged = rest.1 },
  λ c. found c state.error refl,
)
  where
    found :
        IsClean state → (o : Option String) → state.error ≡ o → clean_workspace_error state ≡ none
    found c none e = ground (arith, e, c.revised.1, c.unchanged)
    found c (some m) e = ground (arith, e, c.no_error m e, c.revised.1, c.unchanged)
