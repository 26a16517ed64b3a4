-- ===== src/Engine/Run/Closing.antt =====
-- The `finally` clause of core/engine.py: what is exported, and when the workspace is closed.
use pyfix_agent.Base.{◌≡◌, true, arith, refl}
use pyfix_agent.Base.Outcome.{
  Exception, os_error, runtime_error, value_error, other_error, Outcome, returned, raised, Ensures,
  Ensures-seq, Ensures-any,
}
use pyfix_agent.Engine.State.{Engine, AgentResult}
use pyfix_agent.Engine.Services.{Services}
use pyfix_agent.Engine.Run.{to_result, close_workspace, deliver, conclude}

module _ (S : Services) where
  abbrev pub WasClosed : Engine S.World → Type 0
  WasClosed t = (w : S.World) × (t.world ≡ (S.close w).1)

  close_workspace-world :
      (e : Engine S.World) → Ensures (λ _ t. WasClosed t) (λ t. Unit {0}) (close_workspace S e)
  unfolding close_workspace
  close_workspace-world e = ensured (S.close e.world) refl
    where
      ensured :
          (c : Outcome (Unit {0}) × S.World)
          → S.close e.world ≡ c
          → Ensures (λ _ t. WasClosed t) (λ t. Unit {0}) (close_workspace S e)
      ensured (returned done, w) h = rw (h, close_workspace) (e.world, rw h)
      ensured (raised (os_error m), w) h = rw (h, close_workspace) (e.world, rw h)
      ensured (raised (runtime_error m), w) h = rw (h, close_workspace) (e.world, rw h)
      ensured (raised (value_error m), w) h = rw (h, close_workspace) tt
      ensured (raised (other_error m), w) h = rw (h, close_workspace) tt

  delivered :
      (pending : Outcome (Unit {0})) (r : AgentResult) (e : Engine S.World)
      → WasClosed e
      → Ensures (λ _ t. WasClosed t) (λ t. Unit {0}) (deliver S pending r e)
  delivered (returned done) r e c = c
  delivered (raised x) r e c = tt

  -- A result is delivered only by a world in which the workspace session was asked to close, as the
  -- last thing that was done.
  pub conclude_closes :
      (pending : Outcome (Unit {0})) (e t : Engine S.World) (r : AgentResult)
      → conclude S pending e ≡ (returned r, t)
      → WasClosed t
  unfolding conclude
  conclude_closes pending e t r h =
      let closed : Ensures (λ _ t. WasClosed t) (λ t. Unit {0}) (conclude S pending e) =
        Ensures-seq (λ _ _. Unit {0}) (λ _. Unit {0}) (λ _ t. WasClosed t) (λ t. Unit {0})
          (to_result S e) _ (Ensures-any (to_result S e)) (λ t u. tt)
          (λ r t u.
            Ensures-seq (λ _ t. WasClosed t) (λ _. Unit {0}) (λ _ t. WasClosed t) (λ t. Unit {0})
              (close_workspace S t) _ (close_workspace-world t) (λ t u. tt)
              (λ _ t c. delivered pending r t c)) in
      rw h at closed

  -- If exporting the final patch raises, `run` raises that exception, and the workspace session is
  -- not asked to close: the world is left as the export left it.
  pub export_failure_leaves_open :
      (pending : Outcome (Unit {0})) (e : Engine S.World) (x : Exception) (w : S.World)
      → S.is_active e.world ≡ true
      → S.export_final_patch e.world ≡ (raised x, w)
      → conclude S pending e ≡ (raised x, record e { world = w })
  unfolding conclude to_result
  export_failure_leaves_open pending e x w a h = ground arith
