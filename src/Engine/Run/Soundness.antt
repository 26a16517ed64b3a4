-- ===== src/Engine/Run/Soundness.antt =====
-- What a whole run of core/engine.py guarantees: the numbering and the bounds of its records, and
-- the evidence behind a success.
use pyfix_agent.Base.{ℕ, suc, ◌≡◌, inl, sym, ◌∙◌, Bool, true, false, not, Option, none, some, arith}
use mathlib.Core.Bool.{false≢true}
use pyfix_agent.Base.Outcome.{Ensures, Ensures-seq, Ensures-branch, pure, ◌>>=◌, ◌>>◌, Outcome}
use pyfix_agent.Core.Contracts.{RepairRequest, ApplyResult}
use pyfix_agent.Core.Schemas.{IterationRecord}
use pyfix_agent.Execution.Contracts.{TestExecution}
use pyfix_agent.Engine.State.{AgentState, IterationPlan, Engine}
use pyfix_agent.Engine.Services.{Services}
use pyfix_agent.Engine.Invariant.{IsCounted, Settled}
use pyfix_agent.Engine.Attempt.{plan_and_generate, apply_proposal, handle_apply_failure}
use pyfix_agent.Engine.Attempt.Progress.{
  Agree, Recorded, Unrecorded, Planned, plan_and_generate-Planned, apply_proposal-Agree,
  handle_apply_failure-Recorded,
}
use pyfix_agent.Engine.Verdict.{verify}
use pyfix_agent.Engine.Verdict.Progress.{Verified, Tested, verify-Verified}
use pyfix_agent.Engine.Verdict.Settling.{Interrupted, accept_or_retry-Settled}
use pyfix_agent.Engine.Run.{verdict_of, after_proposal, apply_and_verify, carry_out, run_iteration}

module _ (S : Services) where
  -- What holds after iteration n + 1, also where it raised.
  abbrev pub SettledAfter : ℕ → Outcome Bool × Engine S.World → Type 0
  SettledAfter n = Ensures (λ b e'. Settled S (suc n) b e'.state) (λ e'. Interrupted S n e'.state)

  Agree-IsCounted : (n : ℕ) (s t : AgentState) → IsCounted S n s → Agree s t → IsCounted S n t
  Agree-IsCounted n s t c g = ground arith

  Unrecorded-IsCounted :
      (n : ℕ) (s t : AgentState) → IsCounted S n s → Unrecorded s t → IsCounted S n t
  Unrecorded-IsCounted n s t c g = ground arith

  open_after :
      (n : ℕ) (b : Bool) (s t : AgentState)
      → IsCounted S n s
      → s.success ≡ false
      → Recorded (suc n) s t
      → Settled S (suc n) b t
  open_after n true s t c f r =
      (ground arith, λ won. absurd (false≢true (sym f ∙ sym r.success ∙ won)))
  open_after n false s t c f r = ground arith

  verdict_of-Settled :
      (request : RepairRequest) (p : IterationPlan) (n : ℕ) (s : AgentState)
      (o : Option (IterationRecord × TestExecution)) (e : Engine S.World)
      → IsCounted S n s
      → Verified (suc n) s o e.state
      → Tested S o
      → SettledAfter n (verdict_of S request p o e)
  verdict_of-Settled request p n s none e c v tested =
      (ground arith, λ won. absurd (false≢true (sym v.3 ∙ won)))
  verdict_of-Settled request p n s (some (r, after)) e c v tested =
      accept_or_retry-Settled S request p r after n e (ground arith) v.0 v.1 v.2 tested

  applied-Settled :
      (request : RepairRequest) (p : IterationPlan) (n : ℕ) (e : Engine S.World)
      → IsCounted S n e.state
      → e.state.success ≡ false
      → p.iteration ≡ suc n
      → SettledAfter n (apply_and_verify S request p e)
  unfolding apply_and_verify
  applied-Settled request p n e c f i =
      Ensures-seq (λ _ t. Agree e.state t.state) (λ t. Agree e.state t.state)
        (λ b t. Settled S (suc n) b t.state) (λ t. Interrupted S n t.state) (apply_proposal S p e)
        (after_proposal S request p) (apply_proposal-Agree S p e)
        (λ t g. inl (Agree-IsCounted n e.state t.state c g))
        λ result t g. tried result t (Agree-IsCounted n e.state t.state c g) (g.success ∙ f)
    where
      tried :
          (result : ApplyResult) (t : Engine S.World)
          → IsCounted S n t.state
          → t.state.success ≡ false
          → SettledAfter n (after_proposal S request p result t)
      tried result t d k =
          Ensures-branch (λ b u. Settled S (suc n) b u.state) (λ u. Interrupted S n u.state)
            (not result.success) (handle_apply_failure S p result >> pure false)
            (verify S p result >>= verdict_of S request p) t
            (λ failed.
              Ensures-seq (λ _ u. Recorded p.iteration t.state u.state) (λ u. Agree t.state u.state)
                (λ b u. Settled S (suc n) b u.state) (λ u. Interrupted S n u.state)
                (handle_apply_failure S p result t) (λ _. pure false)
                (handle_apply_failure-Recorded S p result t)
                (λ u g. inl (Agree-IsCounted n t.state u.state d g))
                (λ _ u r. open_after n false t.state u.state d k (rw i at r)))
            (λ succeeded.
              Ensures-seq (λ o u. Verified p.iteration t.state o u.state × Tested S o)
                (λ u. Unrecorded t.state u.state) (λ b u. Settled S (suc n) b u.state)
                (λ u. Interrupted S n u.state) (verify S p result t) (verdict_of S request p)
                (verify-Verified S p result t)
                (λ u g. inl (Unrecorded-IsCounted n t.state u.state d g))
                (λ o u v. verdict_of-Settled request p n t.state o u d (rw i at v.0) v.1))

  -- One iteration, from a state that is open after n of them. Where it returns, there are n + 1
  -- numbered records, and either the run goes on and is no success, or it ends and a success is
  -- justified: by a run of the tests that passed, with the exit code and the output of the last record
  -- or the output from before any edit, and, with records and reviews on, by a last review that accepted.
  -- Where it raises, there are n or n + 1 numbered records.
  pub run_iteration-Settled :
      (request : RepairRequest) (n : ℕ) (e : Engine S.World)
      → IsCounted S n e.state
      → e.state.success ≡ false
      → SettledAfter n (run_iteration S request (suc n) e)
  unfolding run_iteration
  run_iteration-Settled request n e c f =
      Ensures-seq (λ o t. Planned (suc n) e.state o t.state) (λ t. Agree e.state t.state)
        (λ b t. Settled S (suc n) b t.state) (λ t. Interrupted S n t.state)
        (plan_and_generate S request (suc n) e) (carry_out S request)
        (plan_and_generate-Planned S request (suc n) e)
        (λ t g. inl (Agree-IsCounted n e.state t.state c g)) λ o t h. planned o t h
    where
      planned :
          (o : Option IterationPlan) (t : Engine S.World)
          → Planned (suc n) e.state o t.state
          → SettledAfter n (carry_out S request o t)
      planned none t r = open_after n t.runtime.finished e.state t.state c f r
      planned (some p) t h =
          applied-Settled request p n t (Agree-IsCounted n e.state t.state c h.1) (h.1.success ∙ f)
            h.0
