-- ===== src/Engine/Run/Rounds.antt =====
-- The loop of `run` in core/engine.py: the state between two rounds, and where the loop stops.
use pyfix_agent.Base.{
  ℕ, zero, suc, ◌+◌, ◌≤◌, ◌<◌, ◌≡◌, refl, ap, sym, ◌∙◌, Bool, true, false, List, [], ◌∷◌, arith,
  length, length-append, Bool-cases, inl, inr,
}
use pyfix_agent.Base.Outcome.{Ensures, Ensures-seq, Ensures-mono, Ensures-branch, pure, ◌>>=◌}
use pyfix_agent.Core.Contracts.{RepairRequest}
use pyfix_agent.Core.Schemas.{IterationRecord}
use pyfix_agent.Engine.State.{AgentState, Engine}
use pyfix_agent.Engine.Services.{Services}
use pyfix_agent.Engine.Invariant.{numbers, up_to, IsCounted, Settled}
use pyfix_agent.Engine.Verdict.Settling.{Interrupted}
use pyfix_agent.Engine.Run.Soundness.{run_iteration-Settled}
use pyfix_agent.Engine.Run.{run_iteration, iterate, goes_on, loop, rounds}

length-numbers : (rs : List IterationRecord) → length (numbers rs) ≡ length rs
length-numbers [] = refl
length-numbers (r ∷ rs) = ap suc (length-numbers rs)

length-up_to : (n : ℕ) → length (up_to n) ≡ n
length-up_to zero = refl
length-up_to (suc n) = omega (arith, length-append {0} (up_to n) (suc n ∷ []), length-up_to n)

module _ (S : Services) (request : RepairRequest) where
  length-records : (n : ℕ) (s : AgentState) → IsCounted S n s → length s.iterations ≡ n
  length-records n s c = sym (length-numbers s.iterations) ∙ (ap length c.numbered ∙ length-up_to n)

  -- The state between two rounds of the loop, after n iterations.
  abbrev pub AtRound : ℕ → Engine S.World → Type 0
  AtRound n e = Settled S n e.runtime.finished e.state × (n ≤ request.max_iterations)

  -- Where the loop has ended, and where it was left by an exception.
  pub record Ended (e : Engine S.World) : Type 0 where
    pub count : ℕ
    pub settled : Settled S count e.runtime.finished e.state
    pub bounded : count ≤ request.max_iterations
    pub done : goes_on S request e ≡ false

  pub record Broken (e : Engine S.World) : Type 0 where
    pub count : ℕ
    pub counted : IsCounted S count e.state
    pub bounded : count ≤ request.max_iterations

  Settled-IsCounted : (n : ℕ) (b : Bool) (s : AgentState) → Settled S n b s → IsCounted S n s
  Settled-IsCounted n true s h = h.0
  Settled-IsCounted n false s h = h.0

  goes_on-open :
      (n : ℕ) (e : Engine S.World)
      → AtRound n e
      → goes_on S request e ≡ true
      → IsCounted S n e.state × (e.state.success ≡ false) × (n < request.max_iterations)
  unfolding goes_on
  goes_on-open n e h g = ground (arith, length-records n e.state)

  iterate-AtRound :
      (n : ℕ) (e : Engine S.World)
      → IsCounted S n e.state
      → e.state.success ≡ false
      → n < request.max_iterations
      → Ensures (λ _ t. AtRound (suc n) t) (λ t. Broken t) (iterate S request e)
  unfolding iterate
  iterate-AtRound n e c f m = rw (length-records n e.state c) (
      Ensures-seq (λ b t. Settled S (suc n) b t.state) (λ t. Interrupted S n t.state)
        (λ _ t. AtRound (suc n) t) (λ t. Broken t) (run_iteration S request (suc n) e) _
        (run_iteration-Settled S request n e c f) (λ t i. broken t i) (λ b t s. (s, m)))
    where
      broken : (t : Engine S.World) → Interrupted S n t.state → Broken t
      broken t (inl d) = record { count = n; counted = d; bounded = omega arith }
      broken t (inr d) = record { count = suc n; counted = d; bounded = m }

  pub loop-Ended :
      (rounds n : ℕ) (e : Engine S.World)
      → AtRound n e
      → request.max_iterations ≤ n + rounds
      → Ensures (λ _ t. Ended t) (λ t. Broken t) (loop S rounds request e)
  unfolding loop
  loop-Ended zero n e h enough = record {
    count = n;
    settled = h.0;
    bounded = h.1;
    done = elim (Bool-cases (goes_on S request e)) [
      | inl g ↦ absurd (omega (arith, (goes_on-open n e h g).2))
      | inr g ↦ g
    ];
  }
  loop-Ended (suc rounds) n e h enough =
      let next = loop-Ended rounds (suc n) in
      Ensures-branch (λ _ t. Ended t) (λ t. Broken t) (goes_on S request e)
        (iterate S request >>= λ _. loop S rounds request) (pure tt) e
        (λ g.
          let o = goes_on-open n e h g in
          Ensures-seq (λ _ t. AtRound (suc n) t) (λ t. Broken t) (λ _ t. Ended t) (λ t. Broken t)
            (iterate S request e) (λ _. loop S rounds request) (iterate-AtRound n e o.0 o.1 o.2)
            (λ t b. b) (λ _ t r. next t r (omega arith)))
        (λ g. record { count = n; settled = h.0; bounded = h.1; done = g })

  -- `request.max_iterations` rounds are enough: from a state after n iterations the loop, with the
  -- rounds that are left, ends where the test of the `while` loop fails, unless an iteration raised.
  pub loop_ends :
      (rounds n : ℕ) (e : Engine S.World)
      → AtRound n e
      → request.max_iterations ≤ n + rounds
      → Ensures (λ _ t. goes_on S request t ≡ false) (λ t. Unit {0}) (loop S rounds request e)
  loop_ends rounds n e h enough =
      Ensures-mono (λ _ t. Ended t) (λ t. Broken t) (λ _ t. goes_on S request t ≡ false)
        (λ t. Unit {0}) (loop S rounds request e) (loop-Ended rounds n e h enough) (λ _ t x. x.done)
        (λ t b. tt)
