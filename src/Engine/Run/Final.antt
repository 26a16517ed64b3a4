-- ===== src/Engine/Run/Final.antt =====
-- The `try` and `except` clauses of `run` in core/engine.py: the state that `_to_result` reads.
use pyfix_agent.Base.{ℕ, String, ◌≤◌, ◌≡◌, ◌∙◌, Bool, true, false, none, some, [], arith}
use mathlib.Core.Bool.{false≢true}
use pyfix_agent.Base.Outcome.{
  Ensures, Ensures-seq, Ensures-mono, Ensures-branch, branch, Exception, os_error, runtime_error,
  value_error, other_error, Outcome, returned, raised, pure,
}
use pyfix_agent.Core.Contracts.{RepairRequest}
use pyfix_agent.Engine.State.{AgentState, Engine}
use pyfix_agent.Engine.Services.{Services}
use pyfix_agent.Engine.Invariant.{unedited, IsCounted, IsJustified, Settled}
use pyfix_agent.Engine.Attempt.{prepare}
use pyfix_agent.Engine.Attempt.Progress.{Unrecorded, PreparedFrom, prepare-Prepared}
use pyfix_agent.Engine.Run.Rounds.{Ended, Broken, loop-Ended}
use pyfix_agent.Engine.Run.{loop, mark_iteration_limit, rounds, finish, attempt, after_attempt}

module _ (S : Services) (request : RepairRequest) where
  -- What the state of a run says when `_to_result` reads it.
  pub record Final (s : AgentState) : Type 0 where
    pub count : ℕ
    pub counted : IsCounted S count s
    pub bounded : count ≤ request.max_iterations
    pub justified : IsJustified S s

  -- A state that no iteration has touched.
  pub record IsNew (s : AgentState) : Type 0 where
    pub success : s.success ≡ false
    pub error : s.error ≡ none
    pub iterations : s.iterations ≡ []
    pub reviews : s.reviews ≡ []
    pub revisions : s.semantic_revisions_used ≡ 0

  untouched-IsCounted : (s t : AgentState) → IsNew s → Unrecorded s t → IsCounted S 0 t
  untouched-IsCounted s t n u = ground arith

  prepared-Settled :
      (b : Bool) (s t : AgentState) → IsNew s → PreparedFrom S s b t → Settled S 0 b t
  prepared-Settled true s t n p = (
    untouched-IsCounted s t n p.1,
    λ won. let w = p.0 won in (w.0, w.1, unedited (p.1.0 ∙ n.iterations) w.2 w.3),
  )
  prepared-Settled false s t n p = (untouched-IsCounted s t n p.1, p.0)

  marked-Final :
      (e : Engine S.World)
      → Ended S request e
      → Ensures
          (λ _ t. Final t.state)
          (λ t. ⊥)
          (branch e.runtime.finished (pure tt) (mark_iteration_limit S request) e)
  unfolding mark_iteration_limit
  marked-Final e h =
      Ensures-branch (λ _ t. Final t.state) (λ t. ⊥) e.runtime.finished (pure tt)
        (mark_iteration_limit S request) e (λ over. closed (rw over at h.settled))
        (λ still. open_ (rw still at h.settled))
    where
      closed : Settled S h.count true e.state → Final e.state
      closed c = record { count = h.count; counted = c.0; bounded = h.bounded; justified = c.1 }

      open_ :
          Settled S h.count false e.state
          → Ensures (λ _ t. Final t.state) (λ t. ⊥) (mark_iteration_limit S request e)
      open_ o = record {
        count = h.count;
        counted = ground arith;
        bounded = h.bounded;
        justified = λ won. absurd (ground arith);
      }

  pub attempt-Final :
      (e : Engine S.World)
      → IsNew e.state
      → Ensures (λ _ t. Final t.state) (λ t. Broken S request t) (attempt S request e)
  unfolding attempt
  attempt-Final e n =
      Ensures-seq (λ b t. PreparedFrom S e.state b t.state) (λ t. Unrecorded e.state t.state)
        (λ _ t. Final t.state) (λ t. Broken S request t) (prepare S e) (rounds S request)
        (prepare-Prepared S e n.success n.error)
        (λ t u. record {
          count = 0;
          counted = untouched-IsCounted e.state t.state n u;
          bounded = omega arith;
        })
        λ b t p. began b t (prepared-Settled b e.state t.state n p)
    where
      began :
          (b : Bool) (t : Engine S.World)
          → Settled S 0 b t.state
          → Ensures (λ _ u. Final u.state) (λ u. Broken S request u) (rounds S request b t)
      began b t s =
          Ensures-seq (λ _ u. Ended S request u) (λ u. Broken S request u) (λ _ u. Final u.state)
            (λ u. Broken S request u)
            (loop S request.max_iterations request
              (record t { runtime = record (t.runtime) { finished = b } }))
            (λ _. finish S request)
            (loop-Ended S request request.max_iterations 0
              (record t { runtime = record (t.runtime) { finished = b } }) (s, omega arith)
              (omega arith))
            (λ u x. x)
            (λ _ u x.
              Ensures-mono (λ _ v. Final v.state) (λ v. ⊥) (λ _ v. Final v.state)
                (λ v. Broken S request v) (finish S request u) (marked-Final u x) (λ _ v h. h)
                (λ v h. absurd h))

  -- The `except` clause leaves no success behind.
  pub after_attempt-Final :
      (o : Outcome (Unit {0})) (e : Engine S.World)
      → Ensures (λ _ t. Final t.state) (λ t. Broken S request t) (o, e)
      → Ensures (λ _ t. Final t.state) (λ t. Unit {0}) (after_attempt S o e)
  unfolding after_attempt
  after_attempt-Final (returned done) e h = h
  after_attempt-Final (raised x) e h = caught x
    where
      refused : (m : String) → Final (record (e.state) { error = some m; success = false })
      refused m = record {
        count = h.count;
        counted = h.counted;
        bounded = h.bounded;
        justified = λ won. absurd (false≢true won);
      }

      caught :
          (x : Exception)
          → Ensures (λ _ t. Final t.state) (λ t. Unit {0}) (after_attempt S (raised x) e)
      caught (os_error m) = refused m
      caught (runtime_error m) = refused m
      caught (value_error m) = refused m
      caught (other_error m) = tt
