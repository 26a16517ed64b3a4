-- ===== src/Engine/Invariant.antt =====
-- What holds of the state of core/engine.py between two iterations and at the end of a run.
use pyfix_agent.Base.{
  ℕ, zero, suc, ◌≤◌, ◌≡◌, refl, Bool, true, false, Option, none, some, List, [], ◌∷◌, ◌++◌, map,
  length, String, any,
}
use pyfix_agent.Base.Int.{ℤ, pos}
use pyfix_agent.Base.Outcome.{returned}
use pyfix_agent.Execution.Contracts.{TestExecution}
use pyfix_agent.Core.Schemas.{IterationRecord, AcceptanceStatus}
use pyfix_agent.Review.Contracts.{ReviewAction, ReviewRecord}
use pyfix_agent.Engine.State.{AgentState}
use pyfix_agent.Engine.Services.{Services}

abbrev pub numbers : List IterationRecord → List ℕ
numbers = map (λ r. r.iteration)

-- 1, 2, …, n
abbrev pub up_to : ℕ → List ℕ
up_to zero = []
up_to (suc n) = up_to n ++ suc n ∷ []

abbrev pub last? {ℓ} : {A : Type ℓ} → List A → Option A
last? [] = none
last? (x ∷ []) = some x
last? (x ∷ (y ∷ xs)) = last? (y ∷ xs)

pub last?-append {ℓ} : {A : Type ℓ} (xs : List A) (x : A) → last? (xs ++ x ∷ []) ≡ some x
last?-append [] x = refl
last?-append (y ∷ []) x = refl
last?-append (y ∷ (z ∷ xs)) x = last?-append (z ∷ xs) x

abbrev pub passed_last : List IterationRecord → Option Bool
passed_last records = elim (last? records) [ none ↦ none | some r ↦ some r.success ]

abbrev pub last_action : List ReviewRecord → Option ReviewAction
last_action reviews = elim (last? reviews) [ none ↦ none | some r ↦ some r.policy_action ]

abbrev pub last_exit : List IterationRecord → Option (Option ℤ)
last_exit records = elim (last? records) [ none ↦ none | some r ↦ some r.pytest_exit_code ]

abbrev pub last_output : List IterationRecord → Option String
last_output records = elim (last? records) [ none ↦ none | some r ↦ some r.pytest_output ]

module _ (S : Services) where
  -- A run of the tests that returned this outcome.
  pub record WasRun (after : TestExecution) : Type 0 where
    pub workspace : String
    pub began : S.World
    pub ended : S.World
    pub returns : S.run_tests workspace began ≡ (returned after, ended)

  -- A run of the tests that exited with 0, without a failure of the infrastructure.
  pub record Passed (after : TestExecution) : Type 0 where
    pub was_run : WasRun after
    pub exit_zero : after.exit_code ≡ pos 0
    pub all_sound : any (λ r. r.infrastructure_error) after.command_results ≡ false
    pub last_sound : after.command_result.infrastructure_error ≡ false

  -- A text is the output of a run of the tests that passed.
  abbrev pub PassedWith : String → Type 0
  PassedWith output = (after : TestExecution) × Passed after × (output ≡ after.output)

  -- The last record is a success, with the exit code and the output of a run of the tests that passed.
  pub record PassedLast (records : List IterationRecord) : Type 0 where
    pub after : TestExecution
    pub passed : Passed after
    pub success : passed_last records ≡ some true
    pub exit : last_exit records ≡ some (some after.exit_code)
    pub output : last_output records ≡ some after.output

  -- Why a run may call itself a success, by the output of the tests before it, its records, its
  -- reviews and its acceptance status. `unedited`: the tests passed before any edit. `unreviewed`: the
  -- last iteration's tests passed and reviews are off. `reviewed` and `warned`: they passed, and the
  -- last review accepted, without or with warnings.
  pub data Justified (before : String) (records : List IterationRecord)
      (reviews : List ReviewRecord) (status : AcceptanceStatus) : Type 0 where
    unedited :
        records ≡ []
        → status ≡ AcceptanceStatus.not_run
        → PassedWith before
        → Justified before records reviews status
    unreviewed :
        S.semantic_review_enabled ≡ false
        → PassedLast records
        → status ≡ AcceptanceStatus.disabled
        → Justified before records reviews status
    reviewed :
        S.semantic_review_enabled ≡ true
        → PassedLast records
        → (last_action reviews ≡ some ReviewAction.accept) × (status ≡ AcceptanceStatus.accepted)
        → Justified before records reviews status
    warned :
        S.semantic_review_enabled ≡ true
        → PassedLast records
        → (last_action reviews ≡ some ReviewAction.accept_with_warnings)
          × (status ≡ AcceptanceStatus.accepted_with_warnings)
        → Justified before records reviews status

  -- After n iterations: they are numbered 1 to n, no more than n reviews were made, and the
  -- revisions that reviews asked for stay within the policy's budget.
  pub record Counts (n : ℕ) (records : List IterationRecord) (reviews : List ReviewRecord)
      (revisions : ℕ) : Type 0 where
    pub numbered : numbers records ≡ up_to n
    pub reviews_bounded : length reviews ≤ n
    pub revisions_reviewed : revisions ≤ length reviews
    pub revisions_bounded : revisions ≤ S.review_policy.max_semantic_revisions

  abbrev pub IsCounted : ℕ → AgentState → Type 0
  IsCounted n s = Counts n s.iterations s.reviews s.semantic_revisions_used

  abbrev pub IsJustified : AgentState → Type 0
  IsJustified s =
      s.success ≡ true
      → (s.visible_success ≡ true)
        × (s.error ≡ none)
        × Justified s.test_output_before s.iterations s.reviews s.acceptance_status

  -- After iteration n, by what it returned: the run goes on, and then it is no success; or it ends,
  -- and then a success is justified.
  abbrev pub Settled : ℕ → Bool → AgentState → Type 0
  Settled n false s = IsCounted n s × (s.success ≡ false)
  Settled n true s = IsCounted n s × IsJustified s
