-- ===== src/Execution/TestRunner/Running.antt =====
-- What `TestRunner.run` reports of the commands that it ran.
use pyfix_agent.Base.{
  ◌≡◌, refl, ◌↔◌, inl, inr, arith, ℕ, suc, String, ◌<>◌, Bool, true, false, not, ◌&&◌, ◌||◌, Option,
  none, some, List, [], ◌∷◌, ◌++◌, any, length, starts_with, ◌==◌, string_eq, Bool-cases,
}
use pyfix_agent.Base.Int.{is_code}
use pyfix_agent.Base.Outcome.{
  Outcome, returned, raised, pure, branch, Ensures, Ensures-branch, Ensures-seq, resume, ◌>>=◌,
}
use pyfix_agent.Execution.Contracts.{CommandResult, TestExecution, is_success}
use pyfix_agent.Execution.TestRunner.{
  SandboxHost, Runner, is_basetemp, with_isolated_basetemp, last_result, run_commands, cleaned,
  in_temporary, executed, run_in, with_world, run_chosen, moved, choose, run,
}

abbrev pub has_passed : CommandResult → Bool
has_passed r = is_code 0 r.exit_code

abbrev pub all_passed : List CommandResult → Bool
all_passed [] = true
all_passed (r ∷ rs) = has_passed r && all_passed rs

-- A command with a directory of its own for pytest's temporary files, unless it names one.
pub data IsIsolated (command : List String) (basetemp : String) : List String → Type 0 where
  named :
      any (λ part. part == "--basetemp" || starts_with part "--basetemp=") command ≡ true
      → IsIsolated command basetemp command
  added :
      any (λ part. part == "--basetemp" || starts_with part "--basetemp=") command ≡ false
      → IsIsolated command basetemp (command ++ ("--basetemp=" <> basetemp) ∷ [])

-- The sandbox for a workspace, and the world in which it was found.
pub data Chosen (H : SandboxHost) (sandbox : H.Sandbox) (w : H.World)
    : Option String → H.Sandbox → H.World → Type 0 where
  unasked : Chosen H sandbox w none sandbox w
  there :
      (workspace : String) (v : H.World)
      → H.is_at sandbox workspace w ≡ (returned true, v)
      → Chosen H sandbox w (some workspace) sandbox v
  elsewhere :
      (workspace : String) (next : H.Sandbox) (v u : H.World)
      → H.is_at sandbox workspace w ≡ (returned false, v)
      → H.with_workspace sandbox workspace v ≡ (returned next, u)
      → Chosen H sandbox w (some workspace) next u

-- The sandbox ran the commands in order from command `index` on, each isolated, up to the first that
-- failed, and these are the results of them.
pub data Ran (H : SandboxHost) (sandbox : H.Sandbox) (root : String)
    : ℕ → H.World → List (List String) → List CommandResult → H.World → Type 0 where
  finished : (index : ℕ) (w : H.World) → Ran H sandbox root index w [] [] w
  broke :
      (index : ℕ) (w v : H.World) (c isolated : List String) (cs : List (List String))
      (r : CommandResult)
      → IsIsolated c (H.pytest_basetemp sandbox root index) isolated
      → H.run sandbox isolated w ≡ (returned r, v)
      → has_passed r ≡ false
      → Ran H sandbox root index w (c ∷ cs) (r ∷ []) v
  went_on :
      (index : ℕ) (w v u : H.World) (c isolated : List String) (cs : List (List String))
      (r : CommandResult) (rs : List CommandResult)
      → IsIsolated c (H.pytest_basetemp sandbox root index) isolated
      → H.run sandbox isolated w ≡ (returned r, v)
      → has_passed r ≡ true
      → Ran H sandbox root (suc index) v cs rs u
      → Ran H sandbox root index w (c ∷ cs) (r ∷ rs) u

-- A run of these commands that returned an execution and left the runner as it is now.
pub record IsExecution (H : SandboxHost) (commands : List (List String)) (workspace : Option String)
    (s : Runner H) (t : TestExecution) (u : Runner H) : Type 0 where
  pub start : H.World
  pub root : String
  pub began : H.World
  pub ended : H.World
  pub chosen : Chosen H s.sandbox s.world workspace u.sandbox start
  pub last : u.last_sandbox ≡ u.sandbox
  pub temporary : H.make_temporary "pyfixagent-pytest-" start ≡ (returned root, began)
  pub ran : Ran H u.sandbox root 1 began commands t.command_results ended
  pub cleanup : u.world ≡ H.remove_temporary root ended
  pub success :
      (is_success t ≡ true)
      ↔ ((all_passed t.command_results ≡ true) × (length t.command_results ≡ length commands))

with_isolated_basetemp-IsIsolated :
    (command : List String) (basetemp : String)
    → IsIsolated command basetemp (with_isolated_basetemp command basetemp)
unfolding with_isolated_basetemp
with_isolated_basetemp-IsIsolated command basetemp = elim (Bool-cases (any is_basetemp command)) [
  | inl p ↦ rw p (named p)
  | inr p ↦ rw p (added p)
]

module _ (H : SandboxHost) (sandbox : H.Sandbox) (root : String) where
  last_passed :
      {index : ℕ} {w u : H.World} {cs : List (List String)} {first : CommandResult}
      {rest : List CommandResult}
      → Ran H sandbox root index w cs (first ∷ rest) u
      → (has_passed (last_result first rest) ≡ true)
        ↔ ((all_passed (first ∷ rest) ≡ true) × (length (first ∷ rest) ≡ length cs))
  last_passed (broke i w v c d cs r a e p) = ground (arith, p)
  last_passed (went_on i w v u c d cs r rs a e p (finished j x)) = ground (arith, p)
  last_passed (went_on i w v u c d cs r rs a e p (broke j x y f g ds s b h q)) =
      ground (arith, p, q)
  last_passed (went_on i w v u c d cs r rs a e p (went_on j x y z f g ds s ss b h q more)) =
      ground (arith, p, last_passed (went_on j x y z f g ds s ss b h q more))

  run_commands-Ran :
      (index : ℕ) (commands : List (List String)) (w : H.World)
      → Ensures
          (λ rs v. Ran H sandbox root index w commands rs v)
          (λ _. Unit {0})
          (run_commands H sandbox root index commands w)
  unfolding run_commands
  run_commands-Ran index [] w = finished index w
  run_commands-Ran index (c ∷ cs) w =
      looked (H.run sandbox (with_isolated_basetemp c base) w) refl
        (λ v. run_commands-Ran (suc index) cs v)
    where
      base : String
      base = H.pytest_basetemp sandbox root index

      isolated : IsIsolated c base (with_isolated_basetemp c base)
      isolated = with_isolated_basetemp-IsIsolated c base

      looked :
          (r : Outcome CommandResult × H.World)
          → H.run sandbox (with_isolated_basetemp c base) w ≡ r
          → ((v : H.World)
              → Ensures
                  (λ rs u. Ran H sandbox root (suc index) v cs rs u)
                  (λ _. Unit {0})
                  (run_commands H sandbox root (suc index) cs v))
          → Ensures
              (λ rs v. Ran H sandbox root index w (c ∷ cs) rs v)
              (λ _. Unit {0})
              (resume r (λ result.
                branch
                  (not (is_code 0 result.exit_code))
                  (pure (result ∷ []))
                  (run_commands H sandbox root (suc index) cs >>= λ rest. pure (result ∷ rest))))
      looked (raised x, v) e ih = tt
      looked (returned result, v) e ih =
          Ensures-branch (λ rs u. Ran H sandbox root index w (c ∷ cs) rs u) (λ _. Unit {0})
            (not (is_code 0 result.exit_code)) (pure (result ∷ []))
            (run_commands H sandbox root (suc index) cs >>= λ rest. pure (result ∷ rest)) v
            (λ p. broke index w v c _ cs result isolated e (ground (arith, p)))
            (λ p.
              Ensures-seq (λ rs u. Ran H sandbox root (suc index) v cs rs u) (λ _. Unit {0})
                (λ rs u. Ran H sandbox root index w (c ∷ cs) rs u) (λ _. Unit {0})
                (run_commands H sandbox root (suc index) cs v) (λ rest. pure (result ∷ rest)) (ih v)
                (λ _ _. tt)
                (λ rest u ran.
                  went_on index w v u c _ cs result rest isolated e (ground (arith, p)) ran))

module _ (H : SandboxHost) (c : List String) (cs : List (List String)) (workspace : Option String)
    (s : Runner H) (sandbox : H.Sandbox) (start : H.World)
    (chosen : Chosen H s.sandbox s.world workspace sandbox start) where
  abbrev after : H.World → Runner H
  after w = record { sandbox = sandbox; last_sandbox = sandbox; world = w }

  abbrev Executes : Outcome TestExecution × H.World → Type 0
  Executes = Ensures (λ t w. IsExecution H (c ∷ cs) workspace s t (after w)) (λ _. Unit {0})

  executed-IsExecution :
      (root : String) (began : H.World) (r : Outcome (List CommandResult) × H.World)
      → H.make_temporary "pyfixagent-pytest-" start ≡ (returned root, began)
      → Ensures (λ rs v. Ran H sandbox root 1 began (c ∷ cs) rs v) (λ _. Unit {0}) r
      → Executes (resume (cleaned H root r) (executed H))
  executed-IsExecution root began (raised x, v) e h = tt
  executed-IsExecution root began (returned [], v) e h = tt
  executed-IsExecution root began (returned (first ∷ rest), v) e h = record {
    start = start;
    root = root;
    began = began;
    ended = v;
    chosen = chosen;
    last = refl;
    temporary = e;
    ran = h;
    cleanup = refl;
    success = last_passed H sandbox root h;
  }

  run_in-IsExecution : Executes (run_in H (c ∷ cs) sandbox start)
  unfolding run_in
  run_in-IsExecution = made (H.make_temporary "pyfixagent-pytest-" start) refl
    where
      made :
          (r : Outcome String × H.World)
          → H.make_temporary "pyfixagent-pytest-" start ≡ r
          → Executes (
              resume
                (resume r (in_temporary H (λ root. run_commands H sandbox root 1 (c ∷ cs))))
                (executed H))
      made (raised x, v) e = tt
      made (returned root, v) e =
          executed-IsExecution root v (run_commands H sandbox root 1 (c ∷ cs) v) e
            (run_commands-Ran H sandbox root 1 (c ∷ cs) v)

  with_world-IsExecution :
      (u : Runner H) (r : Outcome TestExecution × H.World)
      → u.sandbox ≡ sandbox
      → u.last_sandbox ≡ sandbox
      → Executes r
      → Ensures (λ t v. IsExecution H (c ∷ cs) workspace s t v) (λ _. Unit {0}) (with_world H u r)
  with_world-IsExecution u (returned t, w) e f h = rw (e, f) h
  with_world-IsExecution u (raised x, w) e f h = tt

choose-Chosen :
    (H : SandboxHost) (sandbox : H.Sandbox) (workspace : Option String) (w : H.World)
    → Ensures (Chosen H sandbox w workspace) (λ _. Unit {0}) (choose H sandbox workspace w)
choose-Chosen H sandbox none w = unasked
choose-Chosen H sandbox (some workspace) w = looked (H.is_at sandbox workspace w) refl
  where
    moving :
        (v : H.World) (r : Outcome H.Sandbox × H.World)
        → H.is_at sandbox workspace w ≡ (returned false, v)
        → H.with_workspace sandbox workspace v ≡ r
        → Ensures (Chosen H sandbox w (some workspace)) (λ _. Unit {0}) r
    moving v (raised x, u) e f = tt
    moving v (returned next, u) e f = elsewhere workspace next v u e f

    looked :
        (r : Outcome Bool × H.World)
        → H.is_at sandbox workspace w ≡ r
        → Ensures
            (Chosen H sandbox w (some workspace))
            (λ _. Unit {0})
            (resume r (moved H sandbox workspace))
    looked (raised x, v) e = tt
    looked (returned true, v) e = there workspace v e
    looked (returned false, v) e = moving v (H.with_workspace sandbox workspace v) e refl

-- What a run of one or more commands does, if it does not raise: in the sandbox for the workspace it
-- runs the commands in order, each with its own directory for pytest's temporary files unless it names
-- one, up to the first that fails; it returns the results of these runs; the temporary directory that
-- was made before them is removed after them; and the execution is a success exactly if every command
-- was run and passed.
pub run-IsExecution :
    (H : SandboxHost) (c : List String) (cs : List (List String)) (workspace : Option String)
    (s : Runner H)
    → Ensures
        (λ t u. IsExecution H (c ∷ cs) workspace s t u)
        (λ _. Unit {0})
        (run H (c ∷ cs) workspace s)
unfolding run
run-IsExecution H c cs workspace s =
    picked (choose H s.sandbox workspace s.world) (choose-Chosen H s.sandbox workspace s.world)
  where
    picked :
        (r : Outcome H.Sandbox × H.World)
        → Ensures (Chosen H s.sandbox s.world workspace) (λ _. Unit {0}) r
        → Ensures
            (λ t u. IsExecution H (c ∷ cs) workspace s t u)
            (λ _. Unit {0})
            (run_chosen H (c ∷ cs) s r)
    picked (raised x, w) h = tt
    picked (returned sandbox, w) h =
        with_world-IsExecution H c cs workspace s sandbox w h
          (record s { sandbox = sandbox; last_sandbox = sandbox }) (run_in H (c ∷ cs) sandbox w)
          refl refl (run_in-IsExecution H c cs workspace s sandbox w h)
