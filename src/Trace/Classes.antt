-- ===== src/Trace/Classes.antt =====
-- What the class that `iteration_result` of trace.py gives an attempt says of it.
use pyfix_agent.Base.{
  String, ◌≡◌, ◌⊎◌, ◌↔◌, Bool, true, false, Option, none, some, arith, truthy?, string_eq, ◌==◌,
}
use pyfix_agent.Base.Int.{ℤ, pos, negsuc, is_code}
use pyfix_agent.Core.Contracts.{RepairMode, patch}
use pyfix_agent.Core.Schemas.{FailureType, FailureDelta}
use pyfix_agent.Trace.{iteration_result, class_of_failure}

-- The classes of a test run that failed.
abbrev pub IsTested : FailureType → Type 0
IsTested t =
    (t ≡ FailureType.timeout)
    ⊎ ((t ≡ FailureType.regression)
        ⊎ ((t ≡ FailureType.incomplete_fix) ⊎ (t ≡ FailureType.no_progress)))

-- The tests ran to an exit code other than 0, which is 124 exactly for a timeout.
abbrev pub Exited : FailureType → Option ℤ → Type 0
Exited t none = ⊥
Exited t (some code) =
    (is_code 0 code ≡ false) × ((t ≡ FailureType.timeout) ↔ (is_code 124 code ≡ true))

-- An attempt is classed as a success exactly when it is one. It is classed by its test run only if
-- the model gave an edit that parsed and was applied, and the tests ran and did not exit with 0;
-- and then it is a timeout exactly if they exited with 124.
pub iteration_result_class :
    (success : Bool) (mode : RepairMode) (raw : String) (parse_error : Option String)
    (apply_success : Bool) (apply_error : String) (check_success : Bool) (check_error : String)
    (exit_code : Option ℤ) (delta : FailureDelta)
    → let t =
        (iteration_result success mode raw parse_error apply_success apply_error check_success
          check_error exit_code delta).failure_type in
      ((t ≡ FailureType.success) ↔ (success ≡ true))
      × (IsTested t
          → (apply_success ≡ true)
            × (truthy? parse_error ≡ false)
            × ((raw == "") ≡ false)
            × (mode ≡ patch → check_success ≡ true)
            × Exited t exit_code)
unfolding iteration_result class_of_failure
iteration_result_class s m raw pe a ae cs ce none delta = ground arith
iteration_result_class s m raw pe a ae cs ce (some (pos n)) delta = ground arith
iteration_result_class s m raw pe a ae cs ce (some (negsuc n)) delta = ground arith
