-- ===== src/Repair/RetryPolicy/Switching.antt =====
-- When repair/retry_policy.py changes the backend, over whole histories of results.
use pyfix_agent.Base.{◌≤◌, ◌<◌, ◌≡◌, refl, ◌≢◌, true, some, List, [], ◌∷◌, ◌∙◌, ◌⊎◌, arith}
use pyfix_agent.Core.Contracts.{RepairMode, patch, replacement, check, apply, ApplyResult}
use pyfix_agent.Repair.RetryPolicy.{RetryPolicy, initial, after_apply}

-- The policy after each of the results in turn.
pub run : RetryPolicy → List ApplyResult → RetryPolicy
run p [] = p
run p (r ∷ rs) = run (after_apply p r).1 rs

-- Each result is that of the backend which the policy had chosen, as the engine has it.
abbrev pub IsHistory : RetryPolicy → List ApplyResult → Type 0
IsHistory p [] = Unit
IsHistory p (r ∷ rs) = (r.mode ≡ p.mode) × IsHistory (after_apply p r).1 rs

abbrev pub IsSettled : RetryPolicy → Type 0
IsSettled p = p.mode ≡ patch → p.consecutive_patch_check_failures < 2

after_apply-IsSettled :
    (p : RetryPolicy) (r : ApplyResult)
    → r.mode ≡ p.mode
    → IsSettled p
    → IsSettled (after_apply p r).1
unfolding after_apply
after_apply-IsSettled p r m h = ground arith

run-IsSettled_from :
    (p : RetryPolicy) (rs : List ApplyResult) → IsHistory p rs → IsSettled p → IsSettled (run p rs)
unfolding run
run-IsSettled_from p [] hist h = h
run-IsSettled_from p (r ∷ rs) hist h =
    run-IsSettled_from (after_apply p r).1 rs hist.1 (after_apply-IsSettled p r hist.0 h)

-- From a new policy in either mode, after any history of results, the policy stays in patch mode
-- only while fewer than two `git apply --check` failures have been counted.
pub run-IsSettled :
    (mode : RepairMode) (rs : List ApplyResult)
    → IsHistory (initial mode) rs
    → IsSettled (run (initial mode) rs)
run-IsSettled mode rs h = run-IsSettled_from (initial mode) rs h (λ _. omega arith)

abbrev pub IsCheckFailure : ApplyResult → Type 0
IsCheckFailure r = (r.mode ≡ patch) × (r.failure_stage ≡ some check)

abbrev pub IsReplacementFailure : ApplyResult → Type 0
IsReplacementFailure r = (r.mode ≡ replacement) × (r.failure_stage ≡ some apply)

-- Whatever the policy has counted, a decision after an apply names the mode that the policy is in
-- afterwards and goes on with the repair, and the mode changes only on a failed patch check or on a
-- failed application of a replacement.
pub after_apply_decision :
    (p : RetryPolicy) (r : ApplyResult)
    → let (d, p') = after_apply p r in
      (d.next_mode ≡ p'.mode)
      × (d.continue_repair ≡ true)
      × (p'.mode ≢ p.mode → IsCheckFailure r ⊎ IsReplacementFailure r)
unfolding after_apply
after_apply_decision p r = ground arith

abbrev pub AllPatch : List ApplyResult → Type 0
AllPatch [] = Unit
AllPatch (r ∷ rs) = (r.mode ≡ patch) × AllPatch rs

-- Results of the patch backend leave the count of replacement failures alone.
replacement_failures-run :
    (p : RetryPolicy) (rs : List ApplyResult)
    → AllPatch rs
    → (run p rs).consecutive_replacement_apply_failures ≡ p.consecutive_replacement_apply_failures
unfolding run after_apply
replacement_failures-run p [] h = refl
replacement_failures-run p (r ∷ rs) h =
    replacement_failures-run (after_apply p r).1 rs h.1 ∙ ground arith

-- The count of replacement failures survives a stay in patch mode: if one was counted before, then
-- after any results of the patch backend the next failed application of a replacement switches
-- to patch mode at once, though it is the first of its stay, and though its anchor was not lost.
pub stale_replacement_count_switches :
    (p : RetryPolicy) (rs : List ApplyResult) (r : ApplyResult)
    → 1 ≤ p.consecutive_replacement_apply_failures
    → AllPatch rs
    → IsReplacementFailure r
    → ((after_apply (run p rs) r).1.mode ≡ patch)
      × ((after_apply (run p rs) r).1.consecutive_patch_check_failures ≡ 0)
unfolding after_apply
stale_replacement_count_switches p rs r h hist f =
    ground (arith, replacement_failures-run p rs hist)

-- After a switch to patch mode it takes two failed checks to leave it: the first stays, the second
-- switches to replacement mode.
switch_takes_two_checks :
    (p : RetryPolicy) (r c d : ApplyResult)
    → p.mode ≡ replacement
    → (after_apply p r).1.mode ≡ patch
    → IsReplacementFailure r
    → IsCheckFailure c
    → IsCheckFailure d
    → let q = (after_apply (after_apply p r).1 c).1 in
      (q.mode ≡ patch) × ((after_apply q d).1.mode ≡ replacement)
unfolding after_apply
switch_takes_two_checks p r c d m s f hc hd = ground arith
