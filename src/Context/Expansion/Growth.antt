-- ===== src/Context/Expansion/Growth.antt =====
-- What an expansion of context/policy.py does to the plans that follow it.
use pyfix_agent.Base.{◌+◌, ◌≤◌, min, String, ◌≡◌, Bool, List, [], ◌∷◌, arith}
use pyfix_agent.Base.{length, ◌⊎◌}
use pyfix_agent.Base.Int.{ℤ, at_least}
use pyfix_agent.Context.Expansion.{ContextExpansionPolicy, ContextPlan, initial, expand, plan}

-- The policy after one expansion for each reason, in order.
pub expand_all : ContextExpansionPolicy → List String → ContextExpansionPolicy
expand_all p [] = p
expand_all p (reason ∷ reasons) = expand_all (expand p reason) reasons

level-expand_all_from :
    (p : ContextExpansionPolicy) (reasons : List String)
    → p.level ≤ p.max_level
    → (expand_all p reasons).level ≡ min p.max_level (p.level + length reasons)
unfolding expand_all expand
level-expand_all_from p [] h = omega arith
level-expand_all_from p (r ∷ rs) h =
    omega (arith, level-expand_all_from (expand p r) rs (omega arith))

-- From a new policy, the level after any expansions is their number, capped at the configured
-- maximum (at 0 where that is negative).
pub level-expand_all :
    (max_level : ℤ) (reasons : List String)
    → (expand_all (initial max_level) reasons).level ≡ min (at_least 0 max_level) (length reasons)
unfolding initial
level-expand_all m reasons = omega (arith, level-expand_all_from (initial m) reasons (omega arith))

-- A plan that covers another: the whole workspace, or windows and files in no smaller number.
abbrev pub Covers : ContextPlan → ContextPlan → Type 0
Covers big small =
    (big.strategy ≡ "full")
    ⊎ ((small.strategy ≡ "traceback")
        × (big.strategy ≡ "traceback")
        × (at_least 0 small.line_window ≤ at_least 0 big.line_window)
        × (at_least 0 small.max_files ≤ at_least 0 big.max_files))

-- An expansion never narrows the plan made from the same settings.
pub plan-expand-Covers :
    (p : ContextExpansionPolicy) (reason strategy : String) (line_window max_files : ℤ)
    (allow_full : Bool)
    → p.level ≤ p.max_level
    → Covers
        (plan (expand p reason) strategy line_window max_files allow_full)
        (plan p strategy line_window max_files allow_full)
unfolding plan expand
plan-expand-Covers p reason strategy line_window max_files allow_full h = ground arith
