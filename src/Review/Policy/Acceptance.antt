-- ===== src/Review/Policy/Acceptance.antt =====
-- When review/policy.py accepts a candidate.
use pyfix_agent.Base.{
  ℕ, String, ◌≡◌, refl, ◌⊎◌, ◌↔◌, Bool, false, ◌||◌, Option, none, some, List, [], ◌∷◌, arith, any,
  keep, nonempty,
}
use pyfix_agent.Review.Contracts.{
  ReviewVerdict, ReviewAction, accept_with_warnings, ReviewRisk, ReviewOutcome, ReviewDecision,
  is_blocking,
}
use pyfix_agent.Review.Policy.{ReviewPolicy, is_promoted, risk_ids, or_ids, decide_outcome, decide}

abbrev pub Accepts : ReviewDecision → Type 0
Accepts d = (d.action ≡ ReviewAction.accept) ⊎ (d.action ≡ accept_with_warnings)

-- A reviewer's outcome with nothing that calls for a change: no blocking risk, no warning that
-- matches a cue, and no cue.
abbrev pub IsAcceptable : Option ReviewOutcome → List String → List String → Type 0
IsAcceptable none categories cue_ids = ⊥
IsAcceptable (some o) categories cue_ids =
    (o.verdict ≡ ReviewVerdict.accept)
    × (any is_blocking o.risks ≡ false)
    × (any (is_promoted categories) o.risks ≡ false)
    × (cue_ids ≡ [])

nonempty-risk_ids :
    (p : ReviewRisk → Bool) (risks : List ReviewRisk)
    → nonempty (risk_ids (keep p risks)) ≡ any p risks
nonempty-risk_ids p [] = refl
nonempty-risk_ids p (r ∷ risks) = ground (arith, nonempty-risk_ids p risks)

nonempty-or_ids : (a b : List String) → nonempty (or_ids a b) ≡ (nonempty a || nonempty b)
nonempty-or_ids [] b = refl
nonempty-or_ids (x ∷ a) b = refl

decide_outcome-Accepts :
    (p : ReviewPolicy) (o : ReviewOutcome) (used : ℕ) (categories cue_ids : List String)
    → Accepts (decide_outcome p o used categories cue_ids)
      ↔ IsAcceptable (some o) categories cue_ids
unfolding decide_outcome
decide_outcome-Accepts p o used categories [] = ground (
  arith,
  nonempty-risk_ids is_blocking o.risks,
  nonempty-risk_ids (is_promoted categories) o.risks,
  nonempty-or_ids (risk_ids (keep is_blocking o.risks))
      (risk_ids (keep (is_promoted categories) o.risks)),
)
decide_outcome-Accepts p o used categories (c ∷ cue_ids) = ground arith

-- The policy accepts a candidate, with warnings or without, exactly when the review has an outcome
-- whose verdict is to accept, with no blocking risk, no promoted warning and no structural cue.
-- Neither the revision budget nor an error text changes that.
pub decide-Accepts :
    (p : ReviewPolicy) (outcome : Option ReviewOutcome) (used : ℕ) (error : Option String)
    (categories cue_ids : List String)
    → Accepts (decide p outcome used error categories cue_ids)
      ↔ IsAcceptable outcome categories cue_ids
unfolding decide
decide-Accepts p none used error categories cue_ids = ground arith
decide-Accepts p (some o) used error categories cue_ids =
    decide_outcome-Accepts p o used categories cue_ids
