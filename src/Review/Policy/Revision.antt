-- ===== src/Review/Policy/Revision.antt =====
-- When review/policy.py asks for a revision, and for what.
use pyfix_agent.Base.{
  ℕ, ◌<◌, String, ◌≡◌, ◌⊎◌, inl, inr, ◌||◌, Bool, true, Option, none, some, List, [], ◌∷◌, map,
  arith, keep, contains, contains-keys_keep_sub, nonempty, string_eq,
}
use pyfix_agent.Review.Contracts.{
  ReviewVerdict, ReviewAction, ReviewRisk, ReviewOutcome, is_blocking, blocking_risks,
}
use pyfix_agent.Review.Policy.{
  ReviewPolicy, is_promoted, risk_ids, or_ids, cue_id_text, decide_outcome, by_verdict, decide,
}

-- The risks and cues that a decision may name.
abbrev pub known : ReviewOutcome → List String → String → Bool
known o cue_ids i = contains i (risk_ids o.risks) || contains i (map cue_id_text cue_ids)

contains-or_ids :
    (i : String) (a b : List String)
    → contains i (or_ids a b) ≡ true
    → (contains i a ≡ true) ⊎ (contains i b ≡ true)
contains-or_ids i [] b h = inr h
contains-or_ids i (x ∷ a) b h = inl h

actionable-known :
    (o : ReviewOutcome) (categories : List String) (i : String)
    → contains i
        (or_ids (risk_ids (blocking_risks o)) (risk_ids (keep (is_promoted categories) o.risks)))
      ≡ true
    → contains i (risk_ids o.risks) ≡ true
actionable-known o categories i h =
    elim (contains-or_ids i (risk_ids (blocking_risks o))
      (risk_ids (keep (is_promoted categories) o.risks)) h) [
        | inl b ↦ contains-keys_keep_sub (λ r. r.risk_id) is_blocking i o.risks b
        | inr w ↦ contains-keys_keep_sub (λ r. r.risk_id) (is_promoted categories) i o.risks w
      ]

by_verdict-ne-revise :
    (v : ReviewVerdict) (risks : List ReviewRisk)
    → (by_verdict v risks).action ≡ ReviewAction.revise
    → ⊥
unfolding by_verdict
by_verdict-ne-revise v risks h = ground arith

-- A revision is asked for only of a review with an outcome, only while the budget of semantic
-- revisions is not used up, and for at least one risk or cue; every id that the decision names is
-- that of a risk of the outcome or of a cue that was passed in.
pub decide_revise :
    (p : ReviewPolicy) (o : ReviewOutcome) (used : ℕ) (error : Option String)
    (categories cue_ids : List String) (i : String)
    → (decide p (some o) used error categories cue_ids).action ≡ ReviewAction.revise
    → let d = decide p (some o) used error categories cue_ids in
      (used < p.max_semantic_revisions)
      × (nonempty d.blocking_risk_ids ≡ true)
      × (contains i d.blocking_risk_ids ≡ true → known o cue_ids i ≡ true)
unfolding decide decide_outcome
decide_revise p o used error categories cue_ids i h =
    ground (arith, by_verdict-ne-revise o.verdict o.risks, actionable-known o categories i)

-- The same bound, whether the review had an outcome or not.
pub decide_revise_bounded :
    (p : ReviewPolicy) (outcome : Option ReviewOutcome) (used : ℕ) (error : Option String)
    (categories cue_ids : List String)
    → (decide p outcome used error categories cue_ids).action ≡ ReviewAction.revise
    → used < p.max_semantic_revisions
unfolding decide
decide_revise_bounded p none used error categories cue_ids h = ground arith
decide_revise_bounded p (some o) used error categories cue_ids h =
    (decide_revise p o used error categories cue_ids "" h).0
