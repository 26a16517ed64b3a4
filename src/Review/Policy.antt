-- ===== src/Review/Policy.antt =====
-- review/policy.py: what the workflow does with the outcome of a review.
pub mod Acceptance
pub mod Revision
use pyfix_agent.Base.{
  ℕ, String, ◌<>◌, Bool, ◌&&◌, not, Option, none, some, List, [], ◌∷◌, map, ltb, keep, contains,
  nonempty, or_text?, string_eq, if◌then◌else◌,
}
use pyfix_agent.Base.Int.{ℤ, at_least}
use pyfix_agent.Review.Contracts.{
  ReviewVerdict, ReviewAction, accept_with_warnings, needs_review, ReviewRisk, ReviewOutcome,
  is_blocking, blocking_risks, ReviewDecision,
}

pub record ReviewPolicy : Type 0 where
  pub max_semantic_revisions : ℕ

-- `__init__`
abbrev pub initial : ℤ → ReviewPolicy
initial n = record { max_semantic_revisions = at_least 0 n }

-- A warning that the policy promotes: its category is that of a structural cue, and it comes with
-- evidence and a counterexample.
abbrev pub is_promoted : List String → ReviewRisk → Bool
is_promoted categories r =
    not (is_blocking r)
    && (contains r.category categories && (nonempty r.evidence && nonempty r.counterexamples))

abbrev pub risk_ids : List ReviewRisk → List String
risk_ids = map (λ r. r.risk_id)

-- `a or b` on tuples
abbrev pub or_ids : List String → List String → List String
or_ids [] b = b
or_ids (x ∷ a) b = x ∷ a

abbrev pub cue_id_text : String → String
cue_id_text cue_id = "cue:" <> cue_id

abbrev decision : ReviewAction → String → List String → ReviewDecision
decision action reason ids = record { action = action; reason = reason; blocking_risk_ids = ids }

-- The last part of `decide`, where no risk and no cue calls for a revision.
by_verdict : ReviewVerdict → List ReviewRisk → ReviewDecision
by_verdict ReviewVerdict.abstain risks = decision needs_review "reviewer abstained" []
by_verdict ReviewVerdict.revise risks =
    decision needs_review "reviewer requested revision without blocking evidence" []
by_verdict ReviewVerdict.accept [] = decision ReviewAction.accept "reviewer accepted candidate" []
by_verdict ReviewVerdict.accept (r ∷ risks) =
    decision accept_with_warnings "no blocking semantic risks" []

decide_outcome : ReviewPolicy → ReviewOutcome → ℕ → List String → List String → ReviewDecision
unfolding by_verdict
decide_outcome p o revisions_used categories cue_ids =
    let blockers = risk_ids (blocking_risks o) in
    let actionable = or_ids blockers (risk_ids (keep (is_promoted categories) o.risks)) in
    let cue_risks = map cue_id_text cue_ids in
    if nonempty actionable
    then (if ltb revisions_used p.max_semantic_revisions
        then decision ReviewAction.revise
            (if nonempty blockers
              then "validated blocking semantic risks"
              else "evidence-based warning matches a structural risk cue")
            actionable
        else decision needs_review "semantic revision budget exhausted" actionable)
    else if nonempty cue_risks
    then (if ltb revisions_used p.max_semantic_revisions
        then decision ReviewAction.revise "unmitigated deterministic structural risk cue" cue_risks
        else decision needs_review "structural risk cue remains after revision" cue_risks)
    else by_verdict o.verdict o.risks

unfoldable pub decide :
    ReviewPolicy
    → Option ReviewOutcome
    → ℕ
    → Option String
    → List String
    → List String
    → ReviewDecision
unfolding decide_outcome
decide p none revisions_used error categories cue_ids =
    decision needs_review (or_text? error "semantic review did not produce an outcome") []
decide p (some o) revisions_used error categories cue_ids =
    decide_outcome p o revisions_used categories cue_ids
