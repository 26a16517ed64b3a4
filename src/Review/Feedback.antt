-- ===== src/Review/Feedback.antt =====
-- review/feedback.py
pub mod Ids
use pyfix_agent.Base.{
  String, ◌<>◌, Bool, ◌&&◌, ◌||◌, not, Option, none, some, List, [], ◌∷◌, ◌++◌, map, keep, contains,
  nonempty, join, take_text, string_eq,
}
use mathlib.Core.List.{flat_map}
use pyfix_agent.Base.Int.{ℤ, at_least}
use pyfix_agent.Review.Contracts.{
  ReviewRisk, ReviewOutcome, Counterexample, StructuralCue, is_blocking,
}

-- `f"{o}"` for `o : str | None`
abbrev pub shown : Option String → String
shown none = "None"
shown (some s) = s

abbrev pub cue_key : StructuralCue → String
cue_key cue = "cue:" <> shown cue.id

abbrev pub is_selected : List String → ReviewRisk → Bool
is_selected risk_ids r = contains r.risk_id risk_ids || (not (nonempty risk_ids) && is_blocking r)

abbrev pub counterexample_line : Counterexample → String
counterexample_line c =
    "Counterexample shape: " <> c.input_shape <> "; required property: " <> c.expected_property

abbrev pub risk_lines : ReviewRisk → List String
risk_lines r =
    ("[" <> r.risk_id <> "] " <> r.category <> ": " <> r.reason)
    ∷ map counterexample_line r.counterexamples

abbrev pub cue_line : StructuralCue → String
cue_line cue = "[" <> cue_key cue <> "] " <> shown cue.description

unfoldable pub build_review_feedback :
    ReviewOutcome → ℤ → List String → List StructuralCue → String × List String
build_review_feedback o max_chars risk_ids structural_cues =
    let selected = keep (is_selected risk_ids) o.risks in
    let selected_cues = keep (λ cue. contains (cue_key cue) risk_ids) structural_cues in
    let lines =
      ("Visible tests pass, but an independent semantic review found validated blocking risks."
        ∷ "Revise the current candidate without weakening behavior already covered by visible tests."
        ∷ [])
      ++ (flat_map risk_lines selected ++ map cue_line selected_cues) in
    (
      take_text (at_least 200 max_chars) (join "\n" lines),
      map (λ r. r.risk_id) selected ++ map cue_key selected_cues,
    )
