-- ===== src/Review/Feedback/Ids.antt =====
-- Which risks and cues the feedback of review/feedback.py names.
use mathlib.Core.List.{flat_map, append_assoc}
use pyfix_agent.Base.{
  ℕ, String, ◌<>◌, ◌++◌, join, take_text, ◌≡◌, refl, ◌&&◌, ◌||◌, true, Option, some, List, [], ◌∷◌,
  map, arith, keep, contains, contains-append, contains-keys_keep, nonempty, string_eq,
}
use pyfix_agent.Base.Int.{ℤ, at_least}
use pyfix_agent.Review.Contracts.{
  Counterexample, ReviewAction, ReviewOutcome, ReviewRisk, StructuralCue,
}
use pyfix_agent.Review.Policy.{ReviewPolicy, risk_ids, cue_id_text, decide}
use pyfix_agent.Review.Policy.Revision.{decide_revise}
use pyfix_agent.Review.Feedback.{
  shown, counterexample_line, risk_lines, cue_key, cue_line, is_selected, build_review_feedback,
}

is_selected-nonempty :
    (ids : List String)
    → nonempty ids ≡ true
    → (r : ReviewRisk) → is_selected ids r ≡ contains r.risk_id ids
is_selected-nonempty ids h r = ground arith

-- The ids that come back with the feedback, where ids were asked for.
feedback_ids :
    (o : ReviewOutcome) (max_chars : ℤ) (ids : List String) (cues : List StructuralCue) (i : String)
    → nonempty ids ≡ true
    → contains i (build_review_feedback o max_chars ids cues).1
      ≡ ((contains i (risk_ids o.risks) || contains i (map cue_key cues)) && contains i ids)
unfolding build_review_feedback
feedback_ids o max_chars ids cues i h = ground (
  arith,
  contains-append i (risk_ids (keep (is_selected ids) o.risks))
      (map cue_key (keep (λ cue. contains (cue_key cue) ids) cues)),
  contains-keys_keep (λ (r : ReviewRisk). r.risk_id) (λ k. contains k ids) (is_selected ids)
      (is_selected-nonempty ids h) i o.risks,
  contains-keys_keep cue_key (λ k. contains k ids) (λ cue. contains (cue_key cue) ids) (λ cue. refl)
      i cues,
)

map-cue_key :
    (cues : List StructuralCue)
    → map cue_id_text (map (λ cue. shown cue.id) cues) ≡ map cue_key cues
map-cue_key [] = refl
map-cue_key (c ∷ cues) = ground (arith, map-cue_key cues)

-- Lines that give the shape of a counterexample each.
pub data Shapes : List String → Type 0 where
  no_shapes : Shapes []
  shape :
      (text : String) (lines : List String)
      → Shapes lines
      → Shapes (("Counterexample shape: " <> text) ∷ lines)

-- Lines in sections, one for each of these ids in their order: the section's first line is headed with
-- the id, and its further lines are shapes of counterexamples.
pub data Sections : List String → List String → Type 0 where
  no_sections : Sections [] []
  section :
      (id text : String) (ids shapes lines : List String)
      → Shapes shapes
      → Sections ids lines
      → Sections (id ∷ ids) (("[" <> id <> "] " <> text) ∷ (shapes ++ lines))

counterexample_line-Shapes : (cs : List Counterexample) → Shapes (map counterexample_line cs)
counterexample_line-Shapes [] = no_shapes
counterexample_line-Shapes (c ∷ cs) = shape _ _ (counterexample_line-Shapes cs)

cue_line-Sections : (cues : List StructuralCue) → Sections (map cue_key cues) (map cue_line cues)
cue_line-Sections [] = no_sections
cue_line-Sections (c ∷ cues) = section _ _ _ [] _ no_shapes (cue_line-Sections cues)

risk_lines-Sections :
    (risks : List ReviewRisk) (ids lines : List String)
    → Sections ids lines
    → Sections (risk_ids risks ++ ids) (flat_map risk_lines risks ++ lines)
unfolding flat_map
risk_lines-Sections [] ids lines h = h
risk_lines-Sections (r ∷ risks) ids lines h =
    rw (append_assoc (map counterexample_line r.counterexamples) (flat_map risk_lines risks) lines)
      (section r.risk_id _ _ _ _ (counterexample_line-Shapes r.counterexamples)
        (risk_lines-Sections risks ids lines h))

-- What the feedback says: its text, cut at the longer of 200 and `max_chars` characters, is two lines of
-- introduction and then a section for each of the ids that are returned with it.
pub record Says (feedback : String × List String) (max_chars : ℤ) : Type 0 where
  pub lines : List String
  pub sections : Sections feedback.1 lines
  pub text :
      feedback.0
      ≡ take_text (at_least 200 max_chars) (
          join "\n" (
            "Visible tests pass, but an independent semantic review found validated blocking risks."
            ∷ "Revise the current candidate without weakening behavior already covered by visible tests."
            ∷ lines))

build_review_feedback-Says :
    (o : ReviewOutcome) (max_chars : ℤ) (ids : List String) (cues : List StructuralCue)
    → Says (build_review_feedback o max_chars ids cues) max_chars
unfolding build_review_feedback
build_review_feedback-Says o max_chars ids cues =
    let selected = keep (is_selected ids) o.risks in
    let selected_cues = keep (λ cue. contains (cue_key cue) ids) cues in
    record {
      lines = flat_map risk_lines selected ++ map cue_line selected_cues;
      sections =
          risk_lines-Sections selected (map cue_key selected_cues) (map cue_line selected_cues)
            (cue_line-Sections selected_cues);
      text = refl;
    }

-- The feedback for a revision, made from the same outcome and the same cues as the policy's decision:
-- the ids that are returned with it are exactly those of the decision; and its text, cut at the longer
-- of 200 and `max_chars` characters, is an introduction and then, for each returned id in order, a
-- section headed with that id.
pub feedback_ids-decide :
    (p : ReviewPolicy) (o : ReviewOutcome) (used : ℕ) (error : Option String)
    (categories : List String) (max_chars : ℤ) (cues : List StructuralCue)
    → (decide p (some o) used error categories (map (λ cue. shown cue.id) cues)).action
      ≡ ReviewAction.revise
    → let d = decide p (some o) used error categories (map (λ cue. shown cue.id) cues) in
      let feedback = build_review_feedback o max_chars d.blocking_risk_ids cues in
      ((i : String) → contains i feedback.1 ≡ contains i d.blocking_risk_ids)
      × Says feedback max_chars
feedback_ids-decide p o used error categories max_chars cues h =
    let d = decide p (some o) used error categories (map (λ cue. shown cue.id) cues) in
    (
      λ i.
          let asked =
            decide_revise p o used error categories (map (λ cue. shown cue.id) cues) i h in
          ground
            (arith, feedback_ids o max_chars d.blocking_risk_ids cues i asked.1, map-cue_key cues),
      build_review_feedback-Says o max_chars d.blocking_risk_ids cues,
    )
