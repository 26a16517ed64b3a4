-- ===== src/Trace/Delta.antt =====
-- What `failure_delta` of trace.py says of two test runs, and the class that it gives a failing one.
use pyfix_agent.Base.{
  String, ◌≡◌, sym, ◌∙◌, ◌↔◌, Bool, true, false, not, Option, List, arith, any, contains,
  nonempty-keep, any-witness, any-intro, string_eq, Bool-cases, inl, inr,
}
use mathlib.Core.Bool.{false≢true}
use pyfix_agent.Core.Schemas.{PytestSummary, FailureType}
use pyfix_agent.Trace.{failed_of, failure_delta, class_of_failure}

-- Some test fails in the second run and not in the first.
abbrev pub Breaks : List String → List String → Type 0
Breaks before after =
    (node : String) × (contains node after ≡ true) × (contains node before ≡ false)

abbrev pub SameFailures : List String → List String → Type 0
SameFailures before after = (node : String) → contains node before ≡ contains node after

-- The tests of one list that are not in the other.
abbrev missing : List String → List String → Bool
missing xs ys = any (λ node. not (contains node ys)) xs

missing-Breaks : (before after : List String) → (missing after before ≡ true) ↔ Breaks before after
missing-Breaks before after = (
  λ h.
      let (node, m, q) = any-witness (λ node. not (contains node before)) after h in
      (node, m, ground arith),
  λ b. any-intro (λ node. not (contains node before)) after b.0 b.1 (ground arith),
)

not_missing :
    (before after : List String) → (missing after before ≡ false) ↔ (¬ (Breaks before after))
not_missing before after =
    let broken = missing-Breaks before after in
    (
      λ h b. false≢true (sym h ∙ broken.1 b),
      λ k. elim (Bool-cases (missing after before)) [ inl h ↦ absurd (k (broken.0 h)) | inr h ↦ h ],
    )

same_not_missing :
    (before after : List String) → SameFailures before after → missing after before ≡ false
same_not_missing before after same =
    (not_missing before after).1 (λ b. false≢true (sym b.2 ∙ same b.0 ∙ b.1))

-- With no test missing on either side, the runs fail alike.
none_missing :
    (before after : List String)
    → missing after before ≡ false
    → missing before after ≡ false
    → SameFailures before after
none_missing before after h k node = elim (Bool-cases (contains node before)) [
  | inl b ↦ ground (arith, any-intro (λ n. not (contains n after)) before node b)
  | inr b ↦ elim (Bool-cases (contains node after)) [
    | inl a ↦ ground (arith, any-intro (λ n. not (contains n before)) after node a)
    | inr a ↦ rw (a, b)
  ]
]

class_by_missing :
    (b a : Option PytestSummary)
    → let before = failed_of b in
      let after = failed_of a in
      let c = class_of_failure (failure_delta b a) in
      ((c ≡ FailureType.regression) ↔ (missing after before ≡ true))
      × ((c ≡ FailureType.incomplete_fix)
          ↔ ((missing after before ≡ false) × (missing before after ≡ true)))
      × ((c ≡ FailureType.no_progress)
          ↔ ((missing after before ≡ false) × (missing before after ≡ false)))
unfolding failure_delta class_of_failure
class_by_missing b a = ground (
  arith,
  nonempty-keep (λ node. not (contains node (failed_of b))) (failed_of a),
  nonempty-keep (λ node. not (contains node (failed_of a))) (failed_of b),
)

-- A failing run is a regression exactly when some test fails that did not fail before; an
-- incomplete fix exactly when no such test does and some test that failed before does not fail; and
-- no progress exactly when the same tests fail.
pub class_of_failure_meaning :
    (b a : Option PytestSummary)
    → let before = failed_of b in
      let after = failed_of a in
      let c = class_of_failure (failure_delta b a) in
      ((c ≡ FailureType.regression) ↔ Breaks before after)
      × ((c ≡ FailureType.incomplete_fix) ↔ (¬ (Breaks before after) × Breaks after before))
      × ((c ≡ FailureType.no_progress) ↔ SameFailures before after)
class_of_failure_meaning b a =
    let before = failed_of b in
    let after = failed_of a in
    let c = class_by_missing b a in
    let broken = missing-Breaks before after in
    let mended = missing-Breaks after before in
    let sound = not_missing before after in
    (
      (λ h. broken.0 (c.0.0 h), λ k. c.0.1 (broken.1 k)),
      (λ h. (sound.0 (c.1.0 h).0, mended.0 (c.1.0 h).1), λ k. c.1.1 (sound.1 k.0, mended.1 k.1)),
      (
        λ h. none_missing before after (c.2.0 h).0 (c.2.0 h).1,
        λ same. c.2.1 (
          same_not_missing before after same,
          same_not_missing after before (λ node. sym (same node)),
        ),
      ),
    )
