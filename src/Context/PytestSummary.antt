-- ===== src/Context/PytestSummary.antt =====
-- context/pytest_summary.py: the counts and the failed tests of a pytest output. The regular
-- expressions are matched by hand, on digits and word characters of ASCII.
pub mod FailedTests
use pyfix_agent.Base.{
  ℕ, zero, suc, ◌+◌, ◌-◌, String, ◌<>◌, ◌≡◌, refl, Bool, true, false, Option, none, some, List, [],
  ◌∷◌, ◌++◌, ◌==◌, if◌then◌else◌, contains, nonempty, string_eq, nat_eq, text_length, join, show,
  splitlines, lstrip, after_prefix, after_spaces, after_number, word_of, at_word_end, is_word,
  forward_slashes,
}
use mathlib.Core.List.{reverse}
use pyfix_agent.Core.Schemas.{PytestSummary}

-- Chains of matches.
infixl 5 ◌>>=◌
abbrev ◌>>=◌ : {A B : Type 0} → Option A → (A → Option B) → Option B
none >>= f = none
some a >>= f = f a

abbrev guard : Bool → Option (Unit {0})
guard true = some tt
guard false = none

-- `items?\b`
item_word : String → Option (Unit {0})
item_word s = do
  rest ← after_prefix "item" s
  guard (elim (after_prefix "s" rest) [ none ↦ at_word_end rest | some r ↦ at_word_end r ])

-- `_COLLECTED_RE` at a word boundary, and its first match in a line.
collected_here : String → Option ℕ
unfolding item_word
collected_here s = do
  rest ← after_prefix "collected" s
  digits ← after_spaces rest
  found ← after_number digits
  items ← after_spaces found.1
  matched ← item_word items
  some found.0

collected : Bool → String → Option ℕ
unfolding collected_here
collected after_word String.[] = none
collected after_word (String.◌∷◌ c s) =
    let rest = collected (is_word c) s in
    elim (if after_word then none else collected_here (String.◌∷◌ c s)) [
      | none ↦ rest
      | some n ↦ some n
    ]

-- `_FAILED_NODE_RE`
unfoldable pub failed_node : String → Option String
failed_node line = do
  rest ← after_prefix "FAILED" (lstrip line)
  node ← after_spaces rest
  let word = word_of node
  if word == "" then none else some word

pub data CountKind : Type 0 where
  failed passed skipped : CountKind

ends_word : CountKind → Option String → Option (CountKind × String)
ends_word k none = none
ends_word k (some rest) = if at_word_end rest then some (k, rest) else none

first_of_two : {A : Type 0} → Option A → Option A → Option A
first_of_two none b = b
first_of_two (some a) b = some a

-- `(failed|passed|skipped|error|errors)\b`; an error counts as a failure.
kind_here : String → Option (CountKind × String)
unfolding ends_word first_of_two
kind_here s = first_of_two (ends_word failed (after_prefix "failed" s)) (
    first_of_two (ends_word passed (after_prefix "passed" s)) (
      first_of_two (ends_word skipped (after_prefix "skipped" s)) (
        first_of_two (ends_word failed (after_prefix "error" s))
          (ends_word failed (after_prefix "errors" s)))))

count_here : String → Option (ℕ × CountKind × String)
unfolding kind_here
count_here s = do
  found ← after_number s
  word ← after_spaces found.1
  kind ← kind_here word
  some (found.0, kind.0, kind.1)

-- `_COUNT_RE.finditer`: after a match the scan goes on behind it, so `skip` characters are passed.
counts_in : ℕ → String → List (ℕ × CountKind)
unfolding count_here
counts_in skip String.[] = []
counts_in (suc skip) (String.◌∷◌ c s) = counts_in skip s
counts_in zero (String.◌∷◌ c s) = elim (count_here (String.◌∷◌ c s)) [
  | none ↦ counts_in 0 s
  | some (n, kind, rest) ↦ (n, kind) ∷ counts_in (text_length s - text_length rest) s
]

pub record Counts : Type 0 where
  pub passed : ℕ
  pub failed : ℕ
  pub skipped : ℕ

abbrev no_counts : Counts
no_counts = record { passed = 0; failed = 0; skipped = 0 }

add_counts : Counts → List (ℕ × CountKind) → Counts
add_counts c [] = c
add_counts c ((n, failed) ∷ rest) = add_counts (record c { failed = c.failed + n }) rest
add_counts c ((n, passed) ∷ rest) = add_counts (record c { passed = n }) rest
add_counts c ((n, skipped) ∷ rest) = add_counts (record c { skipped = n }) rest

-- The loop over the reversed lines, up to the first line with a count.
last_counts : List String → Counts
unfolding counts_in add_counts
last_counts [] = no_counts
last_counts (line ∷ lines) = elim (counts_in 0 line) [
  | [] ↦ last_counts lines
  | x ∷ found ↦ add_counts no_counts (x ∷ found)
]

total_from : Option ℕ → List String → Option ℕ
unfolding collected
total_from total [] = total
total_from total (line ∷ lines) =
    total_from (elim (collected false line) [ none ↦ total | some n ↦ some n ]) lines

-- The nodes of the lines that begin with FAILED, each once.
abbrev pub add_node : Option String → List String → List String
add_node none nodes = nodes
add_node (some node) nodes =
    if contains (forward_slashes node) nodes then nodes else nodes ++ forward_slashes node ∷ []

unfoldable failed_tests_from : List String → List String → List String
failed_tests_from nodes [] = nodes
failed_tests_from nodes (line ∷ lines) = failed_tests_from (add_node (failed_node line) nodes) lines

abbrev inferred : Option ℕ → ℕ → Option ℕ
inferred (some n) total = some n
inferred none total = if total == 0 then none else some total

unfoldable pub parse_pytest_summary : String → PytestSummary
unfolding last_counts total_from failed_tests_from failed_node
parse_pytest_summary output =
    let lines = splitlines output in
    let counts = last_counts (reverse lines) in
    record {
      total = inferred (total_from none lines) (counts.passed + counts.failed + counts.skipped);
      passed = counts.passed;
      failed = counts.failed;
      skipped = counts.skipped;
      failed_tests = failed_tests_from [] lines;
    }

unfoldable pub short_test_result : Option PytestSummary → String
short_test_result none = "unknown"
short_test_result (some s) =
    let parts =
      (if s.failed == 0 then [] else (show s.failed <> " failed") ∷ [])
      ++ ((if s.passed == 0 then [] else (show s.passed <> " passed") ∷ [])
          ++ (if s.skipped == 0 then [] else (show s.skipped <> " skipped") ∷ [])) in
    if nonempty parts then join ", " parts else "no tests parsed"

abbrev sample : String
sample =
    "collected 12 items\nFAILED tests\\test_a.py::test_x - boom\n FAILED b::y\nFAILED b::y\n== 2 failed, 10 passed, 1 error in 0.1s =="

sample_summary : parse_pytest_summary sample ≡ record {
  total = some 12;
  passed = 10;
  failed = 3;
  skipped = 0;
  failed_tests = "tests/test_a.py::test_x" ∷ "b::y" ∷ [];
}
unfolding parse_pytest_summary splitlines after_prefix after_spaces after_number word_of
    forward_slashes at_word_end text_length
sample_summary = refl
