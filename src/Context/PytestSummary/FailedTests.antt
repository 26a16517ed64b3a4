-- ===== src/Context/PytestSummary/FailedTests.antt =====
-- The failed tests that context/pytest_summary.py reads from an output.
use pyfix_agent.Base.{
  String, ◌≡◌, refl, Bool, false, ◌||◌, Option, none, some, List, [], ◌∷◌, ◌++◌, arith, any,
  contains, contains-append, string_eq, splitlines, forward_slashes, ◌==◌,
}
use pyfix_agent.Context.PytestSummary.{
  failed_node, add_node, failed_tests_from, parse_pytest_summary,
}

-- No test stands in the list twice.
abbrev pub IsUnique : List String → Type 0
IsUnique [] = Unit
IsUnique (x ∷ xs) = (contains x xs ≡ false) × IsUnique xs

-- A line that names a test as failed.
abbrev named : String → Option String → Bool
named test none = false
named test (some node) = forward_slashes node == test

abbrev pub names : String → String → Bool
names test line = named test (failed_node line)

append-IsUnique :
    (xs : List String) (x : String) → IsUnique xs → contains x xs ≡ false → IsUnique (xs ++ x ∷ [])
append-IsUnique [] x u h = (refl, tt)
append-IsUnique (y ∷ xs) x u h = (
  ground (arith, contains-append y xs (x ∷ []), string_eq.equals_iff x y, string_eq.equals_iff y x),
  append-IsUnique xs x u.1 (ground arith),
)

add_node-IsUnique : (o : Option String) (xs : List String) → IsUnique xs → IsUnique (add_node o xs)
add_node-IsUnique none xs u = u
add_node-IsUnique (some node) xs u = ground (arith, append-IsUnique xs (forward_slashes node) u)

contains-add_node :
    (test : String) (o : Option String) (xs : List String)
    → contains test (add_node o xs) ≡ (contains test xs || named test o)
contains-add_node test none xs = ground arith
contains-add_node test (some node) xs = ground (
  arith,
  contains-append test xs (forward_slashes node ∷ []),
  string_eq.equals_iff (forward_slashes node) test,
)

failed_tests_from-IsUnique :
    (xs lines : List String) → IsUnique xs → IsUnique (failed_tests_from xs lines)
unfolding failed_tests_from
failed_tests_from-IsUnique xs [] u = u
failed_tests_from-IsUnique xs (line ∷ lines) u =
    failed_tests_from-IsUnique (add_node (failed_node line) xs) lines
      (add_node-IsUnique (failed_node line) xs u)

contains-failed_tests_from :
    (test : String) (xs lines : List String)
    → contains test (failed_tests_from xs lines) ≡ (contains test xs || any (names test) lines)
unfolding failed_tests_from
contains-failed_tests_from test xs [] = ground arith
contains-failed_tests_from test xs (line ∷ lines) = ground (
  arith,
  contains-failed_tests_from test (add_node (failed_node line) xs) lines,
  contains-add_node test (failed_node line) xs,
)

-- The failed tests of a summary are without duplicates, and they are exactly the tests that some
-- line of the output names as failed, with forward slashes.
pub parse_pytest_summary-failed_tests :
    (output test : String)
    → let tests = (parse_pytest_summary output).failed_tests in
      IsUnique tests × (contains test tests ≡ any (names test) (splitlines output))
unfolding parse_pytest_summary
parse_pytest_summary-failed_tests output test = (
  failed_tests_from-IsUnique [] (splitlines output) tt,
  contains-failed_tests_from test [] (splitlines output),
)
