-- ===== src/Tests/Summaries.antt =====
-- The summary of an output that names a failed test twice.
use pyfix_agent.Base.{String, ◌≡◌, any, contains, string_eq, splitlines}
use pyfix_agent.Context.PytestSummary.{parse_pytest_summary}
use pyfix_agent.Context.PytestSummary.FailedTests.{
  IsUnique, names, parse_pytest_summary-failed_tests,
}

abbrev twice : String
twice = "FAILED a.py::t - assert\nFAILED a.py::t\n1 failed"

parse_pytest_summary-failed_tests_example :
    IsUnique (parse_pytest_summary twice).failed_tests
    × (contains "a.py::t" (parse_pytest_summary twice).failed_tests
        ≡ any (names "a.py::t") (splitlines twice))
parse_pytest_summary-failed_tests_example = parse_pytest_summary-failed_tests twice "a.py::t"
