-- ===== src/Tests/Answers.antt =====
-- An answer of the reviewer with one blocking risk, as the parser reads it.
use pyfix_agent.Base.{
  refl, none, some, [], ◌∷◌, strip, lstrip, rstrip, is_space, text_length, take_list,
  forward_slashes,
}
use pyfix_agent.Base.Int.{pos}
use pyfix_agent.Base.Outcome.{done}
use pyfix_agent.Base.Json
use pyfix_agent.Base.Json.{Json, text, array, object, integer, nil, cons, member, Members, lookup}
use pyfix_agent.Review.Contracts.{revise, blocking, ReviewOutcome}
use pyfix_agent.Review.Parser.{
  ReviewParser, new_parser, parse, outcome_of, text_value, checked_text, contracts_of,
  contracts_from, risks_of, risks_from, risk_id_of, risk_of, evidence, evidence_entries,
  evidence_entry, evidence_line, counterexamples, counterexample_entries, counterexample,
}
use pyfix_agent.Review.Parser.Valid.{IsValid, parse-IsValid}

abbrev place : Json
place = object (member "path" (text "src\\a.py") (member "line" (integer (pos 3)) Json.done))

abbrev shape : Json
shape = object (
    member "input_shape" (text "an empty list")
      (member "expected_property" (text "no error") Json.done))

abbrev risk : Json
risk = object (
    member "id" (text "R1") (
      member "severity" (text "blocking") (
        member "category" (text "unheard of") (
          member "reason" (text " fails on [] ") (
            member "evidence" (array (cons place nil))
              (member "counterexamples" (array (cons shape nil)) Json.done))))))

abbrev answer : Json
answer = object (
    member "verdict" (text "revise")
      (member "summary" (text "one risk") (member "risks" (array (cons risk nil)) Json.done)))

abbrev parser : ReviewParser
parser = new_parser (pos 5) (pos 3000) (pos 0) (λ s. done answer) (λ v. "") (λ v. none)

abbrev read_outcome : ReviewOutcome
read_outcome = record {
  verdict = revise;
  summary = "one risk";
  contracts = [];
  risks =
      record {
        risk_id = "R1";
        category = "other";
        severity = blocking;
        reason = "fails on []";
        contract_id = none;
        evidence = record { path = "src/a.py"; line = some 3 } ∷ [];
        counterexamples =
            record { input_shape = "an empty list"; expected_property = "no error" } ∷ [];
      }
      ∷ [];
  repair_feedback = "";
}

parse-IsValid_example : IsValid parser read_outcome
unfolding parse outcome_of text_value checked_text contracts_of contracts_from risks_of risks_from
    risk_id_of risk_of evidence evidence_entries evidence_entry evidence_line counterexamples
    counterexample_entries counterexample lookup strip lstrip rstrip is_space text_length take_list
    forward_slashes
parse-IsValid_example = parse-IsValid parser "{…}" read_outcome refl
