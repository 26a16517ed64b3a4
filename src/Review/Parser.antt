-- ===== src/Review/Parser.antt =====
-- review/parser.py: from the reviewer's answer to an outcome.
pub mod Valid
use pyfix_agent.Base.{
  ℕ, String, ◌<>◌, Bool, true, false, ◌&&◌, ◌||◌, not, Option, none, some, List, [], ◌∷◌, length,
  contains, nonempty, take_list, ltb, truthy, strip, starts_with, text_length, forward_slashes,
  show, string_eq, ◌==◌, if◌then◌else◌,
}
use pyfix_agent.Base.Int.{ℤ, positive_line, at_least}
use pyfix_agent.Base.Outcome.{Attempted, done, failed}
use pyfix_agent.Base.Attempts.{◌>>=◌, ◌>>◌, require}
use pyfix_agent.Base.Json.{
  Json, null, boolean, integer, float, text, array, object, Elements, nil, Members, elements, get,
  get_or, truthy_json, int_of, is_null,
}
use pyfix_agent.Review.Contracts.{
  ReviewVerdict, accept, revise, abstain, Severity, blocking, warning, Evidence, Counterexample,
  ReviewContract, ReviewRisk, ReviewOutcome,
}

-- The limits of a parser, and what it calls of Python: `json.loads`, `str` of a value that is no text,
-- and `float` of a value, as the text of the number and whether it is between 0 and 1.
pub record ReviewParser : Type 0 where
  pub max_risks : ℕ
  pub max_text_chars : ℕ
  pub max_contracts : ℕ
  pub loads : String → Attempted Json
  pub str_of : Json → String
  pub float_of : Json → Option (String × Bool)

-- `ReviewParser(max_risks, max_text_chars, max_contracts)`
abbrev pub new_parser :
    ℤ
    → ℤ
    → ℤ
    → (String → Attempted Json)
    → (Json → String)
    → (Json → Option (String × Bool))
    → ReviewParser
new_parser max_risks max_text_chars max_contracts loads str_of float_of = record {
  max_risks = at_least 1 max_risks;
  max_text_chars = at_least 200 max_text_chars;
  max_contracts = at_least 1 max_contracts;
  loads = loads;
  str_of = str_of;
  float_of = float_of;
}

abbrev pub verdict_of : String → Option ReviewVerdict
verdict_of s =
    if s == "accept"
    then some accept
    else if s == "revise"
    then some revise
    else if s == "abstain"
    then some abstain
    else none

abbrev pub severity_of : String → Option Severity
severity_of s =
    if s == "blocking" then some blocking else if s == "warning" then some warning else none

abbrev pub categories : List String
categories =
    "boundary" ∷ "representation" ∷ "numeric_precision" ∷ "ordering" ∷ "state_transition"
    ∷ "error_handling" ∷ "compatibility" ∷ "other" ∷ []

-- A value that has to be there.
abbrev pub given : {A : Type 0} → Option A → String → Attempted A
given none m = failed m
given (some a) m = done a

abbrev empty_array : Json
empty_array = array nil

module _ (P : ReviewParser) where
  -- `str(v)`
  abbrev pub str : Json → String
  str (text s) = s
  str other = P.str_of other

  -- `str(v or default)`
  abbrev pub str_or : Json → String → String
  str_or v default = if truthy_json v then str v else default

  unfoldable pub checked_text : String → String → Bool → Attempted String
  checked_text s name required =
      let t = strip s in
      if required && not (truthy t)
      then failed (name <> " is required")
      else if ltb P.max_text_chars (text_length t)
      then failed (name <> " exceeds " <> show P.max_text_chars <> " characters")
      else done t

  -- `_text`
  unfoldable pub text_value : Json → String → Bool → Attempted String
  text_value null name required = checked_text "" name required
  text_value (text s) name required = checked_text s name required
  text_value other name required = failed (name <> " must be a string")

  -- `_confidence`
  unfoldable pub confidence : Json → Attempted (Option String)
  confidence null = done none
  confidence v = elim (P.float_of v) [
    | none ↦ failed "confidence must be numeric"
    | some (number, in_range) ↦
        if in_range then done (some number) else failed "confidence must be between 0 and 1"
  ]

  unfoldable pub evidence_line : Json → Attempted (Option ℕ)
  evidence_line v = if is_null v then done none else elim (positive_line (int_of v)) [
    | none ↦ failed "evidence line must be a positive integer"
    | some n ↦ done (some n)
  ]

  unfoldable pub evidence_entry : Json → Attempted Evidence
  evidence_entry (object ms) =
      require (truthy_json (get "path" ms)) "evidence entries require path"
      >> (evidence_line (get "line" ms) >>= λ line.
          done (record { path = forward_slashes (str (get "path" ms)); line = line }))
  evidence_entry other = failed "evidence entries require path"

  unfoldable pub evidence_entries : List Json → Attempted (List Evidence)
  evidence_entries [] = done []
  evidence_entries (v ∷ vs) =
      let rest = evidence_entries vs in evidence_entry v >>= λ e. rest >>= λ es. done (e ∷ es)

  -- `_evidence`
  unfoldable pub evidence : Json → Attempted (List Evidence)
  evidence (array vs) = evidence_entries (take_list 10 (elements vs))
  evidence other = failed "evidence must be an array"

  unfoldable pub counterexample : Json → Attempted Counterexample
  counterexample (object ms) =
      text_value (get "input_shape" ms) "counterexample.input_shape" true >>= λ input_shape.
      text_value (get "expected_property" ms) "counterexample.expected_property" true
      >>= λ property. done (record { input_shape = input_shape; expected_property = property })
  counterexample other = failed "counterexamples must contain objects"

  unfoldable pub counterexample_entries : List Json → Attempted (List Counterexample)
  counterexample_entries [] = done []
  counterexample_entries (v ∷ vs) =
      let rest = counterexample_entries vs in counterexample v >>= λ c. rest >>= λ cs. done (c ∷ cs)

  -- `_counterexamples`
  unfoldable pub counterexamples : Json → Attempted (List Counterexample)
  counterexamples (array vs) = counterexample_entries (take_list 5 (elements vs))
  counterexamples other = failed "counterexamples must be an array"

  abbrev pub contract_id_of : Json → Option String
  contract_id_of v = if truthy_json v then some (str v) else none

  abbrev pub category_of : Json → String
  category_of v =
      let category = str_or v "other" in if contains category categories then category else "other"

  abbrev pub is_founded : Severity → List Evidence → List Counterexample → Bool
  is_founded warning es cs = true
  is_founded blocking es cs = nonempty es && nonempty cs

  -- The rest of a risk, once its id is known to be new.
  unfoldable pub risk_of : String → Members → Attempted ReviewRisk
  risk_of risk_id ms =
      given (severity_of (str_or (get "severity" ms) ""))
        "risk severity must be blocking or warning"
      >>= λ severity. evidence (get_or "evidence" empty_array ms) >>= λ es.
          counterexamples (get_or "counterexamples" empty_array ms) >>= λ cs.
          require (is_founded severity es cs)
            ("blocking risk " <> risk_id <> " requires evidence and at least one counterexample")
          >> (text_value (get "reason" ms) "risk.reason" true >>= λ reason. done (record {
            risk_id = risk_id;
            category = category_of (get "category" ms);
            severity = severity;
            reason = reason;
            contract_id = contract_id_of (get "contract_id" ms);
            evidence = es;
            counterexamples = cs;
          }))

  unfoldable pub risk_id_of : List String → Members → Attempted String
  risk_id_of seen ms = text_value (get "id" ms) "risk.id" true >>= λ risk_id.
      require (not (contains risk_id seen)) ("duplicate risk id: " <> risk_id) >> done risk_id

  -- The loop of `_risks`, with the ids that were seen.
  unfoldable pub risks_from : List String → List Json → Attempted (List ReviewRisk)
  risks_from seen [] = done []
  risks_from seen (object ms ∷ vs) = risk_id_of seen ms >>= λ risk_id.
      risk_of risk_id ms >>= λ risk. risks_from (risk_id ∷ seen) vs >>= λ risks. done (risk ∷ risks)
  risks_from seen (v ∷ vs) = failed "each risk must be an object"

  -- `_risks`
  unfoldable pub risks_of : Json → Attempted (List ReviewRisk)
  risks_of (array vs) =
      require (not (ltb P.max_risks (length (elements vs))))
        ("risks exceeds configured maximum of " <> show P.max_risks)
      >> risks_from [] (elements vs)
  risks_of other = failed "risks must be an array"

  unfoldable pub contract_of : List String → Members → Attempted ReviewContract
  contract_of seen ms = text_value (get "id" ms) "contract.id" true >>= λ id.
      require (not (contains id seen)) ("duplicate contract id: " <> id)
      >> (text_value (get "statement" ms) "contract.statement" true >>= λ statement.
          evidence (get_or "evidence" empty_array ms) >>= λ es.
          confidence (get "confidence" ms) >>= λ c.
          done (record { id = id; statement = statement; evidence = es; confidence = c }))

  -- The loop of `_contracts`, with the ids that were seen.
  unfoldable pub contracts_from : List String → List Json → Attempted (List ReviewContract)
  contracts_from seen [] = done []
  contracts_from seen (object ms ∷ vs) = contract_of seen ms >>= λ contract.
      contracts_from (contract.id ∷ seen) vs >>= λ contracts. done (contract ∷ contracts)
  contracts_from seen (v ∷ vs) = failed "each contract must be an object"

  -- `_contracts`
  unfoldable pub contracts_of : Json → Attempted (List ReviewContract)
  contracts_of (array vs) =
      require (not (ltb P.max_contracts (length (elements vs))))
        ("contracts exceeds configured maximum of " <> show P.max_contracts)
      >> contracts_from [] (elements vs)
  contracts_of other = failed "contracts must be an array"

  unfoldable pub outcome_of : Members → Attempted ReviewOutcome
  outcome_of ms =
      given (verdict_of (str_or (get "verdict" ms) "")) "verdict must be accept, revise, or abstain"
      >>= λ verdict. text_value (get "summary" ms) "summary" true >>= λ summary.
          contracts_of (get_or "contracts" empty_array ms) >>= λ contracts.
          risks_of (get_or "risks" empty_array ms) >>= λ risks.
          text_value (get_or "repair_feedback" (text "") ms) "repair_feedback" false >>= λ feedback.
          done (record {
            verdict = verdict;
            summary = summary;
            contracts = contracts;
            risks = risks;
            repair_feedback = feedback;
          })

  abbrev pub outcome_of_json : Attempted Json → Attempted ReviewOutcome
  outcome_of_json (failed m) = failed ("invalid review JSON: " <> m)
  outcome_of_json (done (object ms)) = outcome_of ms
  outcome_of_json (done other) = failed "review response must be a JSON object"

  -- `ReviewParser.parse`
  unfoldable pub parse : String → Attempted ReviewOutcome
  parse raw =
      let answer = strip raw in
      if not (truthy answer) || starts_with answer "```"
      then failed "review response must be a JSON object without Markdown fences"
      else outcome_of_json (P.loads answer)
