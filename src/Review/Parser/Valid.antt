-- ===== src/Review/Parser/Valid.antt =====
-- What an outcome that review/parser.py returns is sure to have.
use pyfix_agent.Base.{
  ◌≡◌, ◌≤◌, refl, ap, arith, suc, String, true, false, not, List, [], ◌∷◌, length, contains, ltb,
  truthy, strip, text_length, string_eq,
}
use pyfix_agent.Base.Outcome.{Attempted, done, failed}
use pyfix_agent.Base.Attempts.{done-bind, done-require, done_injective}
use pyfix_agent.Base.Json.{
  Json, nil, null, boolean, integer, float, text, array, object, Members, elements, get, get_or,
}
use pyfix_agent.Review.Contracts.{Severity, Evidence, Counterexample, ReviewRisk, ReviewOutcome}
use pyfix_agent.Review.Parser.{
  ReviewParser, checked_text, text_value, given, severity_of, verdict_of, str_or, evidence,
  counterexamples, category_of, contract_id_of, is_founded, risk_of, risk_id_of, risks_from,
  risks_of, contracts_of, outcome_of, outcome_of_json, parse,
}

module _ (P : ReviewParser) where
  -- A text with something in it, within the limit.
  abbrev pub IsText : String → Type 0
  IsText s = (truthy s ≡ true) × (text_length s ≤ P.max_text_chars)

  pub record IsRisk (r : ReviewRisk) : Type 0 where
    pub id : IsText r.risk_id
    pub reason : IsText r.reason
    pub founded : is_founded P r.severity r.evidence r.counterexamples ≡ true

  -- Risks whose ids differ from each other and from those that were seen.
  abbrev pub AreRisks : List String → List ReviewRisk → Type 0
  AreRisks seen [] = Unit
  AreRisks seen (r ∷ rs) =
      (contains r.risk_id seen ≡ false) × IsRisk r × AreRisks (r.risk_id ∷ seen) rs

  checked_text-IsText : (s name t : String) → checked_text P s name true ≡ done t → IsText t
  unfolding checked_text
  checked_text-IsText s name t h = ground (arith, h)

  text_value-IsText : (v : Json) (name t : String) → text_value P v name true ≡ done t → IsText t
  unfolding text_value
  text_value-IsText null name t h = checked_text-IsText "" name t h
  text_value-IsText (text s) name t h = checked_text-IsText s name t h
  text_value-IsText (boolean b) name t h = absurd (cc)
  text_value-IsText (integer n) name t h = absurd (cc)
  text_value-IsText (float s b) name t h = absurd (cc)
  text_value-IsText (array vs) name t h = absurd (cc)
  text_value-IsText (object ms) name t h = absurd (cc)

  risk_id_of-IsText :
      (seen : List String) (ms : Members) (id : String)
      → risk_id_of P seen ms ≡ done id
      → IsText id × (contains id seen ≡ false)
  unfolding risk_id_of
  risk_id_of-IsText seen ms id h =
      let (found, f, g) = done-bind (text_value P (get "id" ms) "risk.id" true) _ id h in
      let (fresh, e) = done-require (not (contains found seen)) _ (done found) id g in
      let t = text_value-IsText (get "id" ms) "risk.id" found f in ground (arith, t, fresh, e)

  risk_of-IsRisk :
      (id : String) (ms : Members) (r : ReviewRisk)
      → IsText id
      → risk_of P id ms ≡ done r
      → IsRisk r × (r.risk_id ≡ id)
  unfolding risk_of
  risk_of-IsRisk id ms r t h =
      let (severity, f, h1) =
        done-bind (given (severity_of (str_or P (get "severity" ms) "")) _) _ r h in
      let (es, g, h2) = done-bind (evidence P (get_or "evidence" (array nil) ms)) _ r h1 in
      let (cs, k, h3) =
        done-bind (counterexamples P (get_or "counterexamples" (array nil) ms)) _ r h2 in
      let (founded, h4) = done-require (is_founded P severity es cs) _ _ r h3 in
      let (reason, l, h5) = done-bind (text_value P (get "reason" ms) "risk.reason" true) _ r h4 in
      built severity es cs reason founded
        (text_value-IsText (get "reason" ms) "risk.reason" reason l) h5
    where
      built :
          (severity : Severity) (es : List Evidence) (cs : List Counterexample) (reason : String)
          → is_founded P severity es cs ≡ true
          → IsText reason
          → done (record {
            risk_id = id;
            category = category_of P (get "category" ms);
            severity = severity;
            reason = reason;
            contract_id = contract_id_of P (get "contract_id" ms);
            evidence = es;
            counterexamples = cs;
          })
            ≡ done r
          → IsRisk r × (r.risk_id ≡ id)
      built severity es cs reason founded u e =
          rw⁻¹ (done_injective _ r e) (record { id = t; reason = u; founded = founded }, refl)

  risks_from-AreRisks :
      (seen : List String) (vs : List Json) (rs : List ReviewRisk)
      → risks_from P seen vs ≡ done rs
      → AreRisks seen rs × (length rs ≡ length vs)
  unfolding risks_from
  risks_from-AreRisks seen [] [] h = (tt, refl)
  risks_from-AreRisks seen [] (r ∷ rs) h = absurd (cc)
  risks_from-AreRisks seen (object ms ∷ vs) rs h =
      let (id, f, h1) = done-bind (risk_id_of P seen ms) _ rs h in
      let (risk, g, h2) = done-bind (risk_of P id ms) _ rs h1 in
      let (rest, k, h3) = done-bind (risks_from P (id ∷ seen) vs) _ rs h2 in
      let (t, fresh) = risk_id_of-IsText seen ms id f in
      let (r, e) = risk_of-IsRisk id ms risk t g in
      listed id risk rest rs r e fresh (risks_from-AreRisks (id ∷ seen) vs rest k) h3
    where
      listed :
          (id : String) (risk : ReviewRisk) (rest out : List ReviewRisk)
          → IsRisk risk
          → risk.risk_id ≡ id
          → contains id seen ≡ false
          → AreRisks (id ∷ seen) rest × (length rest ≡ length vs)
          → done (risk ∷ rest) ≡ done out
          → AreRisks seen out × (length out ≡ suc (length vs))
      listed id risk rest out r e fresh more h =
          rw⁻¹ (done_injective _ out h) ((rw e fresh, r, rw e more.0), ap suc more.1)
  risks_from-AreRisks seen (null ∷ vs) rs h = absurd (cc)
  risks_from-AreRisks seen (boolean b ∷ vs) rs h = absurd (cc)
  risks_from-AreRisks seen (integer n ∷ vs) rs h = absurd (cc)
  risks_from-AreRisks seen (float s b ∷ vs) rs h = absurd (cc)
  risks_from-AreRisks seen (text s ∷ vs) rs h = absurd (cc)
  risks_from-AreRisks seen (array es ∷ vs) rs h = absurd (cc)

  risks_of-AreRisks :
      (v : Json) (rs : List ReviewRisk)
      → risks_of P v ≡ done rs
      → AreRisks [] rs × (length rs ≤ P.max_risks)
  unfolding risks_of
  risks_of-AreRisks (array vs) rs h =
      let (few, h1) = done-require (not (ltb P.max_risks (length (elements vs)))) _ _ rs h in
      let (risks, n) = risks_from-AreRisks [] (elements vs) rs h1 in (risks, ground (arith, few, n))
  risks_of-AreRisks null rs h = absurd (cc)
  risks_of-AreRisks (boolean b) rs h = absurd (cc)
  risks_of-AreRisks (integer n) rs h = absurd (cc)
  risks_of-AreRisks (float s b) rs h = absurd (cc)
  risks_of-AreRisks (text s) rs h = absurd (cc)
  risks_of-AreRisks (object ms) rs h = absurd (cc)

  -- An outcome within the parser's limits.
  pub record IsValid (o : ReviewOutcome) : Type 0 where
    pub summary : IsText o.summary
    pub risks : AreRisks [] o.risks
    pub few_risks : length o.risks ≤ P.max_risks

  outcome_of-IsValid : (ms : Members) (o : ReviewOutcome) → outcome_of P ms ≡ done o → IsValid o
  unfolding outcome_of
  outcome_of-IsValid ms o h =
      let (verdict, a, h1) =
        done-bind (given (verdict_of (str_or P (get "verdict" ms) "")) _) _ o h in
      let (summary, b, h2) = done-bind (text_value P (get "summary" ms) "summary" true) _ o h1 in
      let (contracts, c, h3) =
        done-bind (contracts_of P (get_or "contracts" (array nil) ms)) _ o h2 in
      let (risks, d, h4) = done-bind (risks_of P (get_or "risks" (array nil) ms)) _ o h3 in
      let (feedback, e, h5) =
        done-bind (text_value P (get_or "repair_feedback" (text "") ms) "repair_feedback" false) _ o
          h4 in
      let (are, few) = risks_of-AreRisks (get_or "risks" (array nil) ms) risks d in
      rw⁻¹ (done_injective _ o h5) (record {
        summary = text_value-IsText (get "summary" ms) "summary" summary b;
        risks = are;
        few_risks = few;
      })

  -- An outcome that the parser returns has a summary, and at most the configured number of risks. No two
  -- of them have the same id, each has an id and a reason, and each blocking one has evidence and a
  -- counterexample. Summary, ids and reasons are not empty and within the configured length.
  pub parse-IsValid : (raw : String) (o : ReviewOutcome) → parse P raw ≡ done o → IsValid o
  unfolding parse
  parse-IsValid raw o h = loaded (P.loads (strip raw)) (ground (arith, h))
    where
      loaded : (l : Attempted Json) → outcome_of_json P l ≡ done o → IsValid o
      loaded (failed m) e = absurd (cc)
      loaded (done (object ms)) e = outcome_of-IsValid ms o e
      loaded (done null) e = absurd (cc)
      loaded (done (boolean b)) e = absurd (cc)
      loaded (done (integer n)) e = absurd (cc)
      loaded (done (float s b)) e = absurd (cc)
      loaded (done (text s)) e = absurd (cc)
      loaded (done (array vs)) e = absurd (cc)
