-- ===== src/Graph/Nodes/Escalate.antt =====
-- Escalating (src/dag_doctor/graph/nodes/escalate.py).
use dag_doctor.Base.{
  String, Text, codes, decimal, str_eq, not, Option, none, some, List, [], ◌∷◌, ◌++◌, map, keep,
  join, ◌+++◌, if◌then◌else◌,
}
use dag_doctor.Core.Json.{text_ltb}
use dag_doctor.Core.Models.{
  RootCauseCategory, schema_drift, data_quality_regression, upstream_dependency_failure,
  missing_upstream_data, transient_infrastructure, query_defect, type_mismatch, resource_exhaustion,
  configuration_error, unknown, HaltReason, concluded, iteration_budget_exhausted,
  tool_call_budget_exhausted, confidence_too_low, no_hypothesis_formed, investigation_error,
  Evidence, Hypothesis, Diagnosis, is_confirmed,
}
use dag_doctor.Graph.State.{
  InvestigationState, TriageResult, successful_evidence, refuted_hypotheses,
}
use dag_doctor.Graph.Confidence.{compute_confidence}
use dag_doctor.Graph.Routing.{halt_reason_for_route, is_empty}
use dag_doctor.Graph.Nodes.Step.{NodeUpdate, updated}

unfoldable pub category_value : RootCauseCategory → String
category_value schema_drift = "schema_drift"
category_value data_quality_regression = "data_quality_regression"
category_value upstream_dependency_failure = "upstream_dependency_failure"
category_value missing_upstream_data = "missing_upstream_data"
category_value transient_infrastructure = "transient_infrastructure"
category_value query_defect = "query_defect"
category_value type_mismatch = "type_mismatch"
category_value resource_exhaustion = "resource_exhaustion"
category_value configuration_error = "configuration_error"
category_value unknown = "unknown"

-- `reason.value.replace("_", " ")`
unfoldable pub spoken : HaltReason → String
spoken concluded = "concluded"
spoken iteration_budget_exhausted = "iteration budget exhausted"
spoken tool_call_budget_exhausted = "tool call budget exhausted"
spoken confidence_too_low = "confidence too low"
spoken no_hypothesis_formed = "no hypothesis formed"
spoken investigation_error = "investigation error"

suspicion : Option TriageResult → List Text
unfolding category_value
suspicion none = []
suspicion (some triage) =
    (codes ("Triage suspected " +++ category_value triage.category +++ " (")
      ++ (triage.rationale ++ codes "), which was not established."))
    ∷ []

leading : Option Hypothesis → List Text
leading none = []
leading (some hypothesis) =
    if is_confirmed hypothesis.outcome
    then []
    else (codes "Leading untested explanation: " ++ (hypothesis.statement ++ codes ".")) ∷ []

join_texts : Text → List Text → Text
join_texts sep [] = []
join_texts sep (t ∷ []) = t
join_texts sep (t ∷ u ∷ ts) = t ++ (sep ++ join_texts sep (u ∷ ts))

ruled_out : List Hypothesis → List Text
unfolding join_texts
ruled_out [] = []
ruled_out (h ∷ hs) =
    (codes "Ruled out: "
      ++ (join_texts (codes "; ") (map (λ (item : Hypothesis). item.statement) (h ∷ hs))
          ++ codes "."))
    ∷ []

-- `_summarise`
unfoldable pub summarise : InvestigationState → HaltReason → Text
unfolding spoken suspicion leading ruled_out join_texts
summarise s reason = join_texts (codes " ") (
    (codes ("Inconclusive: " +++ spoken reason +++ " after ")
      ++ (decimal s.iteration
          ++ (codes " iteration(s) and " ++ (decimal s.tool_calls_made ++ codes " tool call(s)."))))
    ∷ (suspicion s.triage
        ++ (leading s.current_hypothesis
            ++ (ruled_out (refuted_hypotheses s)
                ++ (if is_empty (successful_evidence s)
                    then codes "No tool returned usable evidence." ∷ []
                    else [])))))

insert_name : String → List String → List String
unfolding text_ltb
insert_name x [] = x ∷ []
insert_name x (y ∷ ys) =
    if str_eq x y
    then y ∷ ys
    else if text_ltb (codes x) (codes y)
    then x ∷ y ∷ ys
    else y ∷ insert_name x ys

-- `sorted({item.tool_name for item in items})`
sorted_names : List Evidence → List String
unfolding insert_name
sorted_names [] = []
sorted_names (item ∷ items) = insert_name item.tool_name (sorted_names items)

reason_questions : InvestigationState → HaltReason → List Text
reason_questions s iteration_budget_exhausted =
    (codes "The investigation used all "
      ++ (decimal s.max_iterations
          ++ codes
              " iterations without confirming a cause; raising MAX_ITERATIONS may help on this failure."))
    ∷ []
reason_questions s tool_call_budget_exhausted =
    (codes "The investigation used all "
      ++ (decimal s.max_tool_calls
          ++ codes " tool calls; raising MAX_TOOL_CALLS may help on this failure."))
    ∷ []
reason_questions s investigation_error =
    codes "The investigation stopped on an internal error; see the step trace." ∷ []
reason_questions s no_hypothesis_formed =
    codes "No candidate cause could be formed from the evidence gathered." ∷ []
reason_questions s _ = []

-- `_open_questions`
unfoldable pub open_questions : InvestigationState → HaltReason → List Text
unfolding reason_questions sorted_names
open_questions s reason =
    let silent = keep (λ (item : Evidence). not item.succeeded) s.evidence in
    reason_questions s reason
    ++ (if is_empty silent
        then []
        else codes ("These tools could not answer: " +++ join ", " (sorted_names silent) +++ ".")
          ∷ [])

unfoldable pub escalated_diagnosis : InvestigationState → Diagnosis
escalated_diagnosis s =
    let reason = halt_reason_for_route s in
    record {
      incident_id = s.incident_id;
      root_cause_category = unknown;
      summary = summarise s reason;
      confidence = (compute_confidence s).total;
      halt_reason = reason;
      evidence_chain = map (λ (item : Evidence). item.id) (successful_evidence s);
      proposed_fix = none;
      responsible_dag_id = none;
      responsible_task_id = none;
      unknowns = s.unknowns ++ open_questions s reason;
      model_used = s.model_used;
    }

unfoldable pub escalated_state : InvestigationState → InvestigationState
unfolding escalated_diagnosis
escalated_state s = record s {
  diagnosis = some (escalated_diagnosis s);
  halt_reason = some (halt_reason_for_route s);
  unknowns = s.unknowns ++ open_questions s (halt_reason_for_route s);
}

-- `EscalateNode.run`: no model is asked, and nothing is raised.
unfoldable pub run : InvestigationState → NodeUpdate
unfolding escalated_state
run s = updated (escalated_state s) none 0 0
