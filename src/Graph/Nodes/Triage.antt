-- ===== src/Graph/Nodes/Triage.antt =====
-- Triage (src/dag_doctor/graph/nodes/triage.py).
use dag_doctor.Base.{Bool, false, ◌||◌, not, Option, none, some}
use dag_doctor.Core.Models.{RootCauseCategory, same_category}
use dag_doctor.Graph.State.{InvestigationState, TriageResult}
use dag_doctor.Graph.Confidence.{Signature, match_signature, triage_confidence}
use dag_doctor.Graph.Caller.{ModelCaller, Reply, answer, provider_error, TriageAnswer}
use dag_doctor.Graph.Nodes.Step.{NodeUpdate, updated, raised}

unfoldable pub agrees_with : Option Signature → RootCauseCategory → Bool
agrees_with none category = false
agrees_with (some signature) category = same_category category signature.category

unfoldable pub triage_result : Option Signature → TriageAnswer → TriageResult
unfolding agrees_with triage_confidence
triage_result signature answered =
    let agrees = agrees_with signature answered.category in
    record {
      category = answered.category;
      confidence = triage_confidence signature agrees;
      rationale = answered.rationale;
      matched_signature = elim signature [ none ↦ none | some known ↦ some known.name ];
      needs_investigation = answered.needs_investigation || not agrees;
    }

with_answer : InvestigationState → Reply TriageAnswer → NodeUpdate
unfolding triage_result
with_answer s provider_error = raised
with_answer s (answer answered m p c) =
    let signature = match_signature s.failure.exception_type s.failure.exception_message in
    updated (record s { triage = some (triage_result signature answered) }) (some m) p c

-- `TriageNode.run`
unfoldable pub run : ModelCaller → InvestigationState → NodeUpdate
unfolding with_answer
run caller s = with_answer s (caller.triage s)
