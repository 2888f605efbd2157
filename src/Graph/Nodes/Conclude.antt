-- ===== src/Graph/Nodes/Conclude.antt =====
-- Concluding (src/dag_doctor/graph/nodes/conclude.py).
use dag_doctor.Base.{String, str_eq, Option, none, some, map, if◌then◌else◌}
use dag_doctor.Core.Models.{concluded, Evidence, Hypothesis, Diagnosis}
use dag_doctor.Graph.State.{InvestigationState, successful_evidence, has_seen_task}
use dag_doctor.Graph.Confidence.{compute_confidence}
use dag_doctor.Graph.Caller.{ModelCaller, Reply, answer, provider_error, Conclusion}
use dag_doctor.Graph.Nodes.Step.{NodeUpdate, updated, raised}

-- Python's `a or b` on optional strings: an empty string is as none.
unfoldable pub or_else : Option String → Option String → Option String
or_else none b = b
or_else (some a) b = if str_eq a "" then b else some a

unfoldable pub hypothesis_task : Option Hypothesis → Option String
hypothesis_task none = none
hypothesis_task (some hypothesis) = hypothesis.responsible_task_id

unfoldable pub hypothesis_dag : Option Hypothesis → Option String
hypothesis_dag none = none
hypothesis_dag (some hypothesis) = hypothesis.responsible_dag_id

-- A proposed task that the investigation has not seen is dropped.
unfoldable pub seen_or_none : InvestigationState → Option String → Option String
seen_or_none s none = none
seen_or_none s (some proposed) = if has_seen_task s proposed then some proposed else none

-- `_attributed_task`
unfoldable pub attributed_task : Conclusion → InvestigationState → Option String
unfolding or_else hypothesis_task seen_or_none
attributed_task conclusion s =
    seen_or_none s (or_else conclusion.responsible_task_id (hypothesis_task s.current_hypothesis))

-- The DAG that goes with an attributed task: `... if responsible_task_id else None`.
unfoldable pub attributed_dag : Conclusion → InvestigationState → Option String → Option String
unfolding or_else hypothesis_dag
attributed_dag conclusion s none = none
attributed_dag conclusion s (some task) =
    if str_eq task ""
    then none
    else or_else conclusion.responsible_dag_id
        (or_else (hypothesis_dag s.current_hypothesis) (some s.failure.dag_id))

unfoldable pub diagnose : InvestigationState → Conclusion → String → Diagnosis
diagnose s conclusion model = record {
  incident_id = s.incident_id;
  root_cause_category = conclusion.root_cause_category;
  summary = conclusion.summary;
  confidence = (compute_confidence s).total;
  halt_reason = concluded;
  evidence_chain = map (λ (item : Evidence). item.id) (successful_evidence s);
  proposed_fix = conclusion.proposed_fix;
  responsible_dag_id = attributed_dag conclusion s (attributed_task conclusion s);
  responsible_task_id = attributed_task conclusion s;
  unknowns = conclusion.unknowns;
  model_used = model;
}

unfoldable pub concluded_state : InvestigationState → Conclusion → String → InvestigationState
unfolding diagnose
concluded_state s conclusion model = record s {
  diagnosis = some (diagnose s conclusion model);
  halt_reason = some concluded;
  unknowns = conclusion.unknowns;
}

unfoldable pub with_conclusion : InvestigationState → Reply Conclusion → NodeUpdate
unfolding concluded_state
with_conclusion s provider_error = raised
with_conclusion s (answer conclusion m p c) = updated (concluded_state s conclusion m) (some m) p c

-- `ConcludeNode.run`
unfoldable pub run : ModelCaller → InvestigationState → NodeUpdate
unfolding with_conclusion
run caller s = with_conclusion s (caller.conclude s)
