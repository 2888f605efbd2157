-- ===== src/Examples/Attributions.antt =====
-- The conclusion of the sample investigation.
use dag_doctor.Base.{codes, none, some, [], ◌≡◌, refl}
use dag_doctor.Core.Models.{schema_drift, Diagnosis}
use dag_doctor.Graph.State.{InvestigationState}
use dag_doctor.Graph.Builder.{initial_state}
use dag_doctor.Graph.Nodes.Step.{updated}
use dag_doctor.Graph.Nodes.Conclude
use dag_doctor.Graph.Nodes.Conclude.{concluded_state, with_conclusion, attributed_task}
use dag_doctor.Graph.Caller.{Conclusion}
use dag_doctor.Graph.Attribution.{IsGrounded, conclude-IsGrounded}
use dag_doctor.Examples.Samples.{orders_failure, budgets, confirming}

abbrev begun : InvestigationState
begun = initial_state 7 orders_failure budgets

abbrev conclusion : Conclusion
conclusion = record {
  root_cause_category = schema_drift;
  summary = codes "the column was renamed";
  proposed_fix = none;
  responsible_dag_id = none;
  responsible_task_id = some "build_orders_by_customer";
  unknowns = [];
}

concluded_run :
    Conclude.run confirming begun
    ≡ updated (concluded_state begun conclusion "llama3.2:3b") (some "llama3.2:3b") 10 5
unfolding Conclude.run with_conclusion
concluded_run = refl

conclude-IsGrounded_example :
    (d : Diagnosis) × IsGrounded begun (concluded_state begun conclusion "llama3.2:3b") d
conclude-IsGrounded_example =
    conclude-IsGrounded confirming begun (concluded_state begun conclusion "llama3.2:3b")
      (some "llama3.2:3b") 10 5 concluded_run
