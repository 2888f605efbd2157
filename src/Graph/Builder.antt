-- ===== src/Graph/Builder.antt =====
-- The graph: its nodes, edges and start (src/dag_doctor/graph/builder.py). LangGraph runs one node
-- at a time, from START along the edges to END; a run is given fuel, one unit for each node.
use dag_doctor.Base.{ℕ, zero, suc, false, Option, none, some, []}
use dag_doctor.Core.Models.{NodeName, FailureEvent}
use dag_doctor.Core.Settings.{BudgetSettings}
use dag_doctor.Graph.State.{InvestigationState}
use dag_doctor.Graph.Routing.{
  after_triage, after_gather_evidence, after_form_hypothesis, after_test_hypothesis,
}
use dag_doctor.Graph.Toolbox.{Toolbox}
use dag_doctor.Graph.Caller.{ModelCaller}
use dag_doctor.Graph.Nodes.Step.{NodeUpdate, call}
use dag_doctor.Graph.Nodes.Triage
use dag_doctor.Graph.Nodes.Gather
use dag_doctor.Graph.Nodes.Form
use dag_doctor.Graph.Nodes.Probe
use dag_doctor.Graph.Nodes.Conclude
use dag_doctor.Graph.Nodes.Escalate

-- The conditional edges, and those to END, which is `none`.
unfoldable pub next_node : BudgetSettings → NodeName → InvestigationState → Option NodeName
next_node budgets NodeName.triage s = some (after_triage s budgets)
next_node budgets NodeName.gather_evidence s = some (after_gather_evidence s)
next_node budgets NodeName.form_hypothesis s = some (after_form_hypothesis s)
next_node budgets NodeName.test_hypothesis s = some (after_test_hypothesis s budgets)
next_node budgets NodeName.conclude s = none
next_node budgets NodeName.escalate s = none

module _ (caller : ModelCaller) (box : Toolbox) where
  unfoldable pub run_node : NodeName → InvestigationState → NodeUpdate
  run_node NodeName.triage s = Triage.run caller s
  run_node NodeName.gather_evidence s = Gather.run caller box s
  run_node NodeName.form_hypothesis s = Form.run caller s
  run_node NodeName.test_hypothesis s = Probe.run caller box s
  run_node NodeName.conclude s = Conclude.run caller s
  run_node NodeName.escalate s = Escalate.run s

  -- One node, recorded in the trace.
  unfoldable pub visit : NodeName → InvestigationState → InvestigationState
  unfolding run_node call
  visit node s = call node s (run_node node s)

  module _ (budgets : BudgetSettings) where
    -- From a node to END; `none` means that the fuel ran out.
    unfoldable pub run_from : ℕ → NodeName → InvestigationState → Option InvestigationState
    run_from zero node s = none
    run_from (suc fuel) node s = elim (next_node budgets node (visit node s)) [
      | none ↦ some (visit node s)
      | some next ↦ run_from fuel next (visit node s)
    ]

unfoldable pub initial_state : ℕ → FailureEvent → BudgetSettings → InvestigationState
initial_state incident_id failure budgets = record {
  incident_id = incident_id;
  failure = failure;
  triage = none;
  evidence = [];
  hypotheses = [];
  current_hypothesis = none;
  iteration = 0;
  max_iterations = budgets.max_iterations;
  tool_calls_made = 0;
  max_tool_calls = budgets.max_tool_calls;
  evidence_exhausted = false;
  diagnosis = none;
  halt_reason = none;
  steps = [];
  unknowns = [];
  model_used = "";
}

-- `graph.ainvoke(initial_state(...))`
unfoldable pub run_graph :
    ModelCaller → Toolbox → BudgetSettings → ℕ → ℕ → FailureEvent → Option InvestigationState
unfolding run_from initial_state
run_graph caller box budgets fuel incident_id failure =
    run_from caller box budgets fuel NodeName.triage (initial_state incident_id failure budgets)
