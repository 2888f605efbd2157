-- ===== src/Graph/Limits.antt =====
-- About the budgets of a run (src/dag_doctor/graph/routing.py, builder.py and nodes).
use dag_doctor.Base.{
  ℕ, suc, ◌+◌, ◌≤◌, ◌<◌, ◌≡◌, arith, none, some, List, [], ◌∷◌, ◌++◌, Bool, true, false,
}
use dag_doctor.Core.Models.{NodeName, FailureEvent}
use dag_doctor.Core.Settings.{BudgetSettings, IsValid}
use dag_doctor.Graph.State.{InvestigationState, StepRecord, budget_exhausted, iterations_remaining}
use dag_doctor.Graph.Toolbox.{Toolbox}
use dag_doctor.Graph.Caller.{ModelCaller}
use dag_doctor.Graph.Routing.{
  after_triage, after_gather_evidence, after_form_hypothesis, after_test_hypothesis,
}
use dag_doctor.Graph.Nodes.Step.{NodeUpdate, updated, raised, call}
use dag_doctor.Graph.Builder.{next_node, run_node, visit, initial_state, run_graph}
use dag_doctor.Graph.Effects.{visit-Frame, iteration-visit, tool_calls-visit}
use dag_doctor.Graph.Rule.{Rule, run_from_ind}

abbrev is_test : NodeName → Bool
is_test NodeName.test_hypothesis = true
is_test _ = false

abbrev one_if : Bool → ℕ
one_if true = 1
one_if false = 0

-- How many hypotheses a trace has tested.
abbrev pub tests : List StepRecord → ℕ
tests [] = 0
tests (step ∷ steps) = one_if (is_test step.node) + tests steps

tests-snoc :
    (steps : List StepRecord) (step : StepRecord)
    → tests (steps ++ step ∷ []) ≡ tests steps + one_if (is_test step.node)
tests-snoc [] step = omega arith
tests-snoc (x ∷ steps) step = omega (arith, tests-snoc steps step)

tests-call :
    (node : NodeName) (s : InvestigationState) (u : NodeUpdate)
    → tests (call node s u).steps ≡ tests s.steps + one_if (is_test node)
unfolding call
tests-call node s (updated t m p c) = tests-snoc s.steps _
tests-call node s raised = tests-snoc s.steps _

module _ (caller : ModelCaller) (box : Toolbox) where
  tests-visit :
      (node : NodeName) (s : InvestigationState)
      → tests (visit caller box node s).steps ≡ tests s.steps + one_if (is_test node)
  unfolding visit
  tests-visit node s = tests-call node s (run_node caller box node s)

-- Before each node: gathering and what comes after it keep the tests below the iterations.
abbrev Pace : NodeName → ℕ → ℕ → ℕ → Type 0
Pace NodeName.triage tests iteration limit = (tests ≡ 0) × (iteration ≡ 0)
Pace NodeName.gather_evidence tests iteration limit = (tests ≤ iteration) × (suc iteration ≤ limit)
Pace NodeName.form_hypothesis tests iteration limit =
    (suc tests ≤ iteration) × (suc iteration ≤ limit)
Pace NodeName.test_hypothesis tests iteration limit =
    (suc tests ≤ iteration) × (suc iteration ≤ limit)
Pace NodeName.conclude tests iteration limit = (suc tests ≤ limit) × (iteration ≤ limit)
Pace NodeName.escalate tests iteration limit = (suc tests ≤ limit) × (iteration ≤ limit)

record Paced (budgets : BudgetSettings) (node : NodeName) (s : InvestigationState) : Type 0 where
  iterations : s.max_iterations ≡ budgets.max_iterations
  tool_calls : s.max_tool_calls ≡ budgets.max_tool_calls
  calls_fit : s.tool_calls_made ≤ budgets.max_tool_calls
  keeps_pace : Pace node (tests s.steps) s.iteration budgets.max_iterations

-- What a finished run has spent.
pub record IsWithin (budgets : BudgetSettings) (s : InvestigationState) : Type 0 where
  pub calls_fit : s.tool_calls_made ≤ budgets.max_tool_calls
  pub iterations_fit : s.iteration ≤ budgets.max_iterations
  pub tests_below : tests s.steps < budgets.max_iterations

module _ (caller : ModelCaller) (box : Toolbox) (budgets : BudgetSettings)
    (some_iteration : 1 ≤ budgets.max_iterations) where
  Pace-edge :
      (node next : NodeName) (s : InvestigationState)
      → Paced budgets node s
      → next_node budgets node (visit caller box node s) ≡ some next
      → Pace next
          (tests (visit caller box node s).steps)
          (visit caller box node s).iteration
          budgets.max_iterations
  unfolding next_node after_triage after_gather_evidence after_form_hypothesis after_test_hypothesis
      budget_exhausted iterations_remaining
  Pace-edge NodeName.triage next s h e = ground (
    arith,
    iteration-visit caller box s NodeName.triage,
    visit-Frame caller box s NodeName.triage,
    tests-visit caller box NodeName.triage s,
  )
  Pace-edge NodeName.gather_evidence next s h e = ground (
    arith,
    iteration-visit caller box s NodeName.gather_evidence,
    visit-Frame caller box s NodeName.gather_evidence,
    tests-visit caller box NodeName.gather_evidence s,
  )
  Pace-edge NodeName.form_hypothesis next s h e = ground (
    arith,
    iteration-visit caller box s NodeName.form_hypothesis,
    visit-Frame caller box s NodeName.form_hypothesis,
    tests-visit caller box NodeName.form_hypothesis s,
  )
  Pace-edge NodeName.test_hypothesis next s h e = ground (
    arith,
    iteration-visit caller box s NodeName.test_hypothesis,
    visit-Frame caller box s NodeName.test_hypothesis,
    tests-visit caller box NodeName.test_hypothesis s,
  )
  Pace-edge NodeName.conclude next s h e = cc
  Pace-edge NodeName.escalate next s h e = cc

  spent_final :
      (node : NodeName) (s : InvestigationState)
      → Paced budgets node s
      → next_node budgets node (visit caller box node s) ≡ none
      → ((visit caller box node s).iteration ≤ budgets.max_iterations)
        × (tests (visit caller box node s).steps < budgets.max_iterations)
  unfolding next_node
  spent_final NodeName.conclude s h e = ground (
    arith,
    iteration-visit caller box s NodeName.conclude,
    tests-visit caller box NodeName.conclude s,
  )
  spent_final NodeName.escalate s h e = ground (
    arith,
    iteration-visit caller box s NodeName.escalate,
    tests-visit caller box NodeName.escalate s,
  )
  spent_final _ s h e = cc

  Paced-rule : Rule caller box budgets (Paced budgets) (IsWithin budgets)
  unfolding next_node
  Paced-rule = record {
    edge = λ node next s h e. record {
      iterations = ground (arith, visit-Frame caller box s node);
      tool_calls = ground (arith, visit-Frame caller box s node);
      calls_fit = ground (arith, tool_calls-visit caller box s node);
      keeps_pace = Pace-edge node next s h e;
    };
    final = λ node s h e. record {
      calls_fit = ground (arith, tool_calls-visit caller box s node);
      iterations_fit = (spent_final node s h e).0;
      tests_below = (spent_final node s h e).1;
    };
  }

-- Whatever the model answers, a finished run has made no more tool calls than `max_tool_calls`, has
-- spent no more than `max_iterations` iterations, and has tested fewer hypotheses than
-- `max_iterations`: the last iteration of a budget is never a test.
pub run_graph-IsWithin :
    (caller : ModelCaller) (box : Toolbox) (budgets : BudgetSettings) (fuel incident_id : ℕ)
    (failure : FailureEvent) (t : InvestigationState)
    → IsValid budgets
    → run_graph caller box budgets fuel incident_id failure ≡ some t
    → IsWithin budgets t
unfolding run_graph initial_state
run_graph-IsWithin caller box budgets fuel incident_id failure t v e =
    run_from_ind caller box budgets (Paced-rule caller box budgets v.some_iteration) fuel
      NodeName.triage (initial_state incident_id failure budgets) t (omega arith) e
