-- ===== src/Graph/Termination.antt =====
-- About the number of nodes that a run passes (src/dag_doctor/graph/builder.py and routing.py).
use dag_doctor.Base.{
  ℕ, zero, suc, ◌+◌, ◌-◌, ◌*◌, ◌≤◌, ◌<◌, max, ◌≡◌, arith, some, Option-cases, inl, inr, length, ◌∙◌,
}
use dag_doctor.Core.Models.{NodeName, FailureEvent}
use dag_doctor.Core.Settings.{BudgetSettings, IsValid}
use dag_doctor.Graph.State.{InvestigationState, iterations_remaining, budget_exhausted}
use dag_doctor.Graph.Toolbox.{Toolbox}
use dag_doctor.Graph.Caller.{ModelCaller}
use dag_doctor.Graph.Routing.{
  after_triage, after_gather_evidence, after_form_hypothesis, after_test_hypothesis,
}
use dag_doctor.Graph.Builder.{next_node, visit, run_from, initial_state, run_graph}
use dag_doctor.Graph.Rule.{run_from-stop, run_from-go}
use dag_doctor.Graph.Effects.{visit-Frame, length-steps-visit, iteration-visit}

-- How many nodes may still run from a node, with `r` iterations left.
abbrev rounds : ℕ → ℕ
rounds r = max 2 (3 * r - 1)

abbrev rank : NodeName → ℕ → ℕ
rank NodeName.triage r = 1 + rounds r
rank NodeName.gather_evidence r = rounds r
rank NodeName.form_hypothesis r = 2 + rounds r
rank NodeName.test_hypothesis r = 1 + rounds r
rank NodeName.conclude r = 1
rank NodeName.escalate r = 1

module _ (caller : ModelCaller) (box : Toolbox) (budgets : BudgetSettings) where
  rank_falls :
      (node next : NodeName) (s : InvestigationState)
      → next_node budgets node (visit caller box node s) ≡ some next
      → rank next (iterations_remaining (visit caller box node s))
        < rank node (iterations_remaining s)
  unfolding next_node after_triage after_gather_evidence after_form_hypothesis after_test_hypothesis
      budget_exhausted iterations_remaining
  rank_falls NodeName.triage next s e = ground (
    arith,
    iteration-visit caller box s NodeName.triage,
    visit-Frame caller box s NodeName.triage,
  )
  rank_falls NodeName.gather_evidence next s e = ground (
    arith,
    iteration-visit caller box s NodeName.gather_evidence,
    visit-Frame caller box s NodeName.gather_evidence,
  )
  rank_falls NodeName.form_hypothesis next s e = ground (
    arith,
    iteration-visit caller box s NodeName.form_hypothesis,
    visit-Frame caller box s NodeName.form_hypothesis,
  )
  rank_falls NodeName.test_hypothesis next s e = ground (
    arith,
    iteration-visit caller box s NodeName.test_hypothesis,
    visit-Frame caller box s NodeName.test_hypothesis,
  )
  rank_falls NodeName.conclude next s e = cc
  rank_falls NodeName.escalate next s e = cc

  pub run_from_total :
      (fuel : ℕ) (node : NodeName) (s : InvestigationState)
      → rank node (iterations_remaining s) ≤ fuel
      → (t : InvestigationState) × (run_from caller box budgets fuel node s ≡ some t)
        × (length t.steps ≤ length s.steps + fuel)
  run_from_total zero NodeName.triage s h = absurd (omega arith)
  run_from_total zero NodeName.gather_evidence s h = absurd (omega arith)
  run_from_total zero NodeName.form_hypothesis s h = absurd (omega arith)
  run_from_total zero NodeName.test_hypothesis s h = absurd (omega arith)
  run_from_total zero NodeName.conclude s h = absurd (omega arith)
  run_from_total zero NodeName.escalate s h = absurd (omega arith)
  run_from_total (suc fuel) node s h =
      elim (Option-cases (next_node budgets node (visit caller box node s))) [
        | inl stop ↦ (
          visit caller box node s,
          run_from-stop caller box budgets fuel node s stop,
          omega (arith, length-steps-visit caller box s node),
        )
        | inr (next, go) ↦
            let (t, run, short) =
              run_from_total fuel next (visit caller box node s)
                (omega (arith, rank_falls node next s go)) in
            (
              t,
              run_from-go caller box budgets fuel node next s go ∙ run,
              omega (arith, length-steps-visit caller box s node),
            )
      ]

-- Under any budget that the settings accept, whatever the model answers and whatever the tools do,
-- a run of the graph from its initial state ends, and its trace has at most three nodes for each
-- iteration of the budget.
pub run_graph_total :
    (caller : ModelCaller) (box : Toolbox) (budgets : BudgetSettings) (incident_id : ℕ)
    (failure : FailureEvent)
    → IsValid budgets
    → (t : InvestigationState) × (run_graph caller box budgets
          (3 * budgets.max_iterations)
          incident_id
          failure
        ≡ some t)
      × (length t.steps ≤ 3 * budgets.max_iterations)
unfolding run_graph initial_state iterations_remaining
run_graph_total caller box budgets incident_id failure v =
    let (t, run, short) =
      run_from_total caller box budgets (3 * budgets.max_iterations) NodeName.triage
        (initial_state incident_id failure budgets) (omega arith) in
    (t, run, omega arith)
