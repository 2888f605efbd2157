-- ===== src/Graph/Trace.antt =====
-- About the step trace (src/dag_doctor/graph/nodes/base.py) and the edges that build_graph declares.
use dag_doctor.Base.{
  ℕ, ◌+◌, ◌≡◌, arith, refl, subst, length, Option, none, some, List, [], ◌∷◌, ◌++◌, Bool, true,
  false,
}
use dag_doctor.Core.Models.{NodeName, FailureEvent}
use dag_doctor.Core.Settings.{BudgetSettings}
use dag_doctor.Graph.State.{InvestigationState, StepRecord, next_sequence}
use dag_doctor.Graph.Toolbox.{Toolbox}
use dag_doctor.Graph.Caller.{ModelCaller}
use dag_doctor.Graph.Routing.{
  after_triage, after_gather_evidence, after_form_hypothesis, after_test_hypothesis,
}
use dag_doctor.Graph.Nodes.Step.{NodeUpdate, updated, raised, call}
use dag_doctor.Graph.Builder.{next_node, run_node, visit, initial_state, run_graph}
use dag_doctor.Graph.Rule.{run_from_ind}

-- The edges that `build_graph` adds, with the route maps of `add_conditional_edges`.
unfoldable pub allowed : NodeName → Option NodeName → Bool
allowed NodeName.triage (some NodeName.conclude) = true
allowed NodeName.triage (some NodeName.gather_evidence) = true
allowed NodeName.triage (some NodeName.escalate) = true
allowed NodeName.gather_evidence (some NodeName.form_hypothesis) = true
allowed NodeName.gather_evidence (some NodeName.conclude) = true
allowed NodeName.gather_evidence (some NodeName.escalate) = true
allowed NodeName.form_hypothesis (some NodeName.test_hypothesis) = true
allowed NodeName.form_hypothesis (some NodeName.escalate) = true
allowed NodeName.test_hypothesis (some NodeName.conclude) = true
allowed NodeName.test_hypothesis (some NodeName.gather_evidence) = true
allowed NodeName.test_hypothesis (some NodeName.escalate) = true
allowed NodeName.conclude none = true
allowed NodeName.escalate none = true
allowed _ _ = false

-- A trace from START, numbered from 1, whose last step has an edge to what comes next; `none` is END.
pub data IsWalk : List StepRecord → Option NodeName → Type 0 where
  start : IsWalk [] (some NodeName.triage)
  extend :
      (steps : List StepRecord) (step : StepRecord) (next : Option NodeName)
      → IsWalk steps (some step.node)
      → step.sequence ≡ length steps + 1
      → allowed step.node next ≡ true
      → IsWalk (steps ++ step ∷ []) next

extend-call :
    (node : NodeName) (s : InvestigationState) (u : NodeUpdate) (next : Option NodeName)
    → IsWalk s.steps (some node)
    → allowed node next ≡ true
    → IsWalk (call node s u).steps next
unfolding call next_sequence
extend-call node s (updated t m p c) next w h = extend s.steps _ next w refl h
extend-call node s raised next w h = extend s.steps _ next w refl h

allowed-next :
    (budgets : BudgetSettings) (node : NodeName) (t : InvestigationState)
    → allowed node (next_node budgets node t) ≡ true
unfolding allowed next_node after_triage after_gather_evidence after_form_hypothesis
    after_test_hypothesis
allowed-next budgets NodeName.triage t = ground arith
allowed-next budgets _ t = ground arith

module _ (caller : ModelCaller) (box : Toolbox) (budgets : BudgetSettings) where
  IsWalk-visit :
      (node : NodeName) (s : InvestigationState) (next : Option NodeName)
      → IsWalk s.steps (some node)
      → next_node budgets node (visit caller box node s) ≡ next
      → IsWalk (visit caller box node s).steps next
  unfolding visit
  IsWalk-visit node s next w e =
      extend-call node s (run_node caller box node s) next w
        (subst (λ n. allowed node n ≡ true) e (allowed-next budgets node (visit caller box node s)))

-- The trace of a finished run leads from START to END along the declared edges, one step for each
-- node that ran, and its sequence numbers count from 1.
pub run_graph-IsWalk :
    (caller : ModelCaller) (box : Toolbox) (budgets : BudgetSettings) (fuel incident_id : ℕ)
    (failure : FailureEvent) (t : InvestigationState)
    → run_graph caller box budgets fuel incident_id failure ≡ some t
    → IsWalk t.steps none
unfolding run_graph initial_state
run_graph-IsWalk caller box budgets fuel incident_id failure t e =
    run_from_ind caller box budgets {P = λ node s. IsWalk s.steps (some node)}
      {Q = λ s. IsWalk s.steps none}
      (record {
        edge = λ node next s w q. IsWalk-visit caller box budgets node s (some next) w q;
        final = λ node s w q. IsWalk-visit caller box budgets node s none w q;
      })
      fuel NodeName.triage (initial_state incident_id failure budgets) t start e
