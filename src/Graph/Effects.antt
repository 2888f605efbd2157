-- ===== src/Graph/Effects.antt =====
-- About what one node changes of the state (src/dag_doctor/graph/nodes).
use dag_doctor.Base.{
  ℕ, suc, ◌+◌, ◌≤◌, ◌≡◌, ◌⊎◌, inl, inr, arith, some, length, min, length-take, List, [], ◌∷◌, ◌++◌,
  take, map,
}
use dag_doctor.Core.Models.{NodeName, investigation_error}
use dag_doctor.Graph.State.{InvestigationState, tool_calls_remaining}
use dag_doctor.Graph.Toolbox.{Toolbox}
use dag_doctor.Graph.Caller.{ModelCaller, Reply-cases, PlannedCall}
use dag_doctor.Graph.Nodes.Step.{call, NodeUpdate, updated, raised}
use dag_doctor.Graph.Nodes.Triage
use dag_doctor.Graph.Nodes.Gather
use dag_doctor.Graph.Nodes.Gather.{call_key, key_of, gather_calls, gather_planned, CallKey}
use dag_doctor.Graph.Nodes.Form
use dag_doctor.Graph.Nodes.Probe
use dag_doctor.Graph.Nodes.Probe.{test_evidence}
use dag_doctor.Graph.Nodes.Conclude
use dag_doctor.Graph.Nodes.Escalate
use dag_doctor.Graph.Builder.{run_node, visit}

-- What no node changes, and the one step that each adds.
pub record Frame (s t : InvestigationState) : Type 0 where
  pub same_incident : t.incident_id ≡ s.incident_id
  pub same_failure : t.failure ≡ s.failure
  pub same_iterations : t.max_iterations ≡ s.max_iterations
  pub same_tool_calls : t.max_tool_calls ≡ s.max_tool_calls

length-snoc {ℓ} : {A : Type ℓ} (xs : List A) (x : A) → length (xs ++ x ∷ []) ≡ length xs + 1
length-snoc [] x = omega arith
length-snoc (y ∷ xs) x = omega (arith, length-snoc xs x)

length-steps-call :
    (node : NodeName) (s : InvestigationState) (u : NodeUpdate)
    → length (call node s u).steps ≡ length s.steps + 1
unfolding call
length-steps-call node s (updated t m p c) = length-snoc s.steps _
length-steps-call node s raised = length-snoc s.steps _

-- How many tool calls the loop makes.
length-gather_calls :
    (caller : ModelCaller) (box : Toolbox) (s : InvestigationState) (index : ℕ)
    (already : List CallKey) (calls : List PlannedCall)
    → length (gather_calls caller box s index already calls) ≤ length calls
unfolding gather_calls
length-gather_calls caller box s index already [] = omega arith
length-gather_calls caller box s index already (call ∷ calls) = ground (
  arith,
  length-gather_calls caller box s (suc index) already calls,
  length-gather_calls caller box s (suc index) (call_key caller box s index call ∷ already) calls,
)

pub length-gather_planned :
    (caller : ModelCaller) (box : Toolbox) (s : InvestigationState) (calls : List PlannedCall)
    → length (gather_planned caller box s calls) ≤ min 4 (tool_calls_remaining s)
unfolding gather_planned
length-gather_planned caller box s calls =
    let allowed = min 4 (tool_calls_remaining s) in
    omega (
      arith,
      length-gather_calls caller box s 0 (map key_of s.evidence) (take allowed calls),
      length-take allowed calls,
    )

abbrev pub Spends : NodeName → InvestigationState → InvestigationState → Type 0
Spends NodeName.gather_evidence s t =
    (t.iteration ≡ s.iteration) × (t.halt_reason ≡ some investigation_error)
    ⊎ (t.iteration ≡ s.iteration + 1)
Spends _ s t = t.iteration ≡ s.iteration

module _ (caller : ModelCaller) (box : Toolbox) (s : InvestigationState) where
  pub visit-Frame : (node : NodeName) → Frame s (visit caller box node s)
  unfolding visit Triage.run Gather.run Form.run Probe.run Conclude.run Escalate.run
  visit-Frame NodeName.triage = ground arith
  visit-Frame NodeName.gather_evidence = ground arith
  visit-Frame NodeName.form_hypothesis = ground arith
  visit-Frame NodeName.test_hypothesis = ground arith
  visit-Frame NodeName.conclude = ground arith
  visit-Frame NodeName.escalate = ground arith

  pub length-steps-visit :
      (node : NodeName) → length (visit caller box node s).steps ≡ length s.steps + 1
  unfolding visit
  length-steps-visit node = length-steps-call node s (run_node caller box node s)

  -- Only gathering spends an iteration, and it spends one unless it halts.
  pub iteration-visit : (node : NodeName) → Spends node s (visit caller box node s)
  unfolding visit Triage.run Gather.run Form.run Probe.run Conclude.run Escalate.run
  iteration-visit NodeName.triage = ground arith
  iteration-visit NodeName.gather_evidence = ground arith
  iteration-visit NodeName.form_hypothesis = ground arith
  iteration-visit NodeName.test_hypothesis = ground arith
  iteration-visit NodeName.conclude = ground arith
  iteration-visit NodeName.escalate = ground arith

  -- No node calls more tools than the budget has left.
  pub tool_calls-visit :
      (node : NodeName)
      → s.tool_calls_made ≤ s.max_tool_calls
      → (visit caller box node s).tool_calls_made ≤ s.max_tool_calls
  unfolding visit Triage.run Gather.run Form.run Probe.run Conclude.run Escalate.run test_evidence
      tool_calls_remaining
  tool_calls-visit NodeName.gather_evidence h = elim (Reply-cases (caller.plan s)) [
    | inl e ↦ rw e h
    | inr (calls, m, p, c, e) ↦ rw e (ground (arith, length-gather_planned caller box s calls))
  ]
  tool_calls-visit _ h = ground arith
