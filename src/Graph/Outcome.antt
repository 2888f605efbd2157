-- ===== src/Graph/Outcome.antt =====
-- About how an investigation ends (src/dag_doctor/graph/routing.py, nodes/conclude.py and
-- nodes/escalate.py).
use dag_doctor.Base.{
  ℕ, ◌≤◌, ◌≡◌, ◌≢◌, ◌⊎◌, inl, inr, ap, ◌∙◌, arith, refl, none, some, true, false, Bool-cases,
  str_eq,
}
use dag_doctor.Core.Models.{NodeName, FailureEvent, investigation_error, Diagnosis, is_conclusive}
use dag_doctor.Core.Settings.{BudgetSettings}
use dag_doctor.Graph.State.{InvestigationState, successful_evidence, refuted_hypotheses}
use dag_doctor.Graph.Confidence.{compute_confidence, independent_tool_count}
use dag_doctor.Graph.Toolbox.{Toolbox}
use dag_doctor.Graph.Caller.{ModelCaller, Reply-cases}
use dag_doctor.Graph.Routing.{
  triage_suffices, survived, is_empty, after_triage, after_gather_evidence, after_form_hypothesis,
  after_test_hypothesis,
}
use dag_doctor.Graph.Nodes.Triage
use dag_doctor.Graph.Nodes.Gather
use dag_doctor.Graph.Nodes.Form
use dag_doctor.Graph.Nodes.Probe
use dag_doctor.Graph.Nodes.Conclude
use dag_doctor.Graph.Nodes.Escalate
use dag_doctor.Graph.Builder.{next_node, visit, initial_state, run_graph}
use dag_doctor.Graph.Rule.{run_from_ind}

-- What may lead to a conclusion: a triage that the code trusts, a hypothesis that survived its test
-- with enough confidence, or a round that found nothing new once a hypothesis existed.
pub data IsJustified (budgets : BudgetSettings) (s : InvestigationState) : Type 0 where
  by_triage : triage_suffices s.triage budgets ≡ true → IsJustified budgets s
  by_test :
      survived s.current_hypothesis ≡ true
      → budgets.min_conclude_confidence ≤ (compute_confidence s).total
      → IsJustified budgets s
  by_exhaustion :
      s.evidence_exhausted ≡ true → is_empty s.hypotheses ≡ false → IsJustified budgets s

-- A diagnosis agrees with the state that it was drawn from.
pub record IsSupported (budgets : BudgetSettings) (t : InvestigationState) (d : Diagnosis)
    : Type 0 where
  pub same_incident : d.incident_id ≡ t.incident_id
  pub same_reason : t.halt_reason ≡ some d.halt_reason
  pub computed : d.confidence ≡ (compute_confidence t).total
  pub justified : is_conclusive d ≡ true → IsJustified budgets t

abbrev pub EndsWell : BudgetSettings → InvestigationState → Type 0
EndsWell budgets t =
    ((d : Diagnosis) × (t.diagnosis ≡ some d) × IsSupported budgets t d)
    ⊎ (t.diagnosis ≡ none) × (t.halt_reason ≡ some investigation_error)

-- Before each node there is no diagnosis, and a conclusion is justified.
record IsOpen (budgets : BudgetSettings) (node : NodeName) (s : InvestigationState) : Type 0 where
  undiagnosed : s.diagnosis ≡ none
  ready : node ≡ NodeName.conclude → IsJustified budgets s

triage-ne-conclude : NodeName.triage ≢ NodeName.conclude
triage-ne-conclude q = cc

carry :
    (budgets : BudgetSettings) (s t : InvestigationState)
    → t.triage ≡ s.triage
    → t.current_hypothesis ≡ s.current_hypothesis
    → t.hypotheses ≡ s.hypotheses
    → t.evidence_exhausted ≡ s.evidence_exhausted
    → (compute_confidence t).total ≡ (compute_confidence s).total
    → IsJustified budgets s
    → IsJustified budgets t
carry budgets s t same_triage same_current same_hypotheses same_exhausted same_total (by_triage p) =
    by_triage (rw same_triage p)
carry budgets s t same_triage same_current same_hypotheses same_exhausted same_total (by_test p q) =
    by_test (rw same_current p) (rw same_total q)
carry budgets s t same_triage same_current same_hypotheses same_exhausted same_total
      (by_exhaustion p q) =
    by_exhaustion (rw same_exhausted p) (rw same_hypotheses q)

module _ (caller : ModelCaller) (box : Toolbox) (s : InvestigationState) where
  diagnosis-visit :
      (node : NodeName)
      → node ≢ NodeName.conclude
      → node ≢ NodeName.escalate
      → (visit caller box node s).diagnosis ≡ s.diagnosis
  unfolding visit Triage.run Gather.run Form.run Probe.run
  diagnosis-visit NodeName.triage h k = ground arith
  diagnosis-visit NodeName.gather_evidence h k = ground arith
  diagnosis-visit NodeName.form_hypothesis h k = ground arith
  diagnosis-visit NodeName.test_hypothesis h k = ground arith
  diagnosis-visit NodeName.conclude h k = absurd (h refl)
  diagnosis-visit NodeName.escalate h k = absurd (k refl)

  module _ (budgets : BudgetSettings) where
    conclude-EndsWell :
        IsJustified budgets s
        → s.diagnosis ≡ none
        → EndsWell budgets (visit caller box NodeName.conclude s)
    unfolding visit Conclude.run compute_confidence independent_tool_count successful_evidence
        refuted_hypotheses
    conclude-EndsWell j h = elim (Reply-cases (caller.conclude s)) [
      | inl e ↦ rw e (inr (h, refl))
      | inr (conclusion, m, p, c, e) ↦ rw e (elim (Bool-cases (str_eq m "")) [
        | inl q ↦ rw q (
            inl (
              Conclude.diagnose s conclusion m,
              refl,
              record {
                same_incident = refl;
                same_reason = refl;
                computed = refl;
                justified = λ _. carry budgets s _ refl refl refl refl refl j;
              },
            ))
        | inr q ↦ rw q (
            inl (
              Conclude.diagnose s conclusion m,
              refl,
              record {
                same_incident = refl;
                same_reason = refl;
                computed = refl;
                justified = λ _. carry budgets s _ refl refl refl refl refl j;
              },
            ))
      ])
    ]

    escalate-EndsWell : EndsWell budgets (visit caller box NodeName.escalate s)
    unfolding visit Escalate.run compute_confidence independent_tool_count successful_evidence
        refuted_hypotheses is_conclusive
    escalate-EndsWell = inl (
      Escalate.escalated_diagnosis s,
      refl,
      record {
        same_incident = refl;
        same_reason = refl;
        computed = refl;
        justified = λ h. absurd (ground arith);
      },
    )

module _ (budgets : BudgetSettings) (t : InvestigationState) where
  triage_justifies :
      after_triage t budgets ≡ NodeName.conclude → triage_suffices t.triage budgets ≡ true
  unfolding after_triage
  triage_justifies h = ground arith

  gather_justifies :
      after_gather_evidence t ≡ NodeName.conclude
      → (t.evidence_exhausted ≡ true) × (is_empty t.hypotheses ≡ false)
  unfolding after_gather_evidence
  gather_justifies h = ground arith

  test_justifies :
      after_test_hypothesis t budgets ≡ NodeName.conclude
      → (survived t.current_hypothesis ≡ true)
        × (budgets.min_conclude_confidence ≤ (compute_confidence t).total)
  unfolding after_test_hypothesis
  test_justifies h = ground arith

  form_tests : after_form_hypothesis t ≡ NodeName.conclude → ⊥
  unfolding after_form_hypothesis
  form_tests h = ground arith

  -- Every edge into `conclude` is justified by the state that it leaves.
  edge-IsJustified :
      (node : NodeName) → next_node budgets node t ≡ some NodeName.conclude → IsJustified budgets t
  unfolding next_node
  edge-IsJustified NodeName.triage e = by_triage (triage_justifies (cc e))
  edge-IsJustified NodeName.gather_evidence e =
      let (exhausted, formed) = gather_justifies (cc e) in by_exhaustion exhausted formed
  edge-IsJustified NodeName.form_hypothesis e = absurd (form_tests (cc e))
  edge-IsJustified NodeName.test_hypothesis e =
      let (alive, enough) = test_justifies (cc e) in by_test alive enough
  edge-IsJustified NodeName.conclude e = cc
  edge-IsJustified NodeName.escalate e = cc

module _ (caller : ModelCaller) (box : Toolbox) (budgets : BudgetSettings) where
  IsOpen-edge :
      (node next : NodeName) (s : InvestigationState)
      → IsOpen budgets node s
      → next_node budgets node (visit caller box node s) ≡ some next
      → IsOpen budgets next (visit caller box node s)
  unfolding next_node
  IsOpen-edge NodeName.conclude next s h e = cc
  IsOpen-edge NodeName.escalate next s h e = cc
  IsOpen-edge node next s h e = record {
    undiagnosed = diagnosis-visit caller box s node (λ q. cc) (λ q. cc) ∙ h.undiagnosed;
    ready = λ q. edge-IsJustified budgets (visit caller box node s) node (e ∙ ap some q);
  }

  IsOpen-final :
      (node : NodeName) (s : InvestigationState)
      → IsOpen budgets node s
      → next_node budgets node (visit caller box node s) ≡ none
      → EndsWell budgets (visit caller box node s)
  unfolding next_node
  IsOpen-final NodeName.conclude s h e =
      conclude-EndsWell caller box s budgets (h.ready refl) h.undiagnosed
  IsOpen-final NodeName.escalate s h e = escalate-EndsWell caller box s budgets
  IsOpen-final _ s h e = cc

-- A finished run has a diagnosis, for its own incident, with the halt reason of the state and the
-- confidence that the code computes from it, which is conclusive only where triage sufficed, a
-- tested hypothesis survived with enough confidence, or the evidence was exhausted after a
-- hypothesis was formed; or it has no diagnosis and records an investigation error.
pub run_graph-EndsWell :
    (caller : ModelCaller) (box : Toolbox) (budgets : BudgetSettings) (fuel incident_id : ℕ)
    (failure : FailureEvent) (t : InvestigationState)
    → run_graph caller box budgets fuel incident_id failure ≡ some t
    → EndsWell budgets t
unfolding run_graph initial_state
run_graph-EndsWell caller box budgets fuel incident_id failure t e =
    run_from_ind caller box budgets {P = IsOpen budgets} {Q = EndsWell budgets}
      (record { edge = IsOpen-edge caller box budgets; final = IsOpen-final caller box budgets })
      fuel NodeName.triage (initial_state incident_id failure budgets) t
      (record { undiagnosed = refl; ready = λ q. absurd (triage-ne-conclude q) }) e
