-- ===== src/Graph/Attribution.antt =====
-- About the task that a diagnosis blames (src/dag_doctor/graph/nodes/conclude.py).
use dag_doctor.Base.{
  ℕ, String, Option, none, some, true, map, ◌≡◌, ap, subst, refl, Bool-cases, inl, inr,
}
use dag_doctor.Core.Models.{Diagnosis, Evidence}
use dag_doctor.Graph.State.{InvestigationState, has_seen_task, successful_evidence}
use dag_doctor.Graph.Confidence.{compute_confidence}
use dag_doctor.Graph.Caller.{ModelCaller, Reply, answer, provider_error, Conclusion}
use dag_doctor.Graph.Nodes.Step.{NodeUpdate, updated, raised}
use dag_doctor.Graph.Nodes.Conclude
use dag_doctor.Graph.Nodes.Conclude.{
  seen_or_none, attributed_task, attributed_dag, diagnose, concluded_state, with_conclusion,
}

abbrev text_or : String → Option String → String
text_or x none = x
text_or x (some y) = y

seen_or_none-seen :
    (s : InvestigationState) (o : Option String) (task : String)
    → seen_or_none s o ≡ some task
    → has_seen_task s task ≡ true
unfolding seen_or_none
seen_or_none-seen s none task e = absurd cc
seen_or_none-seen s (some proposed) task e = elim (Bool-cases (has_seen_task s proposed)) [
  | inl h ↦
      let kept : some proposed ≡ some task = cc in
      subst (λ x. has_seen_task s x ≡ true) (ap (text_or proposed) kept) h
  | inr h ↦ absurd cc
]

-- What a diagnosis that `conclude` wrote says of the state it was drawn from.
pub record IsGrounded (s t : InvestigationState) (d : Diagnosis) : Type 0 where
  pub written : t.diagnosis ≡ some d
  pub seen : (task : String) → d.responsible_task_id ≡ some task → has_seen_task s task ≡ true
  pub no_dag : d.responsible_task_id ≡ none → d.responsible_dag_id ≡ none
  pub chain : d.evidence_chain ≡ map (λ (item : Evidence). item.id) (successful_evidence s)
  pub computed : d.confidence ≡ (compute_confidence s).total

no_dag_without_task :
    (conclusion : Conclusion) (s : InvestigationState) (o : Option String)
    → o ≡ none
    → attributed_dag conclusion s o ≡ none
unfolding attributed_dag
no_dag_without_task conclusion s none e = refl
no_dag_without_task conclusion s (some task) e = absurd cc

diagnose-IsGrounded :
    (s : InvestigationState) (conclusion : Conclusion) (model : String)
    → IsGrounded s (concluded_state s conclusion model) (diagnose s conclusion model)
unfolding concluded_state diagnose attributed_task
diagnose-IsGrounded s conclusion model = record {
  written = refl;
  seen = λ task e. seen_or_none-seen s _ task e;
  no_dag = λ e. no_dag_without_task conclusion s _ e;
  chain = refl;
  computed = refl;
}

abbrev state_or : InvestigationState → NodeUpdate → InvestigationState
state_or s (updated t m p c) = t
state_or s raised = s

abbrev Grounded : InvestigationState → InvestigationState → Type 0
Grounded s t = (d : Diagnosis) × IsGrounded s t d

with_conclusion-Grounded :
    (s t : InvestigationState) (reply : Reply Conclusion) (m : Option String) (p c : ℕ)
    → with_conclusion s reply ≡ updated t m p c
    → Grounded s t
unfolding with_conclusion
with_conclusion-Grounded s t provider_error m p c e = absurd cc
with_conclusion-Grounded s t (answer conclusion model _ _) m p c e =
    subst (Grounded s) (ap (state_or s) e)
      (diagnose s conclusion model, diagnose-IsGrounded s conclusion model)

-- A conclusion that the model answers blames only a task that the investigation has seen, names a DAG
-- only with a task, cites exactly the evidence that succeeded, and has the confidence that is computed
-- from the state, whatever the model wrote.
pub conclude-IsGrounded :
    (caller : ModelCaller) (s t : InvestigationState) (m : Option String) (p c : ℕ)
    → Conclude.run caller s ≡ updated t m p c
    → (d : Diagnosis) × IsGrounded s t d
unfolding Conclude.run
conclude-IsGrounded caller s t m p c e = with_conclusion-Grounded s t (caller.conclude s) m p c e
