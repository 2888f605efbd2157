-- ===== src/Graph/Caller.antt =====
-- What the nodes ask of a model (src/dag_doctor/graph/model.py, and the answer types beside each
-- node). The model is a parameter: an answer may depend on the whole state, whose trace grows with
-- every step, so no two calls need agree. `uuid` gives the ids that `uuid4` would.
use dag_doctor.Base.{ℕ, String, Text, Bool, Option, List, ◌≡◌, refl, ◌⊎◌, inl, inr}
use dag_doctor.Core.Json.{Fields}
use dag_doctor.Core.Models.{ℤ, RootCauseCategory, HypothesisOutcome, Evidence}
use dag_doctor.Graph.State.{InvestigationState}

-- A `ModelCall`, or the `ProviderUnavailableError` of a call that failed.
pub data Reply {ℓ} (A : Type ℓ) : Type ℓ where
  answer : A → (model_used : String) (prompt_tokens completion_tokens : ℕ) → Reply A
  provider_error : Reply A

pub Reply-cases {ℓ} :
    {A : Type ℓ} (r : Reply A)
    → (r ≡ provider_error) ⊎ ((a : A) × (m : String) × (p : ℕ) × (c : ℕ) × (r ≡ answer a m p c))
Reply-cases (answer a m p c) = inr (a, m, p, c, refl)
Reply-cases provider_error = inl refl

pub record TriageAnswer : Type 0 where
  pub category : RootCauseCategory
  pub rationale : Text
  pub needs_investigation : Bool

pub record PlannedCall : Type 0 where
  pub tool : String
  pub why : Text

pub record ProposedHypothesis : Type 0 where
  pub statement : Text
  pub category : RootCauseCategory
  pub proposed_test : Text
  pub test_tool : String
  pub supporting_evidence : List ℤ
  pub responsible_dag_id : Option String
  pub responsible_task_id : Option String

pub record TestVerdict : Type 0 where
  pub outcome : HypothesisOutcome
  pub notes : Text

pub record Conclusion : Type 0 where
  pub root_cause_category : RootCauseCategory
  pub summary : Text
  pub proposed_fix : Option Text
  pub responsible_dag_id : Option String
  pub responsible_task_id : Option String
  pub unknowns : List Text

pub record ModelCaller : Type 0 where
  pub triage : InvestigationState → Reply TriageAnswer
  pub plan : InvestigationState → Reply (List PlannedCall)
  pub arguments : InvestigationState → ℕ → String → Reply Fields
  pub hypotheses : InvestigationState → Reply (List ProposedHypothesis)
  pub verdict : InvestigationState → List Evidence → Reply TestVerdict
  pub conclude : InvestigationState → Reply Conclusion
  pub uuid : InvestigationState → ℕ → ℕ
