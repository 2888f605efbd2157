-- ===== src/Core/Models.antt =====
-- The domain models (src/dag_doctor/core/models.py). Identifiers are native strings, free text is
-- a list of code points, a UUID and a moment are numbers. Confidence is in ten-thousandths, the
-- precision to which the program rounds it. The moments at which a record was made (`created_at`,
-- `collected_at`) come from the clock, and nothing reads them: they are left out.
use dag_doctor.Base.{ℕ, String, Text, Bool, true, false, ◌&&◌, not, Option, List}
use dag_doctor.Core.Json.{Fields}

pub data NodeName : Type 0 where
  triage gather_evidence form_hypothesis test_hypothesis conclude escalate : NodeName

pub data RootCauseCategory : Type 0 where
  schema_drift data_quality_regression upstream_dependency_failure missing_upstream_data
        transient_infrastructure query_defect type_mismatch resource_exhaustion configuration_error
        unknown :
      RootCauseCategory

pub RootCauseCategory-discrete : Discrete RootCauseCategory
RootCauseCategory-discrete = hlevel

pub data HaltReason : Type 0 where
  concluded iteration_budget_exhausted tool_call_budget_exhausted confidence_too_low
        no_hypothesis_formed investigation_error :
      HaltReason

pub data IncidentStatus : Type 0 where
  received investigating diagnosed inconclusive failed : IncidentStatus

pub data HypothesisOutcome : Type 0 where
  untested confirmed refuted inconclusive : HypothesisOutcome

-- A signed `map_index`: `negsuc n` is -(n + 1).
pub data ℤ : Type 0 where
  pos : ℕ → ℤ
  negsuc : ℕ → ℤ

pub record FailureEvent : Type 0 where
  pub dag_id : String
  pub task_id : String
  pub run_id : String
  pub try_number : ℕ
  pub map_index : ℤ
  pub logical_date : Option ℕ
  pub failed_at : ℕ
  pub log_url : Option String
  pub exception_type : Option Text
  pub exception_message : Option Text

pub record Evidence : Type 0 where
  pub id : ℕ
  pub tool_name : String
  pub tool_input : Fields
  pub result : Fields
  pub summary : Text
  pub succeeded : Bool
  pub duration_ms : ℕ

pub record Hypothesis : Type 0 where
  pub id : ℕ
  pub statement : Text
  pub root_cause_category : RootCauseCategory
  pub proposed_test : Text
  pub test_tool : Option String
  pub test_arguments : Fields
  pub rank : ℕ
  pub outcome : HypothesisOutcome
  pub test_notes : Option Text
  pub supporting_evidence_ids : List ℕ
  pub responsible_dag_id : Option String
  pub responsible_task_id : Option String

pub record Diagnosis : Type 0 where
  pub incident_id : ℕ
  pub root_cause_category : RootCauseCategory
  pub summary : Text
  pub confidence : ℕ
  pub halt_reason : HaltReason
  pub evidence_chain : List ℕ
  pub proposed_fix : Option Text
  pub responsible_dag_id : Option String
  pub responsible_task_id : Option String
  pub unknowns : List Text
  pub model_used : String

-- `reason is HaltReason.CONCLUDED`
abbrev pub is_concluded : HaltReason → Bool
is_concluded concluded = true
is_concluded _ = false

-- `category is RootCauseCategory.UNKNOWN`
abbrev pub is_unknown : RootCauseCategory → Bool
is_unknown unknown = true
is_unknown _ = false

-- `outcome is HypothesisOutcome.CONFIRMED`, and so for the others
abbrev pub is_confirmed : HypothesisOutcome → Bool
is_confirmed confirmed = true
is_confirmed _ = false

abbrev pub is_refuted : HypothesisOutcome → Bool
is_refuted refuted = true
is_refuted _ = false

abbrev pub is_untested : HypothesisOutcome → Bool
is_untested untested = true
is_untested _ = false

-- `left is right` on categories.
unfoldable pub same_category : RootCauseCategory → RootCauseCategory → Bool
unfolding RootCauseCategory-discrete
same_category a b = elim (RootCauseCategory-discrete a b) [ yes _ ↦ true | no _ ↦ false ]

unfoldable pub is_conclusive : Diagnosis → Bool
is_conclusive d = is_concluded d.halt_reason && not (is_unknown d.root_cause_category)
