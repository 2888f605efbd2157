-- ===== src/Examples/Scores.antt =====
-- The confidence of an investigation of the sample failure.
use dag_doctor.Base.{◌≤◌, ◌≡◌, ◌+◌, ◌↔◌, codes, true, [], ◌∷◌}
use dag_doctor.Core.Json.{end}
use dag_doctor.Core.Models.{Evidence}
use dag_doctor.Graph.State.{InvestigationState}
use dag_doctor.Graph.Builder.{initial_state}
use dag_doctor.Graph.Confidence.{compute_confidence}
use dag_doctor.Graph.Confidence.Bounds.{compute_confidence_exact}
use dag_doctor.Graph.Confidence.Certainty.{IsUnanimous, certain_iff}
use dag_doctor.Graph.Confidence.Growth.{with_evidence, compute_confidence_mono}
use dag_doctor.Examples.Samples.{orders_failure, budgets}

abbrev drift : Evidence
drift = record {
  id = 1;
  tool_name = "compare_schema_snapshot";
  tool_input = end;
  result = end;
  summary = codes "raw.orders drifted";
  succeeded = true;
  duration_ms = 12;
}

abbrev seen : InvestigationState
seen = with_evidence (initial_state 7 orders_failure budgets) (drift ∷ [])

compute_confidence_exact_example :
    ((compute_confidence seen).total + (compute_confidence seen).penalty
      ≡ 1500
        + (compute_confidence seen).signature_match
        + (compute_confidence seen).hypothesis_test
        + (compute_confidence seen).evidence_support)
    × ((compute_confidence seen).total ≤ 10000)
compute_confidence_exact_example = compute_confidence_exact seen

certain_iff_example : ((compute_confidence seen).total ≡ 10000) ↔ IsUnanimous seen
certain_iff_example = certain_iff seen

compute_confidence_mono_example :
    (compute_confidence seen).total ≤ (compute_confidence (with_evidence seen (drift ∷ []))).total
compute_confidence_mono_example = compute_confidence_mono seen (drift ∷ [])
