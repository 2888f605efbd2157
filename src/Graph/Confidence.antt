-- ===== src/Graph/Confidence.antt =====
-- Confidence, computed in code (src/dag_doctor/graph/confidence.py). Every term is an exact
-- multiple of a ten-thousandth, the precision to which the program rounds: 0.15 is 1500. So the
-- arithmetic here is exact where the program's floats are rounded back to it.
mod Signatures
pub mod Bounds
pub mod Certainty
pub mod Growth
pub use Signatures.{Signature}
unfoldable pub use Signatures.{known_signatures, match_signature}
use dag_doctor.Base.{
  ℕ, ◌+◌, ◌-◌, ◌*◌, ◌/◌, min, String, contains, Bool, true, false, Option, none, some, List, [],
  ◌∷◌, map, length, if◌then◌else◌,
}
use dag_doctor.Core.Models.{HypothesisOutcome, Evidence, Hypothesis}
use dag_doctor.Graph.State.{InvestigationState, successful_evidence, refuted_hypotheses}

abbrev pub base_confidence : ℕ
base_confidence = 1500

abbrev pub max_signature : ℕ
max_signature = 2000

abbrev pub max_hypothesis : ℕ
max_hypothesis = 3000

abbrev pub max_evidence : ℕ
max_evidence = 3500

abbrev pub evidence_saturation : ℕ
evidence_saturation = 4

abbrev pub refutation_penalty : ℕ
refutation_penalty = 500

abbrev pub max_refutation_penalty : ℕ
max_refutation_penalty = 1500

-- The members of a set built by adding `xs` to `seen`, without `seen`.
unfoldable pub distinct_from : List String → List String → List String
distinct_from seen [] = []
distinct_from seen (x ∷ xs) = elim (contains x seen) [
  | true ↦ distinct_from seen xs
  | false ↦ x ∷ distinct_from (x ∷ seen) xs
]

unfoldable pub independent_tool_count : InvestigationState → ℕ
unfolding distinct_from
independent_tool_count s =
    length (distinct_from [] (map (λ item. item.tool_name) (successful_evidence s)))

unfoldable pub signature_term : Option Signature → ℕ
signature_term none = 0
signature_term (some signature) = max_signature * signature.strength / 10000

unfoldable pub outcome_term : HypothesisOutcome → ℕ
outcome_term HypothesisOutcome.confirmed = max_hypothesis
outcome_term HypothesisOutcome.inconclusive = max_hypothesis * 2 / 10
outcome_term _ = 0

unfoldable pub hypothesis_term : Option Hypothesis → ℕ
unfolding outcome_term
hypothesis_term none = 0
hypothesis_term (some hypothesis) = outcome_term hypothesis.outcome

unfoldable pub evidence_term : ℕ → ℕ
evidence_term tools = max_evidence * min tools evidence_saturation / evidence_saturation

-- The size of the penalty, which the program keeps as a negative number.
unfoldable pub penalty_term : ℕ → ℕ
penalty_term refuted = min (refutation_penalty * refuted) max_refutation_penalty

pub record ConfidenceBreakdown : Type 0 where
  pub signature_match : ℕ
  pub hypothesis_test : ℕ
  pub evidence_support : ℕ
  pub penalty : ℕ
  pub total : ℕ
  pub independent_tools : ℕ
  pub matched_signature : Option String

-- `min(max(total, 0), 1)`: the subtraction stops at 0.
unfoldable pub clamp : ℕ → ℕ → ℕ
clamp terms penalty = min (terms - penalty) 10000

unfoldable pub compute_confidence : InvestigationState → ConfidenceBreakdown
unfolding clamp
compute_confidence s =
    let signature = match_signature s.failure.exception_type s.failure.exception_message in
    let tools = independent_tool_count s in
    let penalty = penalty_term (length (refuted_hypotheses s)) in
    record {
      signature_match = signature_term signature;
      hypothesis_test = hypothesis_term s.current_hypothesis;
      evidence_support = evidence_term tools;
      penalty = penalty;
      total =
          clamp
            (base_confidence
              + signature_term signature
              + hypothesis_term s.current_hypothesis
              + evidence_term tools)
            penalty;
      independent_tools = tools;
      matched_signature = elim signature [ none ↦ none | some known ↦ some known.name ];
    }

unfoldable pub triage_confidence : Option Signature → Bool → ℕ
triage_confidence none model_agrees = 0
triage_confidence (some signature) model_agrees =
    if model_agrees then signature.strength else signature.strength / 2
