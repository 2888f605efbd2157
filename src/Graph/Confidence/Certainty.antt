-- ===== src/Graph/Confidence/Certainty.antt =====
-- About full confidence (src/dag_doctor/graph/confidence.py).
use dag_doctor.Base.{◌≤◌, ◌≡◌, ◌↔◌, arith, Option, none, some, length, true}
use dag_doctor.Core.Models.{Hypothesis}
use dag_doctor.Graph.State.{InvestigationState, refuted_hypotheses}
use dag_doctor.Graph.Routing.{survived}
use dag_doctor.Graph.Confidence.{
  Signature, compute_confidence, independent_tool_count, signature_term, hypothesis_term,
  evidence_term, penalty_term,
}
use dag_doctor.Graph.Confidence.Bounds.{
  signature, signature-le, hypothesis_term-le, evidence_term-le, compute_confidence_exact,
}

abbrev IsDecisive : Option Signature → Type 0
IsDecisive none = ⊥
IsDecisive (some known) = 10000 ≤ known.strength

abbrev pub IsUnanimous : InvestigationState → Type 0
IsUnanimous s =
    IsDecisive (signature s)
    × (survived s.current_hypothesis ≡ true)
    × (4 ≤ independent_tool_count s)
    × (length (refuted_hypotheses s) ≡ 0)

signature_full : (found : Option Signature) → 2000 ≤ signature_term found → IsDecisive found
unfolding signature_term
signature_full none h = absurd (omega arith)
signature_full (some known) h = omega arith

signature_term_decisive :
    (found : Option Signature) → IsDecisive found → 2000 ≤ signature_term found
unfolding signature_term
signature_term_decisive none h = absurd h
signature_term_decisive (some known) h = omega arith

hypothesis_full : (h : Option Hypothesis) → 3000 ≤ hypothesis_term h → survived h ≡ true
unfolding hypothesis_term survived
hypothesis_full none e = absurd (omega arith)
hypothesis_full (some h) e = ground arith

hypothesis_term-survived : (h : Option Hypothesis) → survived h ≡ true → 3000 ≤ hypothesis_term h
unfolding hypothesis_term survived
hypothesis_term-survived none e = cc
hypothesis_term-survived (some h) e = ground arith

-- The confidence is one exactly where a signature of full strength matched, the hypothesis survived
-- its test, at least four tools gave usable evidence, and no hypothesis was refuted.
pub certain_iff : (s : InvestigationState) → ((compute_confidence s).total ≡ 10000) ↔ IsUnanimous s
unfolding compute_confidence
certain_iff s = (forward, backward)
  where
    forward : (compute_confidence s).total ≡ 10000 → IsUnanimous s
    forward e =
        let sig = signature-le s in
        let exact = compute_confidence_exact s in
        let hyp = hypothesis_term-le s.current_hypothesis in
        let evi = evidence_term-le (independent_tool_count s) in
        (
          signature_full (signature s) (omega arith),
          hypothesis_full s.current_hypothesis (omega arith),
          unfold evidence_term in (omega arith),
          unfold penalty_term in (omega arith),
        )

    backward : IsUnanimous s → (compute_confidence s).total ≡ 10000
    backward (decisive, alive, many, clean) =
        let sig = signature_term_decisive (signature s) decisive in
        let hyp = hypothesis_term-survived s.current_hypothesis alive in
        let exact = compute_confidence_exact s in unfold evidence_term penalty_term in (omega arith)
